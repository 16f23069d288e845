-- ===== src/Frame/Types.antt =====
-- payload-frame.ts, and what payloadFrameCodec.ts takes from Node.js: Buffer, crypto, zlib and JSON.
use Prim.Native.String.{String}
use text.Mathlib.Text.{◌==◌ as str_eq}
use plug_node.Base.{ℕ, Bool, true, false, Option, List, [], ◌∷◌, if◌then◌else◌}
use plug_node.Values.Number.{Number}

-- A `Buffer`.
abbrev pub Bytes : Type 0
Bytes = List ℕ

-- A value of unknown type that is no object. An entry of an array that is no number is `nan`, which
-- the codec treats alike.
pub data Leaf : Type 0 where
  undefined null other : Leaf
  str : String → Leaf
  number : Number → Leaf
  bytes : Bytes → Leaf
  array : List Number → Leaf

-- A value of unknown type. The codec looks into two levels of objects.
pub data Value : Type 0 where
  leaf : Leaf → Value
  object : List (String × Leaf) → Value

-- What arrives: the members of an object, or something that is no object.
abbrev pub Received : Type 0
Received = Option (List (String × Value))

pub data Cmp : Type 0 where
  plain gzipped : Cmp

pub data Compression : Type 0 where
  default never always : Compression

-- `PayloadFrameSignature`, whose `alg` is always hmac-sha256.
pub record Signature : Type 0 where
  pub value : String
  pub key_id : Option String

abbrev pub signature_of : String → Option String → Signature
signature_of value key_id = record { value = value; key_id = key_id }

-- `PayloadFrameEnvelope` without its constants. A request id that is null is `none`.
pub record Frame : Type 0 where
  pub cmp : Cmp
  pub original_size : ℕ
  pub compressed_size : ℕ
  pub payload : Leaf
  pub trace_id : Option String
  pub request_id : Option String
  pub signature : Option Signature

abbrev pub envelope : Cmp → ℕ → ℕ → Leaf → Option String → Option String → Option Signature → Frame
envelope cmp original_size compressed_size payload trace_id request_id signature = record {
  cmp = cmp;
  original_size = original_size;
  compressed_size = compressed_size;
  payload = payload;
  trace_id = trace_id;
  request_id = request_id;
  signature = signature;
}

-- `PayloadFrameSigningKeyEntry`
pub record KeyEntry : Type 0 where
  pub key : String
  pub key_id : Option String

abbrev pub key_entry : String → Option String → KeyEntry
key_entry key key_id = record { key = key; key_id = key_id }

-- `PayloadFrameSigningOptions`
pub record SigningOptions : Type 0 where
  pub key : Option String
  pub key_id : Option String
  pub require_signature : Bool
  pub previous_keys : List KeyEntry

-- The errors, by their messages.
pub data Problem : Type 0 where
  not_an_object unsupported_fields bad_schema_version bad_enc bad_cmp bad_content_type : Problem
  bad_original_size bad_compressed_size payload_missing bad_trace_id bad_request_id : Problem
  signature_not_an_object signature_unsupported_fields bad_signature_alg : Problem
  signature_value_required bad_signature_key_id : Problem
  not_bytes not_binary compressed_limit decoded_limit inflation_ratio : Problem
  compressed_size_mismatch original_size_mismatch gunzip_failed gunzip_limit invalid_json : Problem
  signature_required no_signing_key key_id_required key_id_mismatch verification_failed : Problem
  rejected_by_callback : Problem

pub data Result {ℓ} (A : Type ℓ) : Type ℓ where
  ok : A → Result A
  fail : Problem → Result A

-- `if (!test) throw problem;` before the rest.
unfoldable pub require {ℓ} : {A : Type ℓ} → Bool → Problem → Result A → Result A
require b p rest = if b then rest else fail p

unfoldable pub and_then {ℓ κ} : {A : Type ℓ} {B : Type κ} → Result A → (A → Result B) → Result B
and_then (ok a) f = f a
and_then (fail p) f = fail p

-- What `gunzipSync` answers under `maxOutputLength`.
pub data Inflated : Type 0 where
  inflated : Bytes → Inflated
  too_large corrupt : Inflated

-- The object whose text a signature starts with, less its constants.
pub record Header : Type 0 where
  pub cmp : Cmp
  pub original_size : ℕ
  pub compressed_size : ℕ
  pub trace_id : Option String
  pub request_id : Option String

abbrev pub header : Cmp → ℕ → ℕ → Option String → Option String → Header
header cmp original_size compressed_size trace_id request_id = record {
  cmp = cmp;
  original_size = original_size;
  compressed_size = compressed_size;
  trace_id = trace_id;
  request_id = request_id;
}

-- Node.js: `String.trim`, `JSON.stringify` and `JSON.parse`, `createHmac("sha256", key)` over the
-- text and the payload, `Buffer` from and to base64 and UTF-8, and `zlib`.
pub record Runtime (D : Type 0) : Type 0 where
  pub trim : String → String
  pub signature_prefix : Header → String
  pub hmac : String → String → Bytes → Bytes
  pub to_base64 : Bytes → String
  pub from_base64 : String → Bytes
  pub byte_length : String → ℕ
  pub gzip : Bytes → Bytes
  pub gunzip : Bytes → ℕ → Inflated
  pub utf8 : String → Bytes
  pub stringify : D → String
  pub parse : Bytes → Option D

-- The member of an object, undefined where it is missing.
unfoldable pub prop : String → List (String × Value) → Value
prop k [] = leaf undefined
prop k ((j, v) ∷ es) = if str_eq j k then v else prop k es

unfoldable pub leaf_prop : String → List (String × Leaf) → Leaf
leaf_prop k [] = undefined
leaf_prop k ((j, v) ∷ es) = if str_eq j k then v else leaf_prop k es

-- `key in object`
unfoldable pub has_prop : String → List (String × Value) → Bool
has_prop k [] = false
has_prop k ((j, v) ∷ es) = if str_eq j k then true else has_prop k es

unfoldable pub includes : String → List String → Bool
includes k [] = false
includes k (j ∷ ks) = if str_eq j k then true else includes k ks
