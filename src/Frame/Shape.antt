-- ===== src/Frame/Shape.antt =====
-- `assertValidFrameShape` and `payloadToBuffer`: what an arriving value must be to be a frame.
use Prim.Native.String.{String}
use text.Mathlib.Text.{◌==◌ as str_eq}
use plug_node.Base.{
  ℕ, ◌*◌, ◌/◌, ◌%◌, suc, Bool, false, not, Option, none, some, List, [], ◌∷◌, if◌then◌else◌, ◌==◌,
  leb, length, every,
}
use plug_node.Values.Number.{Number, fraction}
use plug_node.Frame.Types.{
  Bytes, Leaf, undefined, null, other, str, number, bytes, array, Value, leaf, object, Received,
  Cmp, plain, gzipped, Signature, signature_of, Frame, envelope, Problem, not_an_object,
  unsupported_fields, bad_schema_version, bad_enc, bad_cmp, bad_content_type, bad_original_size,
  bad_compressed_size, payload_missing, bad_trace_id, bad_request_id, signature_not_an_object,
  signature_unsupported_fields, bad_signature_alg, signature_value_required, bad_signature_key_id,
  not_bytes, not_binary, compressed_limit, decoded_limit, Result, ok, fail, require, and_then, prop,
  leaf_prop, has_prop, includes,
}

abbrev pub max_compressed_bytes : ℕ
max_compressed_bytes = 10 * 1024 * 1024

abbrev pub max_decoded_bytes : ℕ
max_decoded_bytes = 10 * 1024 * 1024

abbrev pub allowed_root_keys : List String
allowed_root_keys =
    "schemaVersion" ∷ "enc" ∷ "cmp" ∷ "contentType" ∷ "originalSize" ∷ "compressedSize" ∷ "payload"
    ∷ "traceId" ∷ "requestId" ∷ "signature" ∷ []

abbrev pub allowed_signature_keys : List String
allowed_signature_keys = "alg" ∷ "value" ∷ "key_id" ∷ []

-- `assertPayloadSizeLimits`, before the rest.
abbrev pub assert_payload_size_limits {ℓ} : {A : Type ℓ} → ℕ → ℕ → Result A → Result A
assert_payload_size_limits payload_length original_length rest =
    require (leb payload_length max_compressed_bytes) compressed_limit
      (require (leb original_length max_decoded_bytes) decoded_limit rest)

-- An integer that is not negative, or none.
unfoldable pub whole_value : Number → Option ℕ
whole_value (fraction n d) = if n % suc d == 0 then some (n / suc d) else none
whole_value _ = none

-- An entry of an array as a byte.
unfoldable pub byte_value : Number → Option ℕ
byte_value x = elim (whole_value x) [ none ↦ none | some n ↦ if leb n 255 then some n else none ]

unfoldable pub bytes_of : List Number → Option Bytes
bytes_of [] = some []
bytes_of (x ∷ xs) =
    let rest = bytes_of xs in
    elim (byte_value x) [
      | none ↦ none
      | some b ↦ elim rest [ none ↦ none | some bs ↦ some (b ∷ bs) ]
    ]

unfoldable pub payload_to_buffer :
    (byte_length : String → ℕ) (from_base64 : String → Bytes) → Leaf → Result Bytes
payload_to_buffer byte_length from_base64 (str s) =
    assert_payload_size_limits (byte_length s) 0 (ok (from_base64 s))
payload_to_buffer byte_length from_base64 (bytes b) = ok b
payload_to_buffer byte_length from_base64 (array xs) =
    assert_payload_size_limits (length xs) 0
      (elim (bytes_of xs) [ none ↦ fail not_bytes | some b ↦ ok b ])
payload_to_buffer byte_length from_base64 _ = fail not_binary

abbrev pub is_text : String → Leaf → Bool
is_text s (str t) = str_eq t s
is_text s _ = false

abbrev pub is_text_value : String → Value → Bool
is_text_value s (leaf v) = is_text s v
is_text_value s (object es) = false

unfoldable pub read_cmp : Value → Result Cmp
read_cmp v =
    if is_text_value "none" v
    then ok plain
    else if is_text_value "gzip" v
    then ok gzipped
    else fail bad_cmp

unfoldable pub read_size : Problem → Value → Result ℕ
read_size p (leaf (number x)) = elim (whole_value x) [ none ↦ fail p | some n ↦ ok n ]
read_size p _ = fail p

-- A text that may be undefined.
unfoldable pub read_text : Problem → Leaf → Result (Option String)
read_text p undefined = ok none
read_text p (str s) = ok (some s)
read_text p _ = fail p

unfoldable pub read_trace_id : Value → Result (Option String)
read_trace_id (leaf v) = read_text bad_trace_id v
read_trace_id (object es) = fail bad_trace_id

unfoldable pub read_request_id : Value → Result (Option String)
read_request_id (leaf null) = ok none
read_request_id (leaf v) = read_text bad_request_id v
read_request_id (object es) = fail bad_request_id

abbrev pub is_blank : (trim : String → String) → String → Bool
is_blank trim s = str_eq (trim s) ""

unfoldable pub read_signature_value : (trim : String → String) → Leaf → Result String
read_signature_value trim (str s) = require (not (is_blank trim s)) signature_value_required (ok s)
read_signature_value trim _ = fail signature_value_required

unfoldable pub read_signature : (trim : String → String) → Value → Result (Option Signature)
read_signature trim (leaf undefined) = ok none
read_signature trim (leaf _) = fail signature_not_an_object
read_signature trim (object es) =
    require (every (λ (e : String × Leaf). includes e.0 allowed_signature_keys) es)
      signature_unsupported_fields
      (require (is_text "hmac-sha256" (leaf_prop "alg" es)) bad_signature_alg (
        and_then (read_signature_value trim (leaf_prop "value" es)) (λ value.
          and_then (read_text bad_signature_key_id (leaf_prop "key_id" es))
            (λ key_id. ok (some (signature_of value key_id))))))

abbrev pub payload_leaf : Value → Leaf
payload_leaf (leaf v) = v
payload_leaf (object es) = other

unfoldable pub assert_valid_frame_shape : (trim : String → String) → Received → Result Frame
assert_valid_frame_shape trim none = fail not_an_object
assert_valid_frame_shape trim (some es) =
    require (every (λ (e : String × Value). includes e.0 allowed_root_keys) es) unsupported_fields (
      require (is_text_value "1.0" (prop "schemaVersion" es)) bad_schema_version (
        require (is_text_value "json" (prop "enc" es)) bad_enc (
          and_then (read_cmp (prop "cmp" es)) (λ cmp.
            require (is_text_value "application/json" (prop "contentType" es)) bad_content_type (
              and_then (read_size bad_original_size (prop "originalSize" es)) (λ original_size.
                and_then (read_size bad_compressed_size (prop "compressedSize" es))
                  (λ compressed_size. require (has_prop "payload" es) payload_missing (
                    and_then (read_trace_id (prop "traceId" es)) (λ trace_id.
                      and_then (read_request_id (prop "requestId" es)) (λ request_id.
                        and_then (read_signature trim (prop "signature" es)) (λ signature. ok (
                          envelope cmp original_size compressed_size
                            (payload_leaf (prop "payload" es)) trace_id request_id
                            signature))))))))))))
