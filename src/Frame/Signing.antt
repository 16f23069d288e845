-- ===== src/Frame/Signing.antt =====
-- The signature of a frame: `signFrame`, `resolveVerificationKeys` and `verifyFrameSignature`.
use Prim.Native.String.{String}
use text.Mathlib.Text.{◌==◌ as str_eq}
use plug_node.Base.{
  Bool, true, false, not, ◌&&◌, ◌||◌, Option, none, some, List, [], ◌∷◌, ◌++◌, if◌then◌else◌, ◌==◌,
  length, is_empty, keep_if,
}
use plug_node.Frame.Types.{
  Bytes, Signature, signature_of, Frame, KeyEntry, key_entry, SigningOptions,
  signature_value_required, signature_required, no_signing_key, key_id_required, key_id_mismatch,
  verification_failed, Result, require, Header, header, Runtime,
}
use plug_node.Frame.Shape.{is_blank}

-- `text?.trim()` where that is not empty.
unfoldable pub trimmed : (trim : String → String) → Option String → Option String
trimmed trim none = none
trimmed trim (some s) = if is_blank trim s then none else some (trim s)

unfoldable pub normalize_signing_key :
    (trim : String → String) → Option SigningOptions → Option String
normalize_signing_key trim none = none
normalize_signing_key trim (some signing) = elim signing.key [
  | none ↦ none
  | some key ↦ if is_blank trim key then none else some key
]

unfoldable pub previous_entries : (trim : String → String) → List KeyEntry → List KeyEntry
previous_entries trim [] = []
previous_entries trim (entry ∷ entries) =
    let rest = previous_entries trim entries in
    if is_blank trim entry.key
    then rest
    else key_entry (trim entry.key) (trimmed trim entry.key_id) ∷ rest

abbrev pub configured_key_id : Option SigningOptions → Option String
configured_key_id none = none
configured_key_id (some signing) = signing.key_id

abbrev pub configured_previous : Option SigningOptions → List KeyEntry
configured_previous none = []
configured_previous (some signing) = signing.previous_keys

abbrev pub primary_entry :
    (trim : String → String) → Option String → Option SigningOptions → List KeyEntry
primary_entry trim none signing = []
primary_entry trim (some key) signing =
    key_entry key (trimmed trim (configured_key_id signing)) ∷ []

unfoldable pub resolve_verification_keys :
    (trim : String → String) → Option SigningOptions → List KeyEntry
resolve_verification_keys trim signing =
    primary_entry trim (normalize_signing_key trim signing) signing
    ++ previous_entries trim (configured_previous signing)

-- `timingSafeEqual`
unfoldable pub bytes_equal : Bytes → Bytes → Bool
bytes_equal [] [] = true
bytes_equal [] (b ∷ bs) = false
bytes_equal (a ∷ bs) [] = false
bytes_equal (a ∷ cs) (b ∷ bs) = (a == b) && bytes_equal cs bs

unfoldable pub signatures_match : Bytes → Bytes → Bool
signatures_match provided expected =
    (length provided == length expected) && bytes_equal provided expected

abbrev pub header_of : Frame → Header
header_of f = header f.cmp f.original_size f.compressed_size f.trace_id f.request_id

module _ {D : Type 0} (node : Runtime D) where
  unfoldable pub expected_digest : Frame → Bytes → String → Bytes
  expected_digest f payload key = node.hmac key (node.signature_prefix (header_of f)) payload

  unfoldable pub sign_frame : Frame → Bytes → Option SigningOptions → Frame
  sign_frame f payload signing = elim (normalize_signing_key node.trim signing) [
    | none ↦ f
    | some key ↦ record f {
      signature = some (
          signature_of (node.to_base64 (expected_digest f payload key))
            (trimmed node.trim (configured_key_id signing)));
    }
  ]

  unfoldable pub requires_signature : Option SigningOptions → Bool
  requires_signature none = false
  requires_signature (some signing) = signing.require_signature

  abbrev pub is_given : Option String → Bool
  is_given none = false
  is_given (some s) = true

  unfoldable pub some_has_key_id : List KeyEntry → Bool
  some_has_key_id [] = false
  some_has_key_id (entry ∷ entries) = is_given entry.key_id || some_has_key_id entries

  unfoldable pub requires_key_id : Option SigningOptions → Bool
  requires_key_id signing =
      some_has_key_id (resolve_verification_keys node.trim signing)
      || is_given (configured_key_id signing)

  abbrev pub fits_key_id : Option String → Option String → Bool
  fits_key_id frame_key_id none = true
  fits_key_id none (some k) = true
  fits_key_id (some j) (some k) = str_eq k j

  unfoldable pub candidate_keys : Option String → List KeyEntry → List KeyEntry
  candidate_keys frame_key_id entries =
      keep_if (λ (entry : KeyEntry). fits_key_id frame_key_id entry.key_id) entries

  unfoldable pub some_key_matches : Frame → Bytes → Bytes → List KeyEntry → Bool
  some_key_matches f payload provided [] = false
  some_key_matches f payload provided (entry ∷ entries) =
      signatures_match provided (expected_digest f payload entry.key)
      || some_key_matches f payload provided entries

  unfoldable pub verify_signature :
      {R : Type 0} → Frame → Bytes → Option SigningOptions → Signature → Result R → Result R
  verify_signature f payload signing signature rest =
      let keys = resolve_verification_keys node.trim signing in
      let frame_key_id = trimmed node.trim signature.key_id in
      let candidates = candidate_keys frame_key_id keys in
      let provided = node.from_base64 (node.trim signature.value) in
      require (not (is_empty keys)) no_signing_key (
        require (not (requires_key_id signing) || is_given frame_key_id) key_id_required (
          require (not (is_empty candidates)) key_id_mismatch (
            require (not (is_blank node.trim signature.value)) signature_value_required
              (require (some_key_matches f payload provided candidates) verification_failed rest))))

  unfoldable pub verify_given :
      {R : Type 0} → Frame → Bytes → Option SigningOptions → Option Signature → Result R → Result R
  verify_given f payload signing none rest =
      require (not (requires_signature signing)) signature_required rest
  verify_given f payload signing (some signature) rest =
      verify_signature f payload signing signature rest

  -- The frame is verified before the rest.
  unfoldable pub verify_frame_signature :
      {R : Type 0} → Frame → Bytes → Option SigningOptions → Result R → Result R
  verify_frame_signature f payload signing rest = verify_given f payload signing f.signature rest
