-- ===== src/Frame/Codec/Tests.antt =====
-- Runs of the codec over small functions in the place of Node.js', with its laws at them.
use text.Mathlib.Text.{◌==◌ as str_eq}
use plug_node.Base.{
  ℕ, ◌≤◌, ◌≡◌, refl, true, false, none, some, [], ◌∷◌, length, leb, if◌then◌else◌, ◌==◌, Bool-cases,
  inl, inr, arith, ◌&&◌,
}
use plug_node.Frame.Types.{
  Bytes, Frame, envelope, bytes, SigningOptions, key_entry, Runtime, Inflated, inflated, too_large,
  corrupt, ok, fail, plain, gzipped, always, key_id_required, verification_failed, require,
  and_then, prop, leaf_prop, has_prop, includes,
}
use plug_node.Frame.Shape.{
  is_blank, max_compressed_bytes, max_decoded_bytes, payload_to_buffer, whole_value, byte_value,
  bytes_of, read_cmp, read_size, read_text, read_trace_id, read_request_id, read_signature_value,
  read_signature, assert_valid_frame_shape,
}
use plug_node.Frame.Signing.{
  trimmed, normalize_signing_key, previous_entries, resolve_verification_keys, bytes_equal,
  signatures_match, expected_digest, sign_frame, requires_signature, some_has_key_id,
  requires_key_id, candidate_keys, some_key_matches, verify_signature, verify_given,
  verify_frame_signature,
}
use plug_node.Frame.Codec.{
  EncodeOptions, Decoded, should_evaluate_compression, should_use_compressed_payload, within_ratio,
  assert_decoded_metadata_limits, validate_decoded_payload, output_limit, prepare_payload,
  build_frame, encode_json_payload_frame, encode_payload_frame, gunzip_with_limit,
  parse_frame_for_decode, decode_bytes, parse_decoded_payload, decode_parsed, decode_payload_frame,
  members,
}
use plug_node.Frame.Codec.Authentic.{Verified}
use plug_node.Frame.Codec.Bounds.{decode_bounds, decode-Verified}
use plug_node.Frame.Codec.Signed.{NodeLaws, Consistent}
use plug_node.Frame.Codec.Refused.{own_frame_refused, LacksKeyId, blank_id}
use plug_node.Frame.Codec.Prepared.{le→leb}
use plug_node.Frame.Codec.Roundtrip.{decode-encode}

-- The one value is null; a digest is one byte, which tells the key "secret" from the others; zlib
-- puts two bytes in front.
abbrev unzip : Bytes → ℕ → Inflated
unzip (x ∷ y ∷ b) most =
    if x == 31 && y == 139 then if leb (length b) most then inflated b else too_large else corrupt
unzip b most = corrupt

unzip-zip : (b : Bytes) (most : ℕ) → length b ≤ most → unzip (31 ∷ 139 ∷ b) most ≡ inflated b
unzip-zip b most h = rw (le→leb (length b) most h) refl

abbrev small_node : Runtime (Unit {0})
small_node = record {
  trim = λ s. if str_eq s " " then "" else s;
  signature_prefix = λ h. "prefix";
  hmac = λ key prefix b. if str_eq key "secret" then 1 ∷ [] else 2 ∷ [];
  to_base64 = λ (b : Bytes). elim b [ [] ↦ "AA==" | x ∷ rest ↦ if x == 1 then "AQ==" else "Ag==" ];
  from_base64 = λ s. if str_eq s "AQ==" then 1 ∷ [] else 2 ∷ [];
  byte_length = λ s. 1;
  gzip = λ b. 31 ∷ 139 ∷ b;
  gunzip = unzip;
  utf8 = λ s. 110 ∷ 117 ∷ 108 ∷ 108 ∷ [];
  stringify = λ d. "null";
  parse = λ b. some tt;
}

small_node_laws : NodeLaws small_node
small_node_laws = record {
  trim_trim =
      λ s. elim (Bool-cases (str_eq s " ")) [ inl e ↦ rw e refl | inr e ↦ rw e (rw e refl) ];
  trim_base64 = λ key prefix b. elim (Bool-cases (str_eq key "secret")) [
    | inl e ↦ rw e refl
    | inr e ↦ rw e refl
  ];
  digest_not_blank = λ key prefix b. elim (Bool-cases (str_eq key "secret")) [
    | inl e ↦ rw e refl
    | inr e ↦ rw e refl
  ];
  base64_back = λ key prefix b. elim (Bool-cases (str_eq key "secret")) [
    | inl e ↦ rw e refl
    | inr e ↦ rw e refl
  ];
  gunzip_back = unzip-zip;
  parse_back = λ d. refl;
}

abbrev signing : SigningOptions
signing = record {
  key = some "secret";
  key_id = some "k2";
  require_signature = true;
  previous_keys = key_entry "older" (some "k1") ∷ [];
}

abbrev options : EncodeOptions
options = record {
  request_id = some "r1";
  trace_id = none;
  omit_trace_id = false;
  compression = always;
  signing = some signing;
  random_uuid = "u1";
}

frame_code : Unit {0}
unfolding trimmed normalize_signing_key previous_entries resolve_verification_keys bytes_equal
    signatures_match expected_digest sign_frame requires_signature some_has_key_id requires_key_id
    candidate_keys some_key_matches verify_signature verify_given verify_frame_signature require
    and_then prop leaf_prop has_prop includes payload_to_buffer whole_value byte_value bytes_of
    read_cmp read_size read_text read_trace_id read_request_id read_signature_value read_signature
    assert_valid_frame_shape should_evaluate_compression should_use_compressed_payload within_ratio
    assert_decoded_metadata_limits validate_decoded_payload output_limit prepare_payload build_frame
    encode_json_payload_frame encode_payload_frame gunzip_with_limit parse_frame_for_decode
    decode_bytes parse_decoded_payload decode_parsed decode_payload_frame members
frame_code = tt

signing-Consistent : Consistent small_node (some signing)
unfolding frame_code
signing-Consistent = record { key = refl; key_id = refl }

decode-encode_example :
    (f : Frame) × (encode_payload_frame small_node tt options ≡ ok f)
    × (decode_payload_frame small_node none (some (members f)) (some signing) none
        ≡ ok (record { frame = f; content = 110 ∷ 117 ∷ 108 ∷ 108 ∷ []; value = tt }))
decode-encode_example =
    decode-encode small_node small_node_laws tt options signing-Consistent (omega arith)
      (omega arith)

abbrev sent : Frame
sent = build_frame small_node (31 ∷ 139 ∷ 110 ∷ 117 ∷ 108 ∷ 108 ∷ []) 4 gzipped options

abbrev received : Decoded (Unit {0})
received = record { frame = sent; content = 110 ∷ 117 ∷ 108 ∷ 108 ∷ []; value = tt }

received_ok :
    decode_payload_frame small_node none (some (members sent)) (some signing) none ≡ ok received
unfolding frame_code
received_ok = refl

-- Another signing key is no key of the receiver.
tampered :
    decode_payload_frame small_node none
      (some (members sent))
      (some (record signing { key = some "other" }))
      none
    ≡ fail verification_failed
unfolding frame_code
tampered = refl

decode_bounds_example :
    (length received.content ≡ received.frame.original_size)
    × (length received.content ≤ max_decoded_bytes)
    × (received.frame.compressed_size ≤ max_compressed_bytes)
    × (within_ratio received.frame.cmp (length received.content) received.frame.compressed_size
        ≡ true)
decode_bounds_example =
    decode_bounds small_node (some (members sent)) (some signing) none received received_ok

decode-Verified_example :
    (compressed : Bytes) × (decode_bytes small_node received.frame compressed ≡ ok received.content)
    × (payload_to_buffer small_node.byte_length small_node.from_base64 received.frame.payload
        ≡ ok compressed)
    × Verified small_node received.frame compressed (some signing) received.frame.signature
decode-Verified_example =
    decode-Verified small_node (some (members sent)) (some signing) none received received_ok

abbrev blank_signing : SigningOptions
blank_signing = record signing { key_id = some " " }

secret_usable : is_blank small_node.trim "secret" ≡ false
unfolding frame_code
secret_usable = refl

blank_lacks : LacksKeyId small_node.trim blank_signing
unfolding frame_code
blank_lacks = blank_id " " refl refl

abbrev unsigned : Frame
unsigned = envelope plain 1 1 (bytes (49 ∷ [])) none none none

own_frame_refused_example :
    verify_frame_signature small_node
      (sign_frame small_node unsigned (49 ∷ []) (some blank_signing))
      (49 ∷ [])
      (some blank_signing)
      (ok true)
    ≡ fail key_id_required
own_frame_refused_example =
    own_frame_refused small_node unsigned (49 ∷ []) blank_signing "secret" (ok true) refl
      secret_usable blank_lacks
