-- ===== src/Frame/Codec.antt =====
-- Encoding and decoding of a frame. The asynchronous variants do the same with zlib's other entry.
pub mod Bounds
pub mod Authentic
pub mod Sent
pub mod Signed
pub mod Refused
pub mod Prepared
pub mod Roundtrip
mod Tests
use Prim.Native.String.{String}
use text.Mathlib.Text.{◌==◌ as str_eq}
use plug_node.Base.{
  ℕ, ◌+◌, ◌*◌, min, max, Bool, true, false, not, ◌&&◌, ◌||◌, Option, none, some, List, [], ◌∷◌,
  ◌++◌, if◌then◌else◌, ◌==◌, ltb, leb, length,
}
use plug_node.Values.Number.{whole}
use plug_node.Frame.Types.{
  Bytes, Leaf, undefined, str, number, bytes, Value, leaf, object, Received, Cmp, plain, gzipped,
  Compression, default, never, always, Signature, Frame, envelope, SigningOptions, Problem,
  compressed_limit, decoded_limit, inflation_ratio, compressed_size_mismatch,
  original_size_mismatch, gunzip_failed, gunzip_limit, invalid_json, Result, ok, fail, require,
  and_then, Inflated, inflated, too_large, corrupt, Runtime,
}
use plug_node.Frame.Shape.{
  max_compressed_bytes, max_decoded_bytes, assert_payload_size_limits, payload_to_buffer,
  assert_valid_frame_shape,
}
use plug_node.Frame.Signing.{sign_frame, verify_frame_signature}

abbrev compression_threshold_bytes : ℕ
compression_threshold_bytes = 4096

abbrev min_auto_gzip_savings_bytes : ℕ
min_auto_gzip_savings_bytes = 64

abbrev pub max_gzip_input_bytes : ℕ
max_gzip_input_bytes = 512 * 1024

abbrev max_inflation_ratio : ℕ
max_inflation_ratio = 10

abbrev pub is_never : Compression → Bool
is_never never = true
is_never _ = false

abbrev pub is_always : Compression → Bool
is_always always = true
is_always _ = false

unfoldable pub should_evaluate_compression : ℕ → Compression → Bool
should_evaluate_compression original_length preference =
    if is_always preference
    then leb 1 original_length
    else leb compression_threshold_bytes original_length

-- A quotient by 0 is infinite or not a number, which is no smaller than the ratio.
unfoldable pub should_use_compressed_payload : ℕ → ℕ → Compression → Bool
should_use_compressed_payload original_length compressed_length preference =
    (ltb 0 compressed_length && leb original_length (compressed_length * max_inflation_ratio))
    && (is_always preference
        || leb (compressed_length + min_auto_gzip_savings_bytes) original_length)

-- The options of an encoding, and the random trace id.
pub record EncodeOptions : Type 0 where
  pub request_id : Option String
  pub trace_id : Option String
  pub omit_trace_id : Bool
  pub compression : Compression
  pub signing : Option SigningOptions
  pub random_uuid : String

abbrev pub trace_field : EncodeOptions → Option String
trace_field options = elim options.trace_id [
  | some t ↦ some t
  | none ↦ if options.omit_trace_id then none else some options.random_uuid
]

-- A frame that was decoded: `DecodedPayloadFrame`.
pub record Decoded (D : Type 0) : Type 0 where
  pub frame : Frame
  pub content : Bytes
  pub value : D

-- The option `validateSignature`, and whether it throws.
abbrev pub Callback : Type 0
Callback = Frame → Bytes → Bytes → Result (Unit {0})

abbrev pub call : Option Callback → Frame → Bytes → Bytes → Result (Unit {0})
call none f compressed decoded = ok tt
call (some callback) f compressed decoded = callback f compressed decoded

-- `assertDecodedMetadataLimits` and the last test of `validateDecodedPayload`: the length does not
-- exceed ten times the compressed one.
unfoldable pub within_ratio : Cmp → ℕ → ℕ → Bool
within_ratio plain original compressed = true
within_ratio gzipped original compressed =
    not (ltb 0 compressed) || leb original (compressed * max_inflation_ratio)

unfoldable pub assert_decoded_metadata_limits : {R : Type 0} → Frame → ℕ → Result R → Result R
assert_decoded_metadata_limits f compressed_length rest =
    require (leb f.original_size max_decoded_bytes) decoded_limit
      (require (within_ratio f.cmp f.original_size compressed_length) inflation_ratio rest)

unfoldable pub validate_decoded_payload :
    {R : Type 0} → Frame → Bytes → Bytes → Option Callback → Result R → Result R
validate_decoded_payload f compressed decoded callback rest =
    require (length decoded == f.original_size) original_size_mismatch (
      require (leb (length decoded) max_decoded_bytes) gunzip_limit (
        require (within_ratio f.cmp (length decoded) (length compressed)) inflation_ratio
          (and_then (call callback f compressed decoded) (λ _. rest))))

-- `maxOutputLength` of `gunzipWithLimitSync`.
unfoldable pub output_limit : ℕ → ℕ → ℕ
output_limit compressed_length original_size =
    max 1 (min original_size (min max_decoded_bytes (compressed_length * max_inflation_ratio)))

abbrev pub inflation_result : Inflated → Result Bytes
inflation_result (inflated b) = ok b
inflation_result too_large = fail gunzip_limit
inflation_result corrupt = fail gunzip_failed

module _ {D : Type 0} (node : Runtime D) where
  unfoldable pub prepare_payload : Bytes → Compression → Cmp × Bytes
  prepare_payload original preference =
      let zipped = node.gzip original in
      if (should_evaluate_compression (length original) preference && not (is_never preference))
        && (leb (length original) max_gzip_input_bytes
            && should_use_compressed_payload (length original) (length zipped) preference)
      then (gzipped, zipped)
      else (plain, original)

  unfoldable pub build_frame : Bytes → ℕ → Cmp → EncodeOptions → Frame
  build_frame payload original_length cmp options =
      sign_frame node
        (envelope cmp original_length (length payload) (bytes payload) (trace_field options)
          options.request_id none)
        payload options.signing

  unfoldable pub encode_json_payload_frame : String → EncodeOptions → Result Frame
  encode_json_payload_frame json options =
      let original = node.utf8 json in
      let (cmp, payload) = prepare_payload original options.compression in
      assert_payload_size_limits (length payload) (length original)
        (ok (build_frame payload (length original) cmp options))

  unfoldable pub encode_payload_frame : D → EncodeOptions → Result Frame
  encode_payload_frame d options = encode_json_payload_frame (node.stringify d) options

  unfoldable pub gunzip_with_limit : Bytes → ℕ → Result Bytes
  gunzip_with_limit compressed original_size =
      inflation_result (node.gunzip compressed (output_limit (length compressed) original_size))

  unfoldable pub parse_frame_for_decode : Received → Option SigningOptions → Result (Frame × Bytes)
  parse_frame_for_decode value signing = and_then (assert_valid_frame_shape node.trim value) (λ f.
      assert_payload_size_limits f.compressed_size f.original_size (
        and_then (payload_to_buffer node.byte_length node.from_base64 f.payload) (λ compressed.
          require (length compressed == f.compressed_size) compressed_size_mismatch (
            require (leb (length compressed) max_compressed_bytes) compressed_limit (
              verify_frame_signature node f compressed signing
                (assert_decoded_metadata_limits f (length compressed) (ok (f, compressed))))))))

  unfoldable pub decode_bytes : Frame → Bytes → Result Bytes
  decode_bytes f compressed = elim f.cmp [
    | plain ↦ ok compressed
    | gzipped ↦ gunzip_with_limit compressed f.original_size
  ]

  unfoldable pub parse_decoded_payload : Bytes → Result D
  parse_decoded_payload decoded = elim (node.parse decoded) [
    | none ↦ fail invalid_json
    | some d ↦ ok d
  ]

  unfoldable pub decode_parsed : Option Callback → Frame × Bytes → Result (Decoded D)
  decode_parsed callback (f, compressed) = and_then (decode_bytes f compressed) (λ decoded.
      validate_decoded_payload f compressed decoded callback (
        and_then (parse_decoded_payload decoded)
          (λ d. ok (record { frame = f; content = decoded; value = d }))))

  -- The frame that a dispatcher has validated under the same signing options, where there is one
  -- (validatedSocketPayload.ts), is `cached`.
  unfoldable pub decode_payload_frame :
      (cached : Option (Decoded D))
      → Received
      → Option SigningOptions
      → Option Callback
      → Result (Decoded D)
  decode_payload_frame (some d) value signing none = ok d
  decode_payload_frame cached value signing callback =
      and_then (parse_frame_for_decode value signing) (decode_parsed callback)

-- A frame as the object that is sent. A request id left out is an undefined member, as
-- `buildFrame` writes it, and a trace id or signature left out is no member.
abbrev text_value : String → Value
text_value s = leaf (str s)

abbrev cmp_name : Cmp → String
cmp_name plain = "none"
cmp_name gzipped = "gzip"

abbrev request_id_value : Option String → Value
request_id_value none = leaf undefined
request_id_value (some s) = text_value s

abbrev trace_id_member : Option String → List (String × Value)
trace_id_member none = []
trace_id_member (some s) = ("traceId", text_value s) ∷ []

abbrev key_id_member : Option String → List (String × Leaf)
key_id_member none = []
key_id_member (some s) = ("key_id", str s) ∷ []

abbrev signature_member : Option Signature → List (String × Value)
signature_member none = []
signature_member (some s) =
    (
      "signature",
      object (("alg", str "hmac-sha256") ∷ ("value", str s.value) ∷ key_id_member s.key_id),
    )
    ∷ []

unfoldable pub members : Frame → List (String × Value)
members f =
    ("schemaVersion", text_value "1.0")
    ∷ ("enc", text_value "json")
    ∷ ("cmp", text_value (cmp_name f.cmp))
    ∷ ("contentType", text_value "application/json")
    ∷ ("originalSize", leaf (number (whole f.original_size)))
    ∷ ("compressedSize", leaf (number (whole f.compressed_size)))
    ∷ ("payload", leaf f.payload)
    ∷ ("requestId", request_id_value f.request_id)
    ∷ (trace_id_member f.trace_id ++ signature_member f.signature)
