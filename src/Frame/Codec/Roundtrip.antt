-- ===== src/Frame/Codec/Roundtrip.antt =====
-- A frame that was encoded is decoded to what was sent.
use plug_node.Base.{
  ℕ, ◌≤◌, ◌≡◌, refl, sym, subst, ◌∙◌, true, Option, none, some, length, leb, ◌==◌, ==_iff, arith,
}
use plug_node.Frame.Types.{
  Bytes, bytes, Frame, envelope, Signature, SigningOptions, Cmp, Result, ok, Runtime, and_then,
}
use plug_node.Frame.Shape.{max_compressed_bytes, max_decoded_bytes, payload_to_buffer}
use plug_node.Frame.Signing.{sign_frame, verify_frame_signature}
use plug_node.Frame.Inversion.{require-pass, and_then-pass}
use plug_node.Frame.Codec.{
  EncodeOptions, decode_bytes, decode_parsed, decode_payload_frame, parse_frame_for_decode,
  parse_decoded_payload, validate_decoded_payload, within_ratio, members, prepare_payload,
  build_frame, encode_json_payload_frame, encode_payload_frame, trace_field,
  assert_decoded_metadata_limits,
}
use plug_node.Frame.Codec.Sent.{shape-members, Legible}
use plug_node.Frame.Codec.Signed.{
  NodeLaws, Consistent, verify_own, sign_frame-same, sign_frame-Legible,
}
use plug_node.Frame.Codec.Prepared.{le→leb, Fits, prepare-Fits}

module _ {D : Type 0} (node : Runtime D) (laws : NodeLaws node) where
  -- What the receiver's steps ask of a frame that was sent.
  record Ready (signing : Option SigningOptions) (original payload : Bytes) (f : Frame)
      : Type 0 where
    original_size : f.original_size ≡ length original
    compressed_size : f.compressed_size ≡ length payload
    payload_field : f.payload ≡ bytes payload
    legible : Legible node.trim f.signature
    verified :
        (rest : Result (Frame × Bytes)) → verify_frame_signature node f payload signing rest ≡ rest
    bounded : length payload ≤ max_compressed_bytes
    original_bounded : length original ≤ max_decoded_bytes
    ratio : within_ratio f.cmp (length original) (length payload) ≡ true
    back : decode_bytes node f payload ≡ ok original

  build-Ready :
      (original : Bytes) (prepared : Cmp × Bytes) (options : EncodeOptions)
      → Consistent node options.signing
      → length original ≤ max_decoded_bytes
      → Fits node laws original prepared
      → Ready options.signing original prepared.1
          (build_frame node prepared.1 (length original) prepared.0 options)
  unfolding build_frame
  build-Ready original (cmp, payload) options c h (bounded, ratio, back) =
      let unsigned =
        envelope cmp (length original) (length payload) (bytes payload) (trace_field options)
          options.request_id none in
      let same : (field : Frame → ℕ)
          → ((o : Option Signature) → field (record unsigned { signature = o }) ≡ field unsigned)
          → field (sign_frame node unsigned payload options.signing) ≡ field unsigned =
        λ field k. sign_frame-same node laws field unsigned payload options.signing k in
      let cmp_same : (sign_frame node unsigned payload options.signing).cmp ≡ cmp =
        sign_frame-same node laws (λ (g : Frame). g.cmp) unsigned payload options.signing
          (λ o. refl) in
      let size_same : (sign_frame node unsigned payload options.signing).original_size
          ≡ length original =
        same (λ (g : Frame). g.original_size) (λ o. refl) in
      record {
        original_size = size_same;
        compressed_size = same (λ (g : Frame). g.compressed_size) (λ o. refl);
        payload_field =
            sign_frame-same node laws (λ (g : Frame). g.payload) unsigned payload options.signing
              (λ o. refl);
        legible = sign_frame-Legible node laws unsigned payload options.signing refl;
        verified = λ rest. verify_own node laws unsigned payload options.signing rest refl c;
        bounded = bounded;
        original_bounded = h;
        ratio =
            subst (λ (k : Cmp). within_ratio k (length original) (length payload) ≡ true)
              (sym cmp_same) ratio;
        back = back _ cmp_same size_same;
      }

  payload_read :
      (f : Frame) (payload : Bytes)
      → f.payload ≡ bytes payload
      → payload_to_buffer node.byte_length node.from_base64 f.payload ≡ ok payload
  unfolding payload_to_buffer
  payload_read f payload e = rw (e, payload_to_buffer) refl

  equal_sizes : (a b : ℕ) → a ≡ b → (a == b) ≡ true
  equal_sizes a b e = (==_iff a b).1 e

  parse-Ready :
      (signing : Option SigningOptions) (original payload : Bytes) (f : Frame)
      → Ready signing original payload f
      → parse_frame_for_decode node (some (members f)) signing ≡ ok (f, payload)
  unfolding parse_frame_for_decode assert_decoded_metadata_limits
  parse-Ready signing original payload f r =
      let bounded : leb f.compressed_size max_compressed_bytes ≡ true =
        le→leb _ _ (omega (arith, r.bounded, r.compressed_size)) in
      let original_bounded : leb f.original_size max_decoded_bytes ≡ true =
        le→leb _ _ (omega (arith, r.original_bounded, r.original_size)) in
      and_then-pass _ (shape-members node.trim f r.legible) (
        require-pass _ bounded (
          require-pass _ original_bounded (
            and_then-pass _ (payload_read f payload r.payload_field) (
              require-pass _ (equal_sizes _ _ (sym r.compressed_size)) (
                require-pass _ (le→leb _ _ r.bounded) (
                  r.verified _
                  ∙ require-pass _ original_bounded
                      (require-pass _ (rw r.original_size r.ratio) refl)))))))

  decode-Ready :
      (signing : Option SigningOptions) (original payload : Bytes) (f : Frame) (d : D)
      → Ready signing original payload f
      → node.parse original ≡ some d
      → decode_payload_frame node none (some (members f)) signing none
        ≡ ok (record { frame = f; content = original; value = d })
  unfolding decode_payload_frame decode_parsed validate_decoded_payload parse_decoded_payload
      and_then
  decode-Ready signing original payload f d r p =
      let parsed : parse_decoded_payload node original ≡ ok d =
        rw (p, parse_decoded_payload) refl in
      and_then-pass _ (parse-Ready signing original payload f r) (
        and_then-pass _ r.back (
          require-pass _ (equal_sizes _ _ (sym r.original_size)) (
            require-pass _ (le→leb _ _ r.original_bounded)
              (require-pass _ r.ratio (and_then-pass _ parsed refl)))))

-- What is encoded is decoded, by a receiver with the same signing options, to the frame that was
-- sent, its text and its value: for options that accept their own signatures, where neither the
-- text nor its compressed form exceeds 10 MiB, and Node.js' functions are inverse as documented.
pub decode-encode :
    {D : Type 0} (node : Runtime D) (laws : NodeLaws node) (d : D) (options : EncodeOptions)
    → Consistent node options.signing
    → length (node.utf8 (node.stringify d)) ≤ max_decoded_bytes
    → length (node.gzip (node.utf8 (node.stringify d))) ≤ max_compressed_bytes
    → (f : Frame) × (encode_payload_frame node d options ≡ ok f)
      × (decode_payload_frame node none (some (members f)) options.signing none
          ≡ ok (record { frame = f; content = node.utf8 (node.stringify d); value = d }))
unfolding encode_payload_frame encode_json_payload_frame
decode-encode node laws d options c h g =
    let original = node.utf8 (node.stringify d) in
    let prepared = prepare_payload node original options.compression in
    let fits = prepare-Fits node laws original options.compression h g in
    let f = build_frame node prepared.1 (length original) prepared.0 options in
    let ready = build-Ready node laws original prepared options c h fits in
    (
      f,
      require-pass _ (le→leb _ _ ready.bounded) (require-pass _ (le→leb _ _ h) refl),
      decode-Ready node laws options.signing original prepared.1 f d ready (laws.parse_back d),
    )
