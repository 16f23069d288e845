-- ===== src/Frame/Codec/Bounds.antt =====
-- What a frame that was decoded satisfies: the sizes, and the signature.
use plug_node.Base.{◌≤◌, ◌≡◌, sym, Option, none, length, ==_iff, true, subst, arith}
use plug_node.Frame.Types.{Bytes, Frame, Received, SigningOptions, Result, ok, Runtime}
use plug_node.Frame.Shape.{max_compressed_bytes, max_decoded_bytes, payload_to_buffer}
use plug_node.Frame.Inversion.{require-ok, and_then-ok}
use plug_node.Frame.Codec.{
  Callback, Decoded, decode_bytes, decode_parsed, decode_payload_frame, parse_frame_for_decode,
  parse_decoded_payload, validate_decoded_payload, within_ratio, call,
}
use plug_node.Frame.Codec.Authentic.{Parsed, parse-Parsed, Verified, ok-injective}

module _ {D : Type 0} (node : Runtime D) where
  validate-ok :
      {R : Type 0} (f : Frame) (compressed decoded : Bytes) (callback : Option Callback)
      (rest : Result R) (r : R)
      → validate_decoded_payload f compressed decoded callback rest ≡ ok r
      → (length decoded ≡ f.original_size)
        × (call callback f compressed decoded ≡ ok tt)
        × (rest ≡ ok r)
  unfolding validate_decoded_payload
  validate-ok f compressed decoded callback rest r h =
      let (size, h1) = require-ok _ _ _ _ h in
      let (bounded, h2) = require-ok _ _ _ _ h1 in
      let (ratio, h3) = require-ok _ _ _ _ h2 in
      let (u, called, last) = and_then-ok (call callback f compressed decoded) _ _ h3 in
      ((==_iff _ _).0 size, called, last)

  -- How a frame is decoded: the payload is read, then inflated, checked and parsed.
  pub record Steps (signing : Option SigningOptions) (callback : Option Callback) (d : Decoded D)
      : Type 0 where
    pub compressed : Bytes
    pub parsed : Parsed node signing d.frame compressed
    pub inflates : decode_bytes node d.frame compressed ≡ ok d.content
    pub size : length d.content ≡ d.frame.original_size
    pub called : call callback d.frame compressed d.content ≡ ok tt
    pub reads : parse_decoded_payload node d.content ≡ ok d.value

  decode_parsed-Steps :
      (signing : Option SigningOptions) (callback : Option Callback) (f : Frame)
      (compressed : Bytes) (d : Decoded D)
      → Parsed node signing f compressed
      → decode_parsed node callback (f, compressed) ≡ ok d
      → Steps signing callback d
  unfolding decode_parsed
  decode_parsed-Steps signing callback f compressed d p h =
      let (decoded, inflates, h1) = and_then-ok (decode_bytes node f compressed) _ _ h in
      let (size, called, h2) = validate-ok f compressed decoded callback _ _ h1 in
      let (v, reads, h3) = and_then-ok (parse_decoded_payload node decoded) _ _ h2 in
      let steps : Steps signing callback (record { frame = f; content = decoded; value = v }) =
        record {
          compressed = compressed;
          parsed = p;
          inflates = inflates;
          size = size;
          called = called;
          reads = reads;
        } in
      subst (Steps signing callback) (ok-injective h3) steps

  pub decode-Steps :
      (value : Received) (signing : Option SigningOptions) (callback : Option Callback)
      (d : Decoded D)
      → decode_payload_frame node none value signing callback ≡ ok d
      → Steps signing callback d
  unfolding decode_payload_frame
  decode-Steps value signing callback d h =
      let ((f, compressed), parsed, h1) =
        and_then-ok (parse_frame_for_decode node value signing) _ _ h in
      decode_parsed-Steps signing callback f compressed d
        (parse-Parsed node value signing f compressed parsed) h1

  -- A frame that is decoded anew: its content is as long as the frame says and at most 10 MiB, its
  -- payload is at most 10 MiB, and a payload that was inflated grew at most tenfold.
  pub decode_bounds :
      (value : Received) (signing : Option SigningOptions) (callback : Option Callback)
      (d : Decoded D)
      → decode_payload_frame node none value signing callback ≡ ok d
      → (length d.content ≡ d.frame.original_size)
        × (length d.content ≤ max_decoded_bytes)
        × (d.frame.compressed_size ≤ max_compressed_bytes)
        × (within_ratio d.frame.cmp (length d.content) d.frame.compressed_size ≡ true)
  decode_bounds value signing callback d h =
      let s = decode-Steps value signing callback d h in
      let p = s.parsed in
      (
        s.size,
        omega (arith, p.original_bounded, s.size),
        omega (arith, p.bounded, p.size),
        rw (s.size) (rw (sym p.size) p.ratio),
      )

  -- A frame that is decoded anew carries no signature only where none is required; a signature
  -- that it carries is the HMAC digest, under a configured key, of the frame's header and of the
  -- payload that was decoded, the key's id is the frame's where the key has one, and the frame names
  -- a key where the options require it to.
  pub decode-Verified :
      (value : Received) (signing : Option SigningOptions) (callback : Option Callback)
      (d : Decoded D)
      → decode_payload_frame node none value signing callback ≡ ok d
      → (compressed : Bytes) × (decode_bytes node d.frame compressed ≡ ok d.content)
        × (payload_to_buffer node.byte_length node.from_base64 d.frame.payload ≡ ok compressed)
        × Verified node d.frame compressed signing d.frame.signature
  decode-Verified value signing callback d h =
      let s = decode-Steps value signing callback d h in
      let p = s.parsed in (s.compressed, s.inflates, p.read, p.verified)
