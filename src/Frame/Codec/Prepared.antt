-- ===== src/Frame/Codec/Prepared.antt =====
-- The payload that `preparePayload` chooses can be inflated by the receiver.
use plug_node.Base.{
  and-true, ℕ, ◌+◌, ◌*◌, ◌≤◌, ◌≡◌, refl, Bool, true, false, ◌&&◌, ◌||◌, length, leb, leb→le, ltb,
  arith, if◌then◌else◌,
}
use plug_node.Frame.Types.{Bytes, Frame, Cmp, plain, gzipped, Compression, ok, Runtime}
use plug_node.Frame.Shape.{max_compressed_bytes, max_decoded_bytes}
use plug_node.Frame.Codec.{
  decode_bytes, within_ratio, prepare_payload, should_use_compressed_payload, gunzip_with_limit,
  output_limit, is_always,
}
use plug_node.Frame.Codec.Signed.{NodeLaws}

pub le→leb : (a b : ℕ) → a ≤ b → leb a b ≡ true
le→leb a b h = ground arith

used_bounds :
    (n m : ℕ) (preference : Compression)
    → should_use_compressed_payload n m preference ≡ true
    → n ≤ m * 10
unfolding should_use_compressed_payload
used_bounds n m preference u =
    let (sizes, saves) =
      and-true (ltb 0 m && leb n (m * 10)) (is_always preference || leb (m + 64) n) u in
    let (filled, small) = and-true (ltb 0 m) (leb n (m * 10)) sizes in leb→le n (m * 10) small

within_ratio-of : (cmp : Cmp) (n m : ℕ) → n ≤ m * 10 → within_ratio cmp n m ≡ true
unfolding within_ratio
within_ratio-of plain n m h = refl
within_ratio-of gzipped n m h = rw (le→leb n (m * 10) h) (ground arith)

enough : (m n : ℕ) → n ≤ max_decoded_bytes → n ≤ m * 10 → n ≤ output_limit m n
unfolding output_limit
enough m n h k = ground arith

module _ {D : Type 0} (node : Runtime D) (laws : NodeLaws node) where
  -- The payload that is chosen lies within the receiver's limits and inflates to the original.
  abbrev pub Fits : Bytes → Cmp × Bytes → Type 0
  Fits original prepared =
      (length prepared.1 ≤ max_compressed_bytes)
      × (within_ratio prepared.0 (length original) (length prepared.1) ≡ true)
      × ((f : Frame)
          → f.cmp ≡ prepared.0
          → f.original_size ≡ length original
          → decode_bytes node f prepared.1 ≡ ok original)

  gunzip_gzip :
      (original : Bytes)
      → length original ≤ max_decoded_bytes
      → length original ≤ length (node.gzip original) * 10
      → gunzip_with_limit node (node.gzip original) (length original) ≡ ok original
  unfolding gunzip_with_limit
  gunzip_gzip original h k =
      rw
        (laws.gunzip_back original (output_limit (length (node.gzip original)) (length original))
          (enough (length (node.gzip original)) (length original) h k))
        refl

  plain-Fits :
      (original : Bytes) → length original ≤ max_decoded_bytes → Fits original (plain, original)
  unfolding decode_bytes within_ratio
  plain-Fits original h = (h, refl, (λ f c s. rw (c, decode_bytes) refl))

  gzipped-Fits :
      (original : Bytes)
      → length original ≤ max_decoded_bytes
      → length (node.gzip original) ≤ max_compressed_bytes
      → length original ≤ length (node.gzip original) * 10
      → Fits original (gzipped, node.gzip original)
  unfolding decode_bytes
  gzipped-Fits original h g k = (
    g,
    within_ratio-of gzipped (length original) (length (node.gzip original)) k,
    (λ f c s. rw (c, s, decode_bytes) (gunzip_gzip original h k)),
  )

  choice-Fits :
      (original : Bytes) (x y : Cmp × Bytes) (b : Bool)
      → (b ≡ true → Fits original x)
      → Fits original y
      → Fits original (if b then x else y)
  choice-Fits original x y true h k = h refl
  choice-Fits original x y false h k = k

  pub prepare-Fits :
      (original : Bytes) (preference : Compression)
      → length original ≤ max_decoded_bytes
      → length (node.gzip original) ≤ max_compressed_bytes
      → Fits original (prepare_payload node original preference)
  unfolding prepare_payload
  prepare-Fits original preference h g =
      choice-Fits original _ _ _
        (λ e.
          let (a, b) = and-true _ _ e in
          let (c, used) = and-true _ _ b in
          gzipped-Fits original h g
            (used_bounds (length original) (length (node.gzip original)) preference used))
        (plain-Fits original h)
