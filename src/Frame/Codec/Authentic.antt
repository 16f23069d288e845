-- ===== src/Frame/Codec/Authentic.antt =====
-- Which frames `verifyFrameSignature` and `parseFrameForDecode` let through.
use Prim.Native.String.{String}
use text.Mathlib.TextEquality.{eq_iff}
use plug_node.Base.{
  ◌⊎◌, zero, ap, ◌||◌, and-true, ℕ, suc, ◌≤◌, ◌≡◌, refl, subst, Bool, true, false, not, Option,
  none, some, List, [], ◌∷◌, length, get_elem?, Bool-cases, inl, inr, ==_iff, leb→le, ◌==◌,
}
use plug_node.Frame.Types.{
  Bytes, Frame, Signature, KeyEntry, Received, SigningOptions, Result, ok, Runtime,
}
use plug_node.Frame.Shape.{
  max_compressed_bytes, max_decoded_bytes, payload_to_buffer, assert_valid_frame_shape,
}
use plug_node.Frame.Signing.{
  trimmed, bytes_equal, signatures_match, resolve_verification_keys, candidate_keys, fits_key_id,
  some_key_matches, expected_digest, verify_frame_signature, verify_signature, verify_given,
  requires_signature, requires_key_id, some_has_key_id, is_given,
}
use plug_node.Frame.Inversion.{require-ok, and_then-ok, get_elem?-keep_if, or-true}
use plug_node.Frame.Codec.{parse_frame_for_decode, assert_decoded_metadata_limits, within_ratio}

pub ok-injective : {A : Type 0} {x y : A} → ok x ≡ ok y → x ≡ y
ok-injective h = cc

not-false : (b : Bool) → not b ≡ true → b ≡ false
not-false true h = cc
not-false false h = refl

bytes_equal-same : (xs ys : Bytes) → bytes_equal xs ys ≡ true → xs ≡ ys
unfolding bytes_equal
bytes_equal-same [] [] h = refl
bytes_equal-same [] (y ∷ ys) h = cc
bytes_equal-same (x ∷ xs) [] h = cc
bytes_equal-same (x ∷ xs) (y ∷ ys) h =
    let (p, q) = and-true (x == y) (bytes_equal xs ys) h in
    let same = bytes_equal-same xs ys q in let head = (==_iff x y).0 p in cc

signatures_match-same : (xs ys : Bytes) → signatures_match xs ys ≡ true → xs ≡ ys
unfolding signatures_match
signatures_match-same xs ys h =
    bytes_equal-same xs ys (and-true (length xs == length ys) (bytes_equal xs ys) h).1

pub or-last : (a : Bool) → (a || true) ≡ true
or-last true = refl
or-last false = refl

module _ {D : Type 0} (node : Runtime D) where
  some_key-match :
      (f : Frame) (payload provided : Bytes) (entries : List KeyEntry)
      → some_key_matches node f payload provided entries ≡ true
      → (i : ℕ) × (entry : KeyEntry) × (get_elem? entries i ≡ some entry)
        × (provided ≡ expected_digest node f payload entry.key)
  unfolding some_key_matches
  some_key-match f payload provided [] h = cc
  some_key-match f payload provided (entry ∷ entries) h =
      elim (Bool-cases (signatures_match provided (expected_digest node f payload entry.key))) [
        | inl e ↦ (0, entry, refl, signatures_match-same _ _ e)
        | inr e ↦
            let (i, found, at, same) =
              some_key-match f payload provided entries (or-true _ _ h e) in
            (suc i, found, at, same)
      ]

  -- A signature that was accepted is the digest of the frame under a configured key, whose id, if it
  -- has one, is the frame's; and the frame names a key where an id is required.
  abbrev pub Verified : Frame → Bytes → Option SigningOptions → Option Signature → Type 0
  Verified f payload signing none = requires_signature node signing ≡ false
  Verified f payload signing (some signature) =
      (i : ℕ) × (entry : KeyEntry) × (get_elem? (resolve_verification_keys node.trim signing) i
        ≡ some entry)
      × ((entry.key_id ≡ none) ⊎ (entry.key_id ≡ trimmed node.trim signature.key_id))
      × ((requires_key_id node signing ≡ false)
          ⊎ (is_given node (trimmed node.trim signature.key_id) ≡ true))
      × (node.from_base64 (node.trim signature.value) ≡ expected_digest node f payload entry.key)

  some_has_key_id-get_elem? :
      (entries : List KeyEntry) (i : ℕ) (entry : KeyEntry) (k : String)
      → get_elem? entries i ≡ some entry
      → entry.key_id ≡ some k
      → some_has_key_id node entries ≡ true
  unfolding some_has_key_id
  some_has_key_id-get_elem? [] i entry k at named = cc
  some_has_key_id-get_elem? (e ∷ entries) zero entry k at named =
      let same : e ≡ entry = cc in rw (same, named) refl
  some_has_key_id-get_elem? (e ∷ entries) (suc i) entry k at named =
      rw (some_has_key_id-get_elem? entries i entry k at named) (or-last (is_given node e.key_id))

  -- The frame's key id, where it is given, is that of a key that fits.
  fits_key_id-same :
      (frame_key_id key_id : Option String)
      → fits_key_id node frame_key_id key_id ≡ true
      → ((k : String) → key_id ≡ some k → is_given node frame_key_id ≡ true)
      → (key_id ≡ none) ⊎ (key_id ≡ frame_key_id)
  fits_key_id-same frame_key_id none fits named = inl refl
  fits_key_id-same none (some k) fits named = let given = named k refl in cc
  fits_key_id-same (some j) (some k) fits named = inr (ap some ((eq_iff k j).0 fits))

  given-when-needed :
      (needed given : Bool) → (not needed || given) ≡ true → needed ≡ true → given ≡ true
  given-when-needed true given h n = h
  given-when-needed false given h n = cc

  needed-or-given :
      (needed given : Bool) → (not needed || given) ≡ true → (needed ≡ false) ⊎ (given ≡ true)
  needed-or-given true given h = inr h
  needed-or-given false given h = inl refl

  requires_key_id-some :
      (signing : Option SigningOptions)
      → some_has_key_id node (resolve_verification_keys node.trim signing) ≡ true
      → requires_key_id node signing ≡ true
  unfolding requires_key_id
  requires_key_id-some signing h = rw h refl

  verify_signature-ok :
      {R : Type 0} (f : Frame) (payload : Bytes) (signing : Option SigningOptions)
      (signature : Signature) (rest : Result R) (r : R)
      → verify_signature node f payload signing signature rest ≡ ok r
      → (rest ≡ ok r) × Verified f payload signing (some signature)
  unfolding verify_signature candidate_keys
  verify_signature-ok f payload signing signature rest r h =
      let (a, h1) = require-ok _ _ _ _ h in
      let (b, h2) = require-ok _ _ _ _ h1 in
      let (c, h3) = require-ok _ _ _ _ h2 in
      let (d, h4) = require-ok _ _ _ _ h3 in
      let (matches, last) = require-ok _ _ _ _ h4 in
      let (i, entry, at, same) = some_key-match f payload _ _ matches in
      let (j, place, fits) =
        get_elem?-keep_if
          (λ (e : KeyEntry). fits_key_id node (trimmed node.trim signature.key_id) e.key_id) _ i
          entry at in
      let named = fits_key_id-same _ entry.key_id fits λ k has.
        given-when-needed _ _ b
          (requires_key_id-some signing (some_has_key_id-get_elem? _ j entry k place has)) in
      (last, (j, entry, place, named, needed-or-given _ _ b, same))

  verify_given-ok :
      {R : Type 0} (f : Frame) (payload : Bytes) (signing : Option SigningOptions)
      (given : Option Signature) (rest : Result R) (r : R)
      → verify_given node f payload signing given rest ≡ ok r
      → (rest ≡ ok r) × Verified f payload signing given
  unfolding verify_given
  verify_given-ok f payload signing none rest r h =
      let (lax, last) = require-ok _ _ rest r h in (last, not-false _ lax)
  verify_given-ok f payload signing (some signature) rest r h =
      verify_signature-ok f payload signing signature rest r h

  pub verify-ok :
      {R : Type 0} (f : Frame) (payload : Bytes) (signing : Option SigningOptions) (rest : Result R)
      (r : R)
      → verify_frame_signature node f payload signing rest ≡ ok r
      → (rest ≡ ok r) × Verified f payload signing f.signature
  unfolding verify_frame_signature
  verify-ok f payload signing rest r h = verify_given-ok f payload signing f.signature rest r h

  -- What a frame that was parsed satisfies.
  pub record Parsed (signing : Option SigningOptions) (f : Frame) (compressed : Bytes)
      : Type 0 where
    pub read : payload_to_buffer node.byte_length node.from_base64 f.payload ≡ ok compressed
    pub size : length compressed ≡ f.compressed_size
    pub bounded : length compressed ≤ max_compressed_bytes
    pub original_bounded : f.original_size ≤ max_decoded_bytes
    pub ratio : within_ratio f.cmp f.original_size (length compressed) ≡ true
    pub verified : Verified f compressed signing f.signature

  limits-ok :
      {R : Type 0} (f : Frame) (n : ℕ) (rest : Result R) (r : R)
      → assert_decoded_metadata_limits f n rest ≡ ok r
      → (f.original_size ≤ max_decoded_bytes)
        × (within_ratio f.cmp f.original_size n ≡ true)
        × (rest ≡ ok r)
  unfolding assert_decoded_metadata_limits
  limits-ok f n rest r h =
      let (bounded, h1) = require-ok _ _ _ _ h in
      let (ratio, last) = require-ok _ _ _ _ h1 in (leb→le _ _ bounded, ratio, last)

  pub parse-Parsed :
      (value : Received) (signing : Option SigningOptions) (f : Frame) (compressed : Bytes)
      → parse_frame_for_decode node value signing ≡ ok (f, compressed)
      → Parsed signing f compressed
  unfolding parse_frame_for_decode
  parse-Parsed value signing f compressed h =
      let (f0, shaped, h1) = and_then-ok (assert_valid_frame_shape node.trim value) _ _ h in
      let (a, h2) = require-ok _ _ _ _ h1 in
      let (b, h3) = require-ok _ _ _ _ h2 in
      let (c0, got, h4) = and_then-ok _ _ _ h3 in
      let (size, h5) = require-ok _ _ _ _ h4 in
      let (bounded, h6) = require-ok _ _ _ _ h5 in
      let (h7, verified) = verify-ok f0 c0 signing _ _ h6 in
      let (original_bounded, ratio, same) = limits-ok f0 _ _ _ h7 in
      let parsed : Parsed signing f0 c0 = record {
        read = got;
        size = (==_iff _ _).0 size;
        bounded = leb→le _ _ bounded;
        original_bounded = original_bounded;
        ratio = ratio;
        verified = verified;
      } in
      subst (λ (t : Frame × Bytes). Parsed signing t.0 t.1) (ok-injective same) parsed
