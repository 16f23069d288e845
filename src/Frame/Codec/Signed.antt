-- ===== src/Frame/Codec/Signed.antt =====
-- A frame that was signed is verified with the options that signed it.
use Prim.Native.String.{String}
use text.Mathlib.Text.{◌==◌ as str_eq}
use text.Mathlib.TextPositions.{eq_refl}
use plug_node.Base.{
  sym, subst, ℕ, ◌≤◌, ◌≡◌, refl, ap, ◌∙◌, true, false, not, ◌||◌, Option, none, some, List, [], ◌∷◌,
  length, Bool-cases, Option-cases, inl, inr, ==_iff, keep_if,
}
use plug_node.Frame.Types.{
  Signature, Bytes, Frame, signature_of, SigningOptions, KeyEntry, key_entry, Result, Runtime,
  inflated,
}
use plug_node.Frame.Shape.{is_blank}
use plug_node.Frame.Signing.{
  header_of, trimmed, bytes_equal, signatures_match, normalize_signing_key,
  resolve_verification_keys, configured_key_id, configured_previous, previous_entries,
  candidate_keys, fits_key_id, some_key_matches, expected_digest, sign_frame,
  verify_frame_signature, verify_signature, verify_given, requires_signature, requires_key_id,
  is_given,
}
use plug_node.Frame.Codec.Sent.{Legible}
use plug_node.Frame.Inversion.{require-pass}

-- What Node.js documents of the functions that the codec takes from it, for the texts of JSON.
pub record NodeLaws {D : Type 0} (node : Runtime D) : Type 0 where
  pub trim_trim : (s : String) → node.trim (node.trim s) ≡ node.trim s
  pub trim_base64 :
      (key prefix : String) (b : Bytes)
      → node.trim (node.to_base64 (node.hmac key prefix b))
        ≡ node.to_base64 (node.hmac key prefix b)
  pub digest_not_blank :
      (key prefix : String) (b : Bytes)
      → str_eq (node.to_base64 (node.hmac key prefix b)) "" ≡ false
  pub base64_back :
      (key prefix : String) (b : Bytes)
      → node.from_base64 (node.to_base64 (node.hmac key prefix b)) ≡ node.hmac key prefix b
  pub gunzip_back :
      (b : Bytes) (most : ℕ) → length b ≤ most → node.gunzip (node.gzip b) most ≡ inflated b
  pub parse_back : (d : D) → node.parse (node.utf8 (node.stringify d)) ≡ some d

bytes_equal_refl : (b : Bytes) → bytes_equal b b ≡ true
unfolding bytes_equal
bytes_equal_refl [] = refl
bytes_equal_refl (x ∷ xs) = rw ((==_iff x x).1 refl, bytes_equal_refl xs) refl

signatures_match_refl : (b : Bytes) → signatures_match b b ≡ true
unfolding signatures_match
signatures_match_refl b = rw ((==_iff (length b) (length b)).1 refl, bytes_equal_refl b) refl

module _ {D : Type 0} (node : Runtime D) where
  -- The signing options accept the frames that they sign: a key is configured where a signature is
  -- required, and a key id where one is.
  pub record Consistent (signing : Option SigningOptions) : Type 0 where
    pub key :
        (is_given node (normalize_signing_key node.trim signing)
          || not (requires_signature node signing))
        ≡ true
    pub key_id :
        (not (requires_key_id node signing)
          || is_given node (trimmed node.trim (configured_key_id signing)))
        ≡ true

  pub own_key :
      (signing : Option SigningOptions) (key : String)
      → normalize_signing_key node.trim signing ≡ some key
      → resolve_verification_keys node.trim signing
        ≡ key_entry key (trimmed node.trim (configured_key_id signing))
          ∷ previous_entries node.trim (configured_previous signing)
  unfolding resolve_verification_keys
  own_key signing key e = rw e refl

  pub sign_frame-none :
      (f : Frame) (payload : Bytes) (signing : Option SigningOptions)
      → normalize_signing_key node.trim signing ≡ none
      → sign_frame node f payload signing ≡ f
  unfolding sign_frame
  sign_frame-none f payload signing k = rw (k, sign_frame) refl

  pub sign_frame-some :
      (f : Frame) (payload : Bytes) (signing : Option SigningOptions) (key : String)
      → normalize_signing_key node.trim signing ≡ some key
      → sign_frame node f payload signing ≡ record f {
        signature = some (
            signature_of
              (node.to_base64 (expected_digest node f payload key))
              (trimmed node.trim (configured_key_id signing)));
      }
  unfolding sign_frame
  sign_frame-some f payload signing key k = rw (k, sign_frame) refl

  module _ (laws : NodeLaws node) where
    trimmed-trimmed :
        (o : Option String) → trimmed node.trim (trimmed node.trim o) ≡ trimmed node.trim o
    unfolding trimmed
    trimmed-trimmed none = refl
    trimmed-trimmed (some s) = elim (Bool-cases (is_blank node.trim s)) [
      | inl e ↦ rw e refl
      | inr e ↦ rw e (rw (laws.trim_trim s) (rw e refl))
    ]

    fits_itself : (o : Option String) → fits_key_id node o o ≡ true
    fits_itself none = refl
    fits_itself (some s) = eq_refl s

    own_candidate :
        (signing : Option SigningOptions) (key : String)
        → normalize_signing_key node.trim signing ≡ some key
        → (rest : List KeyEntry) × (candidate_keys node
              (trimmed node.trim (trimmed node.trim (configured_key_id signing)))
              (resolve_verification_keys node.trim signing)
            ≡ key_entry key (trimmed node.trim (configured_key_id signing)) ∷ rest)
    unfolding candidate_keys
    own_candidate signing key e =
        let id = trimmed node.trim (configured_key_id signing) in
        (
          keep_if (λ (entry : KeyEntry). fits_key_id node (trimmed node.trim id) entry.key_id)
              (previous_entries node.trim (configured_previous signing)),
          rw (trimmed-trimmed (configured_key_id signing), own_key signing key e, fits_itself id)
              refl,
        )

    pub digest_legible :
        (f : Frame) (payload : Bytes) (key : String)
        → is_blank node.trim (node.to_base64 (expected_digest node f payload key)) ≡ false
    unfolding expected_digest
    digest_legible f payload key = rw (laws.trim_base64 _ _ _) (laws.digest_not_blank _ _ _)

    own_match :
        (f : Frame) (payload : Bytes) (entry : KeyEntry) (rest : List KeyEntry)
        → some_key_matches node f payload
            (node.from_base64
              (node.trim (node.to_base64 (expected_digest node f payload entry.key))))
            (entry ∷ rest)
          ≡ true
    unfolding some_key_matches expected_digest
    own_match f payload entry rest =
        let prefix = node.signature_prefix (header_of f) in
        rw
          (
            laws.trim_base64 entry.key prefix payload,
            laws.base64_back entry.key prefix payload,
            signatures_match_refl (node.hmac entry.key prefix payload),
          )
          refl

    verify_signed :
        {R : Type 0} (f : Frame) (payload : Bytes) (signing : Option SigningOptions) (key : String)
        (rest : Result R)
        → normalize_signing_key node.trim signing ≡ some key
        → Consistent signing
        → verify_signature node f payload signing
            (signature_of
              (node.to_base64 (expected_digest node f payload key))
              (trimmed node.trim (configured_key_id signing)))
            rest
          ≡ rest
    unfolding verify_signature
    verify_signed f payload signing key rest e c =
        let id = configured_key_id signing in
        let (others, candidates) = own_candidate signing key e in
        require-pass _ (rw (own_key signing key e) refl) (
          require-pass _ (rw (trimmed-trimmed id) c.key_id) (
            require-pass _ (rw candidates refl) (
              require-pass _ (rw (digest_legible f payload key) refl)
                (require-pass _ (rw candidates (own_match f payload _ others)) refl))))

    verify_unsigned :
        {R : Type 0} (f : Frame) (payload : Bytes) (signing : Option SigningOptions)
        (rest : Result R)
        → normalize_signing_key node.trim signing ≡ none
        → Consistent signing
        → verify_given node f payload signing none rest ≡ rest
    unfolding verify_given
    verify_unsigned f payload signing rest k c =
        let lax : not (requires_signature node signing) ≡ true = rw k at c.key in
        require-pass _ lax refl

    -- What is signed is verified with the same options.
    pub verify_own :
        {R : Type 0} (f : Frame) (payload : Bytes) (signing : Option SigningOptions)
        (rest : Result R)
        → f.signature ≡ none
        → Consistent signing
        → verify_frame_signature node (sign_frame node f payload signing) payload signing rest
          ≡ rest
    unfolding verify_frame_signature verify_given expected_digest
    verify_own f payload signing rest e c =
        elim (Option-cases (normalize_signing_key node.trim signing)) [
          | inl k ↦
              ap (λ g. verify_frame_signature node g payload signing rest)
                (sign_frame-none f payload signing k)
              ∙ ap (λ o. verify_given node f payload signing o rest) e
              ∙ verify_unsigned f payload signing rest k c
          | inr (key, k) ↦
              ap (λ g. verify_frame_signature node g payload signing rest)
                (sign_frame-some f payload signing key k)
              ∙ verify_signed _ payload signing key rest k c
        ]

    -- Signing leaves the other fields as they are.
    pub sign_frame-same :
        {X : Type 0} (field : Frame → X) (f : Frame) (payload : Bytes)
        (signing : Option SigningOptions)
        → ((o : Option Signature) → field (record f { signature = o }) ≡ field f)
        → field (sign_frame node f payload signing) ≡ field f
    sign_frame-same field f payload signing h =
        elim (Option-cases (normalize_signing_key node.trim signing)) [
          | inl k ↦ ap field (sign_frame-none f payload signing k)
          | inr (key, k) ↦ ap field (sign_frame-some f payload signing key k) ∙ h _
        ]

    -- The signature that is written is no blank text.
    pub sign_frame-Legible :
        (f : Frame) (payload : Bytes) (signing : Option SigningOptions)
        → f.signature ≡ none
        → Legible node.trim (sign_frame node f payload signing).signature
    sign_frame-Legible f payload signing e =
        elim (Option-cases (normalize_signing_key node.trim signing)) [
          | inl k ↦
              subst (λ (g : Frame). Legible node.trim g.signature)
                (sym (sign_frame-none f payload signing k)) (subst (Legible node.trim) (sym e) tt)
          | inr (key, k) ↦
              subst (λ (g : Frame). Legible node.trim g.signature)
                (sym (sign_frame-some f payload signing key k)) (digest_legible f payload key)
        ]
