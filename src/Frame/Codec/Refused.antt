-- ===== src/Frame/Codec/Refused.antt =====
-- Frames that the signing options refuse although they signed them themselves.
use Prim.Native.String.{String}
use plug_node.Frame.Codec.Authentic.{or-last}
use plug_node.Frame.Signing.{some_has_key_id, primary_entry}
use plug_node.Base.{
  ◌++◌, get_elem?, zero, suc, at_if, ℕ, ◌≡◌, refl, ap, ◌∙◌, true, false, none, some, List, [], ◌∷◌,
}
use plug_node.Frame.Types.{
  fail, key_id_required, Bytes, Frame, SigningOptions, KeyEntry, key_entry, Result, Runtime,
}
use plug_node.Frame.Shape.{is_blank}
use plug_node.Frame.Signing.{
  trimmed, normalize_signing_key, resolve_verification_keys, previous_entries, sign_frame,
  verify_frame_signature, verify_signature, verify_given, requires_key_id, is_given,
}
use plug_node.Frame.Inversion.{require-pass, require-stop}
use plug_node.Frame.Codec.Signed.{own_key, sign_frame-some}

-- Options whose own key id is blank, or is missing beside a usable previous key that has one.
pub data LacksKeyId (trim : String → String) (signing : SigningOptions) : Type 0 where
  blank_id :
      (id : String) → signing.key_id ≡ some id → is_blank trim id ≡ true → LacksKeyId trim signing
  only_previous :
      (i : ℕ) (entry : KeyEntry) (id : String)
      → signing.key_id ≡ none
      → get_elem? signing.previous_keys i ≡ some entry
      → is_blank trim entry.key ≡ false
      → entry.key_id ≡ some id
      → is_blank trim id ≡ false
      → LacksKeyId trim signing

some_has_key_id-append :
    {D : Type 0} (node : Runtime D) (xs ys : List KeyEntry)
    → some_has_key_id node ys ≡ true
    → some_has_key_id node (xs ++ ys) ≡ true
unfolding some_has_key_id
some_has_key_id-append node [] ys h = h
some_has_key_id-append node (x ∷ xs) ys h =
    rw (some_has_key_id-append node xs ys h) (or-last (is_given node x.key_id))

previous_entries-key_id :
    {D : Type 0} (node : Runtime D) (entries : List KeyEntry) (i : ℕ) (entry : KeyEntry)
    (id : String)
    → get_elem? entries i ≡ some entry
    → is_blank node.trim entry.key ≡ false
    → entry.key_id ≡ some id
    → is_blank node.trim id ≡ false
    → some_has_key_id node (previous_entries node.trim entries) ≡ true
unfolding previous_entries some_has_key_id trimmed
previous_entries-key_id node [] i entry id at usable named given = cc
previous_entries-key_id node (e ∷ entries) zero entry id at usable named given =
    let same : e ≡ entry = cc in rw same (rw usable (rw named (rw given refl)))
previous_entries-key_id node (e ∷ entries) (suc i) entry id at usable named given =
    let later = previous_entries-key_id node entries i entry id at usable named given in
    at_if (λ (ks : List KeyEntry). some_has_key_id node ks ≡ true) (is_blank node.trim e.key) _ _
      (λ blank. later)
      λ kept.
        some_has_key_id-append node (key_entry (node.trim e.key) (trimmed node.trim e.key_id) ∷ [])
          (previous_entries node.trim entries) later

requires_key_id-previous :
    {D : Type 0} (node : Runtime D) (signing : SigningOptions)
    → some_has_key_id node (previous_entries node.trim signing.previous_keys) ≡ true
    → requires_key_id node (some signing) ≡ true
unfolding requires_key_id resolve_verification_keys
requires_key_id-previous node signing h =
    rw
      (some_has_key_id-append node
        (primary_entry node.trim (normalize_signing_key node.trim (some signing)) (some signing)) _
        h)
      refl

requires_key_id-given :
    {D : Type 0} (node : Runtime D) (signing : SigningOptions) (id : String)
    → signing.key_id ≡ some id
    → requires_key_id node (some signing) ≡ true
unfolding requires_key_id
requires_key_id-given node signing id h = rw h (or-last _)

LacksKeyId-requires_key_id :
    {D : Type 0} (node : Runtime D) (signing : SigningOptions)
    → LacksKeyId node.trim signing
    → requires_key_id node (some signing) ≡ true
LacksKeyId-requires_key_id node signing (blank_id id e blank) =
    requires_key_id-given node signing id e
LacksKeyId-requires_key_id node signing (only_previous i entry id e at usable named given) =
    requires_key_id-previous node signing
      (previous_entries-key_id node signing.previous_keys i entry id at usable named given)

LacksKeyId-trimmed :
    (trim : String → String) (signing : SigningOptions)
    → LacksKeyId trim signing
    → trimmed trim signing.key_id ≡ none
unfolding trimmed
LacksKeyId-trimmed trim signing (blank_id id e blank) = rw e (rw blank refl)
LacksKeyId-trimmed trim signing (only_previous i entry id e at usable named given) = rw e refl

normalize-usable :
    (trim : String → String) (signing : SigningOptions) (key : String)
    → signing.key ≡ some key
    → is_blank trim key ≡ false
    → normalize_signing_key trim (some signing) ≡ some key
unfolding normalize_signing_key
normalize-usable trim signing key e usable = rw e (rw usable refl)

-- Options with a usable key whose own key id is blank, or is missing beside a usable previous key
-- that has one: every frame that is signed with them is refused when it is verified with the same
-- options, whatever follows the verification, since it carries no key id and one is required.
pub own_frame_refused :
    {D R : Type 0} (node : Runtime D) (f : Frame) (payload : Bytes) (signing : SigningOptions)
    (key : String) (rest : Result R)
    → signing.key ≡ some key
    → is_blank node.trim key ≡ false
    → LacksKeyId node.trim signing
    → verify_frame_signature node
        (sign_frame node f payload (some signing))
        payload
        (some signing)
        rest
      ≡ fail key_id_required
unfolding verify_frame_signature verify_given verify_signature trimmed
own_frame_refused node f payload signing key rest e usable lacks =
    let k = normalize-usable node.trim signing key e usable in
    let blank = LacksKeyId-trimmed node.trim signing lacks in
    let needed = LacksKeyId-requires_key_id node signing lacks in
    ap (λ g. verify_frame_signature node g payload (some signing) rest)
      (sign_frame-some node f payload (some signing) key k)
    ∙ require-pass _ (rw (own_key node (some signing) key k) refl)
        (require-stop _ _ (rw (blank, needed, trimmed) refl))
