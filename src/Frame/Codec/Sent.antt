-- ===== src/Frame/Codec/Sent.antt =====
-- A frame that was encoded has the shape that the receiver asserts.
use Prim.Native.String.{String}
use plug_node.Base.{ℕ, ◌≡◌, refl, true, false, Option, none, some, List, ◌∷◌, every, arith}
use plug_node.Values.Number.{whole}
use plug_node.Frame.Types.{
  Leaf, leaf, Value, object, str, number, Cmp, plain, gzipped, Signature, signature_of, Frame,
  envelope, ok, Problem, prop, leaf_prop, has_prop, includes, require, and_then,
}
use plug_node.Frame.Shape.{
  allowed_root_keys, assert_valid_frame_shape, whole_value, read_cmp, read_size, read_text,
  read_trace_id, read_request_id, read_signature_value, read_signature, is_blank,
}
use plug_node.Frame.Inversion.{require-pass, and_then-pass}
use plug_node.Frame.Codec.{members, cmp_name, request_id_value, key_id_member, text_value}

whole_value-whole : (n : ℕ) → whole_value (whole n) ≡ some n
unfolding whole_value
whole_value-whole n = ground arith

read_size-whole : (p : Problem) (n : ℕ) → read_size p (leaf (number (whole n))) ≡ ok n
unfolding read_size
read_size-whole p n = rw (whole_value-whole n, read_size) refl

-- The value of a signature that is not blank, where there is one.
abbrev pub Legible : (trim : String → String) → Option Signature → Type 0
Legible trim none = Unit
Legible trim (some s) = is_blank trim s.value ≡ false

read_signature-member :
    (trim : String → String) (value : String) (key_id : Option String)
    → is_blank trim value ≡ false
    → read_signature trim
        (object (("alg", str "hmac-sha256") ∷ ("value", str value) ∷ key_id_member key_id))
      ≡ ok (some (signature_of value key_id))
unfolding read_signature read_signature_value read_text includes leaf_prop require and_then
read_signature-member trim value none h = rw h refl
read_signature-member trim value (some k) h = rw h refl

-- What the receiver finds in the members of a frame.
module _ (cmp : Cmp) (os cs : ℕ) (payload : Leaf) (request : Option String) where
  sent : Option String → Option Signature → List (String × Value)
  sent trace signature = members (envelope cmp os cs payload trace request signature)

  keys_sent :
      (trace : Option String) (signature : Option Signature)
      → every (λ (e : String × Value). includes e.0 allowed_root_keys) (sent trace signature) ≡ true
  unfolding sent members includes
  keys_sent none none = refl
  keys_sent none (some s) = refl
  keys_sent (some t) none = refl
  keys_sent (some t) (some s) = refl

  trace_sent :
      (trace : Option String) (signature : Option Signature)
      → read_trace_id (prop "traceId" (sent trace signature)) ≡ ok trace
  unfolding sent members prop read_trace_id read_text
  trace_sent none none = refl
  trace_sent none (some s) = refl
  trace_sent (some t) none = refl
  trace_sent (some t) (some s) = refl

  signature_sent :
      (trim : String → String) (trace : Option String) (signature : Option Signature)
      → Legible trim signature
      → read_signature trim (prop "signature" (sent trace signature)) ≡ ok signature
  unfolding sent members prop read_signature
  signature_sent trim none none h = refl
  signature_sent trim none (some s) h = read_signature-member trim s.value s.key_id h
  signature_sent trim (some t) none h = refl
  signature_sent trim (some t) (some s) h = read_signature-member trim s.value s.key_id h

read_cmp-sent : (cmp : Cmp) → read_cmp (text_value (cmp_name cmp)) ≡ ok cmp
unfolding read_cmp
read_cmp-sent plain = refl
read_cmp-sent gzipped = refl

read_request_id-sent :
    (request : Option String) → read_request_id (request_id_value request) ≡ ok request
unfolding read_request_id read_text
read_request_id-sent none = refl
read_request_id-sent (some r) = refl

-- The receiver reads the frame back from its members.
pub shape-members :
    (trim : String → String) (f : Frame)
    → Legible trim f.signature
    → assert_valid_frame_shape trim (some (members f)) ≡ ok f
unfolding assert_valid_frame_shape members prop has_prop sent
shape-members trim f h =
    let keys = keys_sent f.cmp f.original_size f.compressed_size f.payload f.request_id in
    let traces = trace_sent f.cmp f.original_size f.compressed_size f.payload f.request_id in
    let signatures =
      signature_sent f.cmp f.original_size f.compressed_size f.payload f.request_id trim f.trace_id
        f.signature h in
    require-pass _ (keys f.trace_id f.signature) (
      require-pass _ refl (
        require-pass _ refl (
          and_then-pass _ (read_cmp-sent f.cmp) (
            require-pass _ refl (
              and_then-pass _ (read_size-whole _ f.original_size) (
                and_then-pass _ (read_size-whole _ f.compressed_size) (
                  require-pass _ refl (
                    and_then-pass _ (traces f.trace_id f.signature) (
                      and_then-pass _ (read_request_id-sent f.request_id)
                        (and_then-pass _ signatures refl))))))))))
