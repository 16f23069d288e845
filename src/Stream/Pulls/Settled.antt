-- ===== src/Stream/Pulls/Settled.antt =====
-- streamPullSession.ts: each call of `requestPull` ends once, or waits.
use Prim.Native.String.{String}
use plug_node.Base.{
  ℕ, zero, suc, ◌+◌, ◌≡◌, refl, sym, ◌∙◌, Option, none, some, List, [], ◌∷◌, ◌++◌, arith, get_elem?,
  ◌==◌, ltb, if◌then◌else◌, ==_iff, ltb→lt, lt→ltb,
}
use plug_node.Stream.Pulls.Types.{Session, Transport, Request, Effect, Part}
use plug_node.Stream.Pulls.{
  handle_pull_response, handle_terminal, request_pull, expire, abort, dispose, each, at, Event,
  opens, requests, responds, terminates, expires, aborts, disposes, step, run, new_transport,
  new_session, requested,
}
use plug_node.Stream.Pulls.Keys.{held, same-Shares}
use plug_node.Stream.Pulls.Invariant.{
  IsFair, FairAll, total, head-Fair, tail-Fair, handle_pull_response-IsFair, handle_terminal-IsFair,
  IsValid, step-IsValid,
}
use plug_node.Stream.Pulls.Promises.{
  ends, entries, ends-append, IsBalanced, handle_pull_response-IsBalanced,
  handle_terminal-IsBalanced, dispose-IsBalanced, expire-IsBalanced, abort-IsBalanced,
  request_pull-IsBalanced,
}

-- The entries of a call in all the sessions.
abbrev pub waiting : ℕ → List Session → ℕ
waiting n [] = 0
waiting n (s ∷ ss) = entries n s.pending + waiting n ss

each-waiting :
    (n : ℕ) (f : Session → List String → Part) (ss : List Session) (rest : String → ℕ)
    (active : List String)
    → IsFair f
    → IsBalanced n 0 f
    → FairAll rest ss active
    → ends n (each f ss active).effects + waiting n (each f ss active).sessions ≡ waiting n ss
unfolding each
each-waiting n f [] rest active fair b h = omega arith
each-waiting n f (s ∷ ss) rest active fair b h =
    let p = f s active in
    omega (
      arith,
      ends-append n p.effects (each f ss p.active).effects,
      b (λ k. rest k + total k ss) s active (head-Fair rest s ss active h),
      each-waiting n f ss (λ k. rest k + held k p.session.pending) p.active fair b
          (tail-Fair f s ss rest active fair h),
    )

absurd_some : {P : Type 0} (s : Session) → some s ≡ none → P
absurd_some s h = cc

at-waiting :
    (n extra i : ℕ) (f : Session → List String → Part) (ss : List Session) (rest : String → ℕ)
    (active : List String)
    → IsBalanced n extra f
    → (get_elem? ss i ≡ none → extra ≡ 0)
    → FairAll rest ss active
    → ends n (at i f ss active).effects + waiting n (at i f ss active).sessions
      ≡ waiting n ss + extra
unfolding at
at-waiting n extra i f [] rest active b e h = omega (arith, e refl)
at-waiting n extra zero f (s ∷ ss) rest active b e h =
    omega (arith, b (λ k. rest k + total k ss) s active (head-Fair rest s ss active h))
at-waiting n extra (suc i) f (s ∷ ss) rest active b e h = omega (
  arith,
  at-waiting n extra i f ss (λ k. rest k + held k s.pending) active b e
      (same-Shares (λ k. rest k + (held k s.pending + total k ss))
        (λ k. rest k + held k s.pending + total k ss) active (λ k. omega arith) h),
)

waiting-append : (n : ℕ) (ss us : List Session) → waiting n (ss ++ us) ≡ waiting n ss + waiting n us
waiting-append n [] us = omega arith
waiting-append n (s ∷ ss) us = omega (arith, waiting-append n ss us)

-- Whether a number is that of a call that has been made.
abbrev pub called : ℕ → Transport → ℕ
called n t = if ltb n t.next_id then 1 else 0

-- What a step does for the call `n`.
abbrev Settles : ℕ → Transport → Transport × List Effect → Type 0
Settles n t r =
    ends n r.1 + waiting n r.0.sessions + called n t ≡ waiting n t.sessions + called n r.0

requested-Settles :
    (n : ℕ) (t : Transport) (i : ℕ) (r : Request) (o : Option Session)
    → get_elem? t.sessions i ≡ o
    → IsValid t
    → Settles n t (requested t i r o)
unfolding IsValid
requested-Settles n t i r none e v = omega arith
requested-Settles n t i r (some s) e v =
    let id = t.next_id in
    let a =
      at-waiting n (if n == id then 1 else 0) i (request_pull id r) t.sessions (λ _. 0) t.active
        (request_pull-IsBalanced n id r) (λ missing. absurd_some s (sym e ∙ missing)) v in
    ground (arith, a, ==_iff n id, ltb→lt n id, lt→ltb n id, ltb→lt n (id + 1), lt→ltb n (id + 1))

step-Settles :
    (n : ℕ) (trim : String → String) (e : Event) (t : Transport)
    → IsValid t
    → Settles n t (step trim e t)
unfolding step IsValid new_session
step-Settles n trim (opens attached) t v =
    omega (arith, waiting-append n t.sessions (new_session attached ∷ []))
step-Settles n trim (requests i r) t v = requested-Settles n t i r (get_elem? t.sessions i) refl v
step-Settles n trim (responds payload) t v = omega (
  arith,
  each-waiting n (handle_pull_response trim payload) t.sessions (λ _. 0) t.active
      (handle_pull_response-IsFair trim payload) (handle_pull_response-IsBalanced n trim payload) v,
)
step-Settles n trim (terminates reason) t v = omega (
  arith,
  each-waiting n (handle_terminal reason) t.sessions (λ _. 0) t.active
      (handle_terminal-IsFair reason) (handle_terminal-IsBalanced n reason) v,
)
step-Settles n trim (expires i id) t v = omega (
  arith,
  at-waiting n 0 i (expire id) t.sessions (λ _. 0) t.active (expire-IsBalanced n id) (λ _. refl) v,
)
step-Settles n trim (aborts i id) t v = omega (
  arith,
  at-waiting n 0 i (abort id) t.sessions (λ _. 0) t.active (abort-IsBalanced n id) (λ _. refl) v,
)
step-Settles n trim (disposes i) t v = omega (
  arith,
  at-waiting n 0 i dispose t.sessions (λ _. 0) t.active (dispose-IsBalanced n) (λ _. refl) v,
)

run-Settles :
    (n : ℕ) (trim : String → String) (es : List Event) (t : Transport)
    → IsValid t
    → Settles n t (run trim es t)
unfolding run
run-Settles n trim [] t v = omega arith
run-Settles n trim (e ∷ es) t v =
    let m = step trim e t in
    omega (
      arith,
      ends-append n m.1 (run trim es m.0).1,
      step-Settles n trim e t v,
      run-Settles n trim es m.0 (step-IsValid trim e t v),
    )

-- On a new transport, whatever its sessions and events: each call of requestPull that was made has
-- either ended, once, or waits in exactly one entry of one session, and no other number has an end or
-- an entry.
pub run_settled :
    (n : ℕ) (trim : String → String) (es : List Event)
    → ends n (run trim es new_transport).1 + waiting n (run trim es new_transport).0.sessions
      ≡ (if ltb n (run trim es new_transport).0.next_id then 1 else 0)
unfolding new_transport IsValid
run_settled n trim es =
    let v : IsValid new_transport = record { split = λ k. omega arith; once = λ k. omega arith } in
    ground (arith, run-Settles n trim es new_transport v, ltb→lt n 0)
