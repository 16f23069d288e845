-- ===== src/Stream/Pulls/Promises.antt =====
-- streamPullSession.ts: what becomes of the calls of `requestPull`.
use Prim.Native.String.{String}
use plug_node.Base.{
  ℕ, ◌+◌, ◌≡◌, refl, Bool, true, not, ◌||◌, Option, none, some, List, [], ◌∷◌, ◌++◌, arith, at_if,
  count_if, ◌==◌, if◌then◌else◌,
}
use text.Mathlib.Text.{◌==◌ as str_eq}
use plug_node.Identity.{includes}
use plug_node.Values.Json.{Json, get}
use plug_node.Stream.Answers.{Checked, takes, refuses, normalize_pull_response}
use plug_node.Stream.Pulls.Types.{
  is_aborted, emit_failed, timed_out, session_disposed, Pull, Session, Request, Reason, pull_failed,
  malformed, Effect, Part, key_of, resolves, rejects, emits,
}
use plug_node.Stream.Pulls.{
  resolved_window, delete_key, part, Taken, take_where, settle, settle_where, put, reject_where,
  reject_pending, fits_failure, response_key, answer, respond, is_success, handle_pull_response,
  handle_terminal, request_pull, expire, abort, new_pull, dispose,
}
use plug_node.Stream.Pulls.Keys.{
  count_key, held, Fair, includes-count, put-count_if, take_where-count_if,
}

-- How often the promise of a call ends, and how many entries a call has.
abbrev pub ends : ℕ → List Effect → ℕ
ends n [] = 0
ends n (resolves id window ∷ es) = (if n == id then 1 else 0) + ends n es
ends n (rejects id reason ∷ es) = (if n == id then 1 else 0) + ends n es
ends n (emits id window ∷ es) = ends n es

abbrev pub entries : ℕ → List Pull → ℕ
entries n = count_if (λ e. n == e.id)

pub ends-append : (n : ℕ) (es fs : List Effect) → ends n (es ++ fs) ≡ ends n es + ends n fs
ends-append n [] fs = omega arith
ends-append n (resolves id window ∷ es) fs = omega (arith, ends-append n es fs)
ends-append n (rejects id reason ∷ es) fs = omega (arith, ends-append n es fs)
ends-append n (emits id window ∷ es) fs = ends-append n es fs

-- The ends and the entries of a call, together, as before.
abbrev Balanced : ℕ → List Pull → Part → Type 0
Balanced n es p = ends n p.effects + entries n p.session.pending ≡ entries n es

-- An effect that ends the promise of an entry.
abbrev Ends : (Pull → Effect) → Type 0
Ends ending = (n : ℕ) (e : Pull) → ends n (ending e ∷ []) ≡ (if n == e.id then 1 else 0)

settle-Balanced :
    (n : ℕ) (test : Pull → Bool) (ending : Pull → Effect) (s : Session) (active : List String)
    (o : Option Taken)
    → Ends ending
    → take_where test s.pending ≡ o
    → Balanced n s.pending (settle ending s active o)
settle-Balanced n test ending s active none d e = omega arith
settle-Balanced n test ending s active (some t) d e =
    omega (arith, d n t.entry, take_where-count_if (λ (x : Pull). n == x.id) test s.pending t e)

settle_where-Balanced :
    (n : ℕ) (test : Pull → Bool) (ending : Pull → Effect) (s : Session) (active : List String)
    → Ends ending
    → Balanced n s.pending (settle_where test ending s active)
unfolding settle_where
settle_where-Balanced n test ending s active d =
    settle-Balanced n test ending s active (take_where test s.pending) d refl

reject_where-Balanced :
    (n : ℕ) (test : Pull → Bool) (reason : Reason) (es : List Pull) (s : Session)
    (active : List String)
    → Balanced n es (reject_where test reason es s active)
unfolding reject_where
reject_where-Balanced n test reason [] s active = omega arith
reject_where-Balanced n test reason (e ∷ es) s active =
    at_if (Balanced n (e ∷ es)) (test e) _ _
      (λ _. omega (arith, reject_where-Balanced n test reason es s (delete_key (key_of e) active)))
      λ _. omega (arith, reject_where-Balanced n test reason es s active)

-- What each call of a session does for the call `n`: `extra` more.
abbrev pub IsBalanced : (n extra : ℕ) → (Session → List String → Part) → Type 0
IsBalanced n extra f =
    (rest : String → ℕ) (s : Session) (active : List String)
    → Fair rest active s.pending
    → ends n (f s active).effects + entries n (f s active).session.pending
      ≡ entries n s.pending + extra

reject_pending-IsBalanced : (n : ℕ) (reason : Reason) → IsBalanced n 0 (reject_pending reason)
unfolding reject_pending
reject_pending-IsBalanced n reason rest s active f =
    omega (arith, reject_where-Balanced n (λ _. true) reason s.pending s active)

resolves-Ends : (size : Option Json) → Ends (λ e. resolves e.id (resolved_window size e))
resolves-Ends size n e = omega arith

rejects-Ends : (reason : Reason) → Ends (λ e. rejects e.id reason)
rejects-Ends reason n e = omega arith

answer-IsBalanced :
    (n : ℕ) (key : Option String) (size : Option Json) → IsBalanced n 0 (answer key size)
answer-IsBalanced n none size rest s active f = omega arith
answer-IsBalanced n (some key) size rest s active f = omega (
  arith,
  settle_where-Balanced n (λ e. str_eq key (key_of e)) (λ e. resolves e.id (resolved_window size e))
      s active (resolves-Ends size),
)

respond-IsBalanced : (n : ℕ) (checked : Checked) → IsBalanced n 0 (respond checked)
respond-IsBalanced n (refuses r) rest s active f =
    reject_pending-IsBalanced n (malformed r) rest s active f
respond-IsBalanced n (takes fs) rest s active f =
    at_if (λ (p : Part). ends n p.effects + entries n p.session.pending ≡ entries n s.pending + 0)
      (is_success (get "success" fs)) _ _
      (λ _. answer-IsBalanced n (response_key fs) (get "windowSize" fs) rest s active f)
      λ _. omega (arith, reject_where-Balanced n (fits_failure fs) pull_failed s.pending s active)

-- A call that may do nothing.
guarded-IsBalanced :
    (n : ℕ) (guard : Session → Bool) (f : Session → List String → Part)
    → IsBalanced n 0 f
    → IsBalanced n 0 (λ s active. if guard s then part s active [] else f s active)
guarded-IsBalanced n guard f b rest s active fair =
    at_if (λ (p : Part). ends n p.effects + entries n p.session.pending ≡ entries n s.pending + 0)
      (guard s) _ _ (λ _. omega arith) λ _. b rest s active fair

pub handle_pull_response-IsBalanced :
    (n : ℕ) (trim : String → String) (payload : Json)
    → IsBalanced n 0 (handle_pull_response trim payload)
unfolding handle_pull_response
handle_pull_response-IsBalanced n trim payload =
    guarded-IsBalanced n (λ s. s.disposed) (respond (normalize_pull_response trim payload))
      (respond-IsBalanced n (normalize_pull_response trim payload))

pub handle_terminal-IsBalanced : (n : ℕ) (reason : Reason) → IsBalanced n 0 (handle_terminal reason)
unfolding handle_terminal
handle_terminal-IsBalanced n reason =
    guarded-IsBalanced n (λ s. s.disposed || not s.attached) (reject_pending reason)
      (reject_pending-IsBalanced n reason)

pub dispose-IsBalanced : (n : ℕ) → IsBalanced n 0 dispose
unfolding dispose
dispose-IsBalanced n =
    guarded-IsBalanced n (λ s. s.disposed)
      (λ s. reject_pending session_disposed (record s { disposed = true }))
      (λ rest s. reject_pending-IsBalanced n session_disposed rest (record s { disposed = true }))

pub expire-IsBalanced : (n id : ℕ) → IsBalanced n 0 (expire id)
unfolding expire
expire-IsBalanced n id rest s active f = omega (
  arith,
  settle_where-Balanced n (λ e. e.id == id) (λ e. rejects e.id timed_out) s active
      (rejects-Ends timed_out),
)

pub abort-IsBalanced : (n id : ℕ) → IsBalanced n 0 (abort id)
unfolding abort
abort-IsBalanced n id rest s active f = omega (
  arith,
  settle_where-Balanced n (λ e. e.id == id) (λ e. rejects e.id is_aborted) s active
      (rejects-Ends is_aborted),
)

pub request_pull-IsBalanced :
    (n id : ℕ) (r : Request) → IsBalanced n (if n == id then 1 else 0) (request_pull id r)
unfolding request_pull new_pull
request_pull-IsBalanced n id r rest s active f =
    let Goal : Part → Type 0 = λ p.
      ends n p.effects + entries n p.session.pending
      ≡ entries n s.pending + (if n == id then 1 else 0) in
    let e : Pull = new_pull id r in
    let key : String = key_of e in
    let waiting : Session = record s { pending = put e s.pending } in
    at_if Goal s.disposed _ _ (λ _. omega arith)
      λ _.
        at_if Goal (not r.encodes) _ _ (λ _. omega arith)
          λ _.
            at_if Goal (includes key active) _ _ (λ _. omega arith)
              λ fresh.
                at_if Goal r.aborted _ _ (λ _. omega arith)
                  λ _.
                    let none_yet : count_key key active ≡ 0 = includes-count key active fresh in
                    let absent : held key s.pending ≡ 0 = omega (arith, f.split key) in
                    let added = put-count_if (λ (x : Pull). n == x.id) e s.pending absent in
                    at_if Goal r.emit_throws _ _
                      (λ _. omega (
                        arith,
                        added,
                        settle_where-Balanced n (λ x. str_eq key (key_of x))
                            (λ x. rejects x.id emit_failed) waiting (key ∷ active)
                            (rejects-Ends emit_failed),
                      ))
                      λ _. omega (arith, added)
