-- ===== src/Stream/Pulls/Windows.antt =====
-- streamPullSession.ts: the sizes that a session asks for and answers.
use Prim.Native.String.{String}
use plug_node.Base.{
  ℕ, zero, suc, ◌≤◌, ◌≡◌, Bool, true, not, ◌||◌, Option, none, some, List, [], ◌∷◌, arith, at_if,
  get_elem?, All, All-append, ltb, if◌then◌else◌, ◌/◌,
}
use plug_node.Identity.{includes}
use plug_node.Values.Number.{nan, infinity, neg_infinity, fraction, negative, whole}
use plug_node.Values.Json.{Json, null, bool, num, str, arr, obj, get}
use plug_node.Stream.Window.{normalize_window_size}
use plug_node.Stream.Window.Bounds.{normalize_window_size_bounds}
use plug_node.Stream.Answers.{Checked, takes, refuses, normalize_pull_response}
use plug_node.Stream.Pulls.Types.{
  Pull, Session, Transport, Request, Reason, pull_failed, malformed, session_disposed, emit_failed,
  Effect, resolves, rejects, emits, Part, key_of,
}
use plug_node.Stream.Pulls.{
  delete_key, part, Taken, take_where, settle, settle_where, reject_where, reject_pending,
  fits_failure, answered_window, resolved_window, response_key, answer, respond, is_success,
  handle_pull_response, handle_terminal, asked_window, new_pull, request_pull, expire, abort,
  dispose, each, at, Event, opens, requests, responds, terminates, expires, aborts, disposes, step,
  run, requested,
}

-- Sizes that are given to the hub or to the caller are within the hub's limits.
abbrev pub IsSized : Effect → Type 0
IsSized (resolves id window) = (1 ≤ window) × (window ≤ 1000)
IsSized (rejects id reason) = Unit
IsSized (emits id window) = (1 ≤ window) × (window ≤ 1000)

answered_window-within :
    (size : Option Json) → (1 ≤ answered_window size) × (answered_window size ≤ 1000)
unfolding answered_window
answered_window-within (some (num (fraction n d))) =
    at_if (λ w. (1 ≤ w) × (w ≤ 1000)) (ltb 0 n) _ _
      (λ _.
        normalize_window_size_bounds (some (num (fraction n d))) 256 1000 (omega arith)
          (omega arith))
      λ _. (omega arith, omega arith)
answered_window-within (some (num nan)) = (omega arith, omega arith)
answered_window-within (some (num infinity)) = (omega arith, omega arith)
answered_window-within (some (num neg_infinity)) = (omega arith, omega arith)
answered_window-within (some (num (negative n d))) = (omega arith, omega arith)
answered_window-within none = (omega arith, omega arith)
answered_window-within (some null) = (omega arith, omega arith)
answered_window-within (some (bool b)) = (omega arith, omega arith)
answered_window-within (some (str t)) = (omega arith, omega arith)
answered_window-within (some (arr vs)) = (omega arith, omega arith)
answered_window-within (some (obj fs)) = (omega arith, omega arith)

floor_whole : (n : ℕ) → n / suc 0 ≡ n
floor_whole n = omega arith

normalize-whole :
    (n fallback : ℕ)
    → 1 ≤ n
    → n ≤ 1000
    → normalize_window_size (some (num (whole n))) fallback 1000 ≡ n
unfolding normalize_window_size
normalize-whole n fallback p q = ground (arith, floor_whole n)

-- The size behind the `then` of requestPull is the answered one.
resolved_window-answered :
    (size : Option Json) (e : Pull) → resolved_window size e ≡ answered_window size
unfolding resolved_window
resolved_window-answered size e =
    let w = answered_window-within size in normalize-whole (answered_window size) e.window w.0 w.1

settle_where-IsSized :
    (test : Pull → Bool) (ending : Pull → Effect) (s : Session) (active : List String)
    → ((e : Pull) → IsSized (ending e))
    → All IsSized (settle_where test ending s active).effects
unfolding settle_where
settle_where-IsSized test ending s active h = by_taken (take_where test s.pending)
  where
    by_taken : (o : Option Taken) → All IsSized (settle ending s active o).effects
    by_taken none = tt
    by_taken (some t) = (h t.entry, tt)

reject_where-IsSized :
    (test : Pull → Bool) (reason : Reason) (es : List Pull) (s : Session) (active : List String)
    → All IsSized (reject_where test reason es s active).effects
unfolding reject_where
reject_where-IsSized test reason [] s active = tt
reject_where-IsSized test reason (e ∷ es) s active =
    at_if (λ (p : Part). All IsSized p.effects) (test e) _ _
      (λ _. (tt, reject_where-IsSized test reason es s (delete_key (key_of e) active)))
      λ _. reject_where-IsSized test reason es s active

-- A call of a session that gives out sizes within the limits.
abbrev GivesSized : (Session → List String → Part) → Type 0
GivesSized f = (s : Session) (active : List String) → All IsSized (f s active).effects

answer-IsSized : (key : Option String) (size : Option Json) → GivesSized (answer key size)
answer-IsSized none size s active = tt
answer-IsSized (some key) size s active =
    settle_where-IsSized _ (λ e. resolves e.id (resolved_window size e)) s active
      λ e. rw (resolved_window-answered size e) (answered_window-within size)

respond-IsSized : (checked : Checked) → GivesSized (respond checked)
unfolding reject_pending
respond-IsSized (refuses r) s active = reject_where-IsSized _ (malformed r) s.pending s active
respond-IsSized (takes fs) s active =
    at_if (λ (p : Part). All IsSized p.effects) (is_success (get "success" fs)) _ _
      (λ _. answer-IsSized (response_key fs) (get "windowSize" fs) s active)
      λ _. reject_where-IsSized (fits_failure fs) pull_failed s.pending s active

guarded-IsSized :
    (guard : Session → Bool) (f : Session → List String → Part)
    → GivesSized f
    → GivesSized (λ s active. if guard s then part s active [] else f s active)
guarded-IsSized guard f h s active =
    at_if (λ (p : Part). All IsSized p.effects) (guard s) _ _ (λ _. tt) λ _. h s active

request_pull-IsSized : (id : ℕ) (r : Request) → GivesSized (request_pull id r)
unfolding request_pull new_pull asked_window
request_pull-IsSized id r s active =
    let Goal : Part → Type 0 = λ p. All IsSized p.effects in
    at_if Goal s.disposed _ _ (λ _. (tt, tt))
      λ _.
        at_if Goal (not r.encodes) _ _ (λ _. (tt, tt))
          λ _.
            at_if Goal (includes (key_of (new_pull id r)) active) _ _ (λ _. (tt, tt))
              λ _.
                at_if Goal r.aborted _ _ (λ _. (tt, tt))
                  λ _.
                    at_if Goal r.emit_throws _ _
                      (λ _. settle_where-IsSized _ (λ x. rejects x.id emit_failed) _ _ λ e. tt)
                      λ _. (
                        normalize_window_size_bounds r.window_size 256 1000 (omega arith)
                            (omega arith),
                        tt,
                      )

each-IsSized :
    (f : Session → List String → Part) (ss : List Session) (active : List String)
    → GivesSized f
    → All IsSized (each f ss active).effects
unfolding each
each-IsSized f [] active h = tt
each-IsSized f (s ∷ ss) active h =
    All-append IsSized (f s active).effects (each f ss (f s active).active).effects (h s active)
      (each-IsSized f ss (f s active).active h)

at-IsSized :
    (i : ℕ) (f : Session → List String → Part) (ss : List Session) (active : List String)
    → GivesSized f
    → All IsSized (at i f ss active).effects
unfolding at
at-IsSized i f [] active h = tt
at-IsSized zero f (s ∷ ss) active h = h s active
at-IsSized (suc i) f (s ∷ ss) active h = at-IsSized i f ss active h

requested-IsSized :
    (t : Transport) (i : ℕ) (r : Request) (o : Option Session) → All IsSized (requested t i r o).1
requested-IsSized t i r none = tt
requested-IsSized t i r (some s) =
    at-IsSized i (request_pull t.next_id r) t.sessions t.active (request_pull-IsSized t.next_id r)

step-IsSized : (trim : String → String) (e : Event) (t : Transport) → All IsSized (step trim e t).1
unfolding step handle_pull_response handle_terminal expire abort dispose reject_pending
step-IsSized trim (opens attached) t = tt
step-IsSized trim (requests i r) t = requested-IsSized t i r (get_elem? t.sessions i)
step-IsSized trim (responds payload) t =
    each-IsSized _ t.sessions t.active
      (guarded-IsSized (λ s. s.disposed) _ (respond-IsSized (normalize_pull_response trim payload)))
step-IsSized trim (terminates reason) t = each-IsSized _ t.sessions t.active (
    guarded-IsSized (λ s. s.disposed || not s.attached) _
      λ s active. reject_where-IsSized _ reason s.pending s active)
step-IsSized trim (expires i id) t =
    at-IsSized i _ t.sessions t.active λ s active. settle_where-IsSized _ _ s active λ e. tt
step-IsSized trim (aborts i id) t =
    at-IsSized i _ t.sessions t.active λ s active. settle_where-IsSized _ _ s active λ e. tt
step-IsSized trim (disposes i) t = at-IsSized i _ t.sessions t.active (
    guarded-IsSized (λ s. s.disposed) _
      λ s active.
        reject_where-IsSized _ session_disposed s.pending (record s { disposed = true }) active)

-- Whatever a transport's sessions and events: each window size that is sent to the hub, and each that
-- a call of requestPull resolves to, lies between 1 and the hub's maximum of 1000.
pub run_windows :
    (trim : String → String) (es : List Event) (t : Transport) → All IsSized (run trim es t).1
unfolding run
run_windows trim [] t = tt
run_windows trim (e ∷ es) t =
    All-append IsSized (step trim e t).1 (run trim es (step trim e t).0).1 (step-IsSized trim e t)
      (run_windows trim es (step trim e t).0)
