-- ===== src/Stream/Pulls/Invariant.antt =====
-- streamPullSession.ts: the keys of a transport, over its sessions and events.
use Prim.Native.String.{String}
use plug_node.Base.{
  ℕ, zero, suc, ◌+◌, ◌≤◌, ◌≡◌, true, not, ◌||◌, Option, none, some, List, [], ◌∷◌, ◌++◌, arith,
  at_if, get_elem?,
}
use plug_node.Values.Json.{Json, get}
use plug_node.Stream.Answers.{Checked, takes, refuses, normalize_pull_response}
use plug_node.Stream.Pulls.Types.{Session, Transport, Request, Reason, pull_failed, malformed, Part}
use plug_node.Stream.Pulls.{
  reject_pending, fits_failure, response_key, answer, respond, is_success, handle_pull_response,
  handle_terminal, request_pull, expire, abort, dispose, each, at, Event, opens, requests, responds,
  terminates, expires, aborts, disposes, step, run, new_transport, new_session, requested,
}
use plug_node.Stream.Pulls.Keys.{
  count_key, held, Shares, Fair, FairPart, same-Shares, settle_where-Fair, reject_where-Fair,
  request_pull-Fair,
}

-- What each call of a session keeps.
abbrev pub IsFair : (Session → List String → Part) → Type 0
IsFair f =
    (rest : String → ℕ) (s : Session) (active : List String)
    → Fair rest active s.pending
    → FairPart rest (f s active)

reject_pending-IsFair : (reason : Reason) → IsFair (reject_pending reason)
unfolding reject_pending
reject_pending-IsFair reason rest s active f =
    reject_where-Fair (λ _. true) reason s.pending s active rest f

answer-IsFair : (key : Option String) (size : Option Json) → IsFair (answer key size)
answer-IsFair none size rest s active f = f
answer-IsFair (some key) size rest s active f = settle_where-Fair rest _ _ s active f

respond-IsFair : (checked : Checked) → IsFair (respond checked)
respond-IsFair (refuses r) rest s active f = reject_pending-IsFair (malformed r) rest s active f
respond-IsFair (takes fs) rest s active f =
    at_if (FairPart rest) (is_success (get "success" fs)) _ _
      (λ _. answer-IsFair (response_key fs) (get "windowSize" fs) rest s active f)
      λ _. reject_where-Fair (fits_failure fs) pull_failed s.pending s active rest f

pub handle_pull_response-IsFair :
    (trim : String → String) (payload : Json) → IsFair (handle_pull_response trim payload)
unfolding handle_pull_response
handle_pull_response-IsFair trim payload rest s active f =
    at_if (FairPart rest) s.disposed _ _ (λ _. f)
      λ _. respond-IsFair (normalize_pull_response trim payload) rest s active f

pub handle_terminal-IsFair : (reason : Reason) → IsFair (handle_terminal reason)
unfolding handle_terminal
handle_terminal-IsFair reason rest s active f =
    at_if (FairPart rest) (s.disposed || not s.attached) _ _ (λ _. f)
      λ _. reject_pending-IsFair reason rest s active f

expire-IsFair : (id : ℕ) → IsFair (expire id)
unfolding expire
expire-IsFair id rest s active f = settle_where-Fair rest _ _ s active f

abort-IsFair : (id : ℕ) → IsFair (abort id)
unfolding abort
abort-IsFair id rest s active f = settle_where-Fair rest _ _ s active f

dispose-IsFair : IsFair dispose
unfolding dispose
dispose-IsFair rest s active f =
    at_if (FairPart rest) s.disposed _ _ (λ _. f)
      λ _. reject_pending-IsFair _ rest (record s { disposed = true }) active f

-- How many entries of all the sessions have a key.
abbrev pub total : String → List Session → ℕ
total k [] = 0
total k (s ∷ ss) = held k s.pending + total k ss

abbrev pub FairAll : (rest : String → ℕ) → List Session → List String → Type 0
FairAll rest ss active = Shares (λ k. rest k + total k ss) active

-- The first session, apart from the others.
pub head-Fair :
    (rest : String → ℕ) (s : Session) (ss : List Session) (active : List String)
    → FairAll rest (s ∷ ss) active
    → Fair (λ k. rest k + total k ss) active s.pending
head-Fair rest s ss active f =
    same-Shares (λ k. rest k + (held k s.pending + total k ss))
      (λ k. rest k + total k ss + held k s.pending) active (λ k. omega arith) f

-- The other sessions, once the first has been called.
pub tail-Fair :
    (f : Session → List String → Part) (s : Session) (ss : List Session) (rest : String → ℕ)
    (active : List String)
    → IsFair f
    → FairAll rest (s ∷ ss) active
    → FairAll (λ k. rest k + held k (f s active).session.pending) ss (f s active).active
tail-Fair f s ss rest active fair h =
    let p = f s active in
    same-Shares (λ k. rest k + total k ss + held k p.session.pending)
      (λ k. rest k + held k p.session.pending + total k ss) p.active (λ k. omega arith)
      (fair (λ k. rest k + total k ss) s active (head-Fair rest s ss active h))

each-FairAll :
    (f : Session → List String → Part) (ss : List Session) (rest : String → ℕ)
    (active : List String)
    → IsFair f
    → FairAll rest ss active
    → FairAll rest (each f ss active).sessions (each f ss active).active
unfolding each
each-FairAll f [] rest active fair h = h
each-FairAll f (s ∷ ss) rest active fair h =
    let p = f s active in
    let r = each f ss p.active in
    let others : String → ℕ = λ k. rest k + held k p.session.pending in
    same-Shares (λ k. others k + total k r.sessions)
      (λ k. rest k + (held k p.session.pending + total k r.sessions)) r.active (λ k. omega arith)
      (each-FairAll f ss others p.active fair (tail-Fair f s ss rest active fair h))

at-FairAll :
    (i : ℕ) (f : Session → List String → Part) (ss : List Session) (rest : String → ℕ)
    (active : List String)
    → IsFair f
    → FairAll rest ss active
    → FairAll rest (at i f ss active).sessions (at i f ss active).active
unfolding at
at-FairAll i f [] rest active fair h = h
at-FairAll zero f (s ∷ ss) rest active fair h =
    let p = f s active in
    same-Shares (λ k. rest k + total k ss + held k p.session.pending)
      (λ k. rest k + (held k p.session.pending + total k ss)) p.active (λ k. omega arith)
      (fair (λ k. rest k + total k ss) s active (head-Fair rest s ss active h))
at-FairAll (suc i) f (s ∷ ss) rest active fair h =
    let r = at i f ss active in
    let others : String → ℕ = λ k. rest k + held k s.pending in
    same-Shares (λ k. others k + total k r.sessions)
      (λ k. rest k + (held k s.pending + total k r.sessions)) r.active (λ k. omega arith)
      (at-FairAll i f ss others active fair (
        same-Shares (λ k. rest k + (held k s.pending + total k ss)) (λ k. others k + total k ss)
          active (λ k. omega arith) h))

-- The active keys are the keys of the pulls that wait, over all sessions, each once.
unfoldable pub IsValid : Transport → Type 0
IsValid t = FairAll (λ _. 0) t.sessions t.active

total-append : (k : String) (ss us : List Session) → total k (ss ++ us) ≡ total k ss + total k us
total-append k [] us = omega arith
total-append k (s ∷ ss) us = omega (arith, total-append k ss us)

requested-IsValid :
    (t : Transport) (i : ℕ) (r : Request) (o : Option Session)
    → IsValid t
    → IsValid (requested t i r o).0
unfolding IsValid
requested-IsValid t i r none v = v
requested-IsValid t i r (some s) v =
    at-FairAll i (request_pull t.next_id r) t.sessions (λ _. 0) t.active
      (request_pull-Fair t.next_id r) v

pub step-IsValid :
    (trim : String → String) (e : Event) (t : Transport) → IsValid t → IsValid (step trim e t).0
unfolding step IsValid new_session
step-IsValid trim (opens attached) t v =
    same-Shares (λ k. 0 + total k t.sessions)
      (λ k. 0 + total k (t.sessions ++ new_session attached ∷ [])) t.active
      (λ k. omega (arith, total-append k t.sessions (new_session attached ∷ []))) v
step-IsValid trim (requests i r) t v = requested-IsValid t i r (get_elem? t.sessions i) v
step-IsValid trim (responds payload) t v =
    each-FairAll (handle_pull_response trim payload) t.sessions (λ _. 0) t.active
      (handle_pull_response-IsFair trim payload) v
step-IsValid trim (terminates reason) t v =
    each-FairAll (handle_terminal reason) t.sessions (λ _. 0) t.active
      (handle_terminal-IsFair reason) v
step-IsValid trim (expires i id) t v =
    at-FairAll i (expire id) t.sessions (λ _. 0) t.active (expire-IsFair id) v
step-IsValid trim (aborts i id) t v =
    at-FairAll i (abort id) t.sessions (λ _. 0) t.active (abort-IsFair id) v
step-IsValid trim (disposes i) t v =
    at-FairAll i dispose t.sessions (λ _. 0) t.active dispose-IsFair v

run-IsValid :
    (trim : String → String) (es : List Event) (t : Transport)
    → IsValid t
    → IsValid (run trim es t).0
unfolding run
run-IsValid trim [] t v = v
run-IsValid trim (e ∷ es) t v = run-IsValid trim es (step trim e t).0 (step-IsValid trim e t v)

-- On one transport, whatever its sessions and events: the active keys are exactly the keys of the
-- pulls that wait in the sessions, and no two waiting pulls have the same conversation, request and
-- stream.
pub run-active_keys :
    (trim : String → String) (es : List Event) (k : String)
    → (count_key k (run trim es new_transport).0.active
        ≡ total k (run trim es new_transport).0.sessions)
      × (total k (run trim es new_transport).0.sessions ≤ 1)
unfolding IsValid new_transport
run-active_keys trim es k =
    let v =
      run-IsValid trim es new_transport
        (record { split = λ k. omega arith; once = λ k. omega arith }) in
    (omega (arith, v.split k), omega (arith, v.once k))
