-- ===== src/Stream/Pulls.antt =====
-- streamPullSession.ts: the calls of a session, and its handlers.
pub mod Types
pub mod Keys
pub mod Invariant
pub mod Promises
pub mod Settled
pub mod Windows
mod Tests
use Prim.Native.String.{String}
use text.Mathlib.Text.{◌==◌ as str_eq}
use plug_node.Base.{
  ℕ, zero, suc, ◌+◌, Bool, true, false, not, ◌&&◌, ◌||◌, Option, none, some, List, [], ◌∷◌, ◌++◌,
  if◌then◌else◌, ◌==◌, keep_if, get_elem?,
}
use plug_node.Identity.{includes}
use plug_node.Values.Number.{whole, is_positive}
use plug_node.Values.Json.{Json, bool, num, str, Fields, get}
use plug_node.Stream.Window.{
  normalize_window_size, default_relay_pull_window, relay_max_stream_pull_window_size,
}
use plug_node.Stream.Answers.{Refusal, Checked, takes, refuses, normalize_pull_response}
use Types.{
  Pull, Session, Transport, pull_key, key_of, Request, Reason, is_disposed, not_encoded,
  is_duplicate, is_aborted, emit_failed, timed_out, pull_failed, app_error, connect_error,
  disconnected, session_disposed, malformed, Effect, resolves, rejects, emits, Part,
}

abbrev pub part : Session → List String → List Effect → Part
part s active es = record { session = s; active = active; effects = es }

-- `activeKeys.delete(key)`
unfoldable pub delete_key : String → List String → List String
delete_key key active = keep_if (λ k. not (str_eq key k)) active

-- `pending.get(key)` and `pending.delete(key)`: the entry, and the other ones. Also by its number.
pub record Taken : Type 0 where
  pub entry : Pull
  pub rest : List Pull

unfoldable pub take_where : (Pull → Bool) → List Pull → Option Taken
take_where test [] = none
take_where test (e ∷ es) =
    let later = take_where test es in
    if test e
    then some (record { entry = e; rest = es })
    else elim later [ none ↦ none | some t ↦ some (record t { rest = e ∷ t.rest }) ]

-- `pending.set(key, entry)`
unfoldable pub put : Pull → List Pull → List Pull
put e [] = e ∷ []
put e (x ∷ xs) = if str_eq (key_of e) (key_of x) then e ∷ xs else x ∷ put e xs

-- An entry that is found is removed with its key, and its promise ends.
abbrev pub settle : (Pull → Effect) → Session → List String → Option Taken → Part
settle ending s active none = part s active []
settle ending s active (some t) =
    part (record s { pending = t.rest }) (delete_key (key_of t.entry) active) (ending t.entry ∷ [])

unfoldable pub settle_where : (Pull → Bool) → (Pull → Effect) → Session → List String → Part
settle_where test ending s active = settle ending s active (take_where test s.pending)

-- The loops over `pending` that reject entries.
unfoldable pub reject_where : (Pull → Bool) → Reason → List Pull → Session → List String → Part
reject_where test reason [] s active = part (record s { pending = [] }) active []
reject_where test reason (e ∷ es) s active =
    let kept = reject_where test reason es s active in
    let r = reject_where test reason es s (delete_key (key_of e) active) in
    if test e
    then record r { effects = rejects e.id reason ∷ r.effects }
    else record kept { session = record kept.session { pending = e ∷ kept.session.pending } }

-- `rejectPending`
unfoldable pub reject_pending : Reason → Session → List String → Part
reject_pending reason s active = reject_where (λ _. true) reason s.pending s active

-- `response.id !== undefined && response.id !== entry.id`
abbrev pub differs : Option Json → String → Bool
differs none id = false
differs (some (str t)) id = not (str_eq t id)
differs (some _) id = true

unfoldable pub fits_failure : Fields → Pull → Bool
fits_failure fs e = not (
    differs (get "requestId" fs) e.request_id
    || (differs (get "conversationId" fs) e.conversation_id
        || differs (get "streamId" fs) e.stream_id))

-- The size in a success response.
unfoldable pub answered_window : Option Json → ℕ
answered_window (some (num x)) =
    if is_positive x
    then normalize_window_size (some (num x)) default_relay_pull_window
        relay_max_stream_pull_window_size
    else default_relay_pull_window
answered_window _ = default_relay_pull_window

-- The size that `requestPull` resolves to, behind its `then`.
unfoldable pub resolved_window : Option Json → Pull → ℕ
resolved_window size e =
    normalize_window_size (some (num (whole (answered_window size)))) e.window
      relay_max_stream_pull_window_size

abbrev pub as_text : Option Json → Option String
as_text (some (str t)) = some t
as_text _ = none

-- The key of a response whose three ids are texts.
abbrev pub key_of_texts : (conversation_id request_id stream_id : Option String) → Option String
key_of_texts (some c) (some r) (some i) = some (pull_key c r i)
key_of_texts _ _ _ = none

unfoldable pub response_key : Fields → Option String
response_key fs =
    key_of_texts (as_text (get "conversationId" fs)) (as_text (get "requestId" fs))
      (as_text (get "streamId" fs))

abbrev pub answer : Option String → Option Json → Session → List String → Part
answer none size s active = part s active []
answer (some key) size s active =
    settle_where (λ e. str_eq key (key_of e)) (λ e. resolves e.id (resolved_window size e)) s active

-- `response.success` of a checked response.
abbrev pub is_success : Option Json → Bool
is_success (some (bool true)) = true
is_success _ = false

abbrev pub respond : Checked → Session → List String → Part
respond (refuses r) s active = reject_pending (malformed r) s active
respond (takes fs) s active =
    if is_success (get "success" fs)
    then answer (response_key fs) (get "windowSize" fs) s active
    else reject_where (fits_failure fs) pull_failed s.pending s active

-- `handlePullResponse`, while the session listens.
unfoldable pub handle_pull_response : (String → String) → Json → Session → List String → Part
handle_pull_response trim payload s active =
    if s.disposed then part s active [] else respond (normalize_pull_response trim payload) s active

-- `handleAppError`, `handleConnectError` and `handleDisconnect`
unfoldable pub handle_terminal : Reason → Session → List String → Part
handle_terminal reason s active =
    if s.disposed || not s.attached then part s active [] else reject_pending reason s active

-- The asked size, within the hub's maximum.
unfoldable pub asked_window : Request → ℕ
asked_window r =
    normalize_window_size r.window_size default_relay_pull_window relay_max_stream_pull_window_size

unfoldable pub new_pull : ℕ → Request → Pull
new_pull id r = record {
  id = id;
  conversation_id = r.conversation_id;
  request_id = r.request_id;
  stream_id = r.stream_id;
  window = asked_window r;
}

-- `requestPull`, as call number `id`.
unfoldable pub request_pull : ℕ → Request → Session → List String → Part
request_pull id r s active =
    let e = new_pull id r in
    let waiting = record s { pending = put e s.pending } in
    if s.disposed
    then part s active (rejects id is_disposed ∷ [])
    else if not r.encodes
    then part s active (rejects id not_encoded ∷ [])
    else if includes (key_of e) active
    then part s active (rejects id is_duplicate ∷ [])
    else if r.aborted
    then part s active (rejects id is_aborted ∷ [])
    else if r.emit_throws
    then settle_where (λ x. str_eq (key_of e) (key_of x)) (λ x. rejects x.id emit_failed) waiting
        (key_of e ∷ active)
    else part waiting (key_of e ∷ active) (emits id e.window ∷ [])

-- The timer of a call, and the abort of its signal.
unfoldable pub expire : ℕ → Session → List String → Part
expire id s active = settle_where (λ e. e.id == id) (λ e. rejects e.id timed_out) s active

unfoldable pub abort : ℕ → Session → List String → Part
abort id s active = settle_where (λ e. e.id == id) (λ e. rejects e.id is_aborted) s active

unfoldable pub dispose : Session → List String → Part
dispose s active =
    if s.disposed
    then part s active []
    else reject_pending session_disposed (record s { disposed = true }) active

pub record Parts : Type 0 where
  pub sessions : List Session
  pub active : List String
  pub effects : List Effect

-- An event reaches the listeners of each session in turn.
unfoldable pub each : (Session → List String → Part) → List Session → List String → Parts
each f [] active = record { sessions = []; active = active; effects = [] }
each f (s ∷ ss) active =
    let p = f s active in
    let r = each f ss p.active in
    record {
      sessions = p.session ∷ r.sessions;
      active = r.active;
      effects = p.effects ++ r.effects;
    }

-- A call of one session.
unfoldable pub at : ℕ → (Session → List String → Part) → List Session → List String → Parts
at i f [] active = record { sessions = []; active = active; effects = [] }
at zero f (s ∷ ss) active =
    let p = f s active in
    record { sessions = p.session ∷ ss; active = p.active; effects = p.effects }
at (suc i) f (s ∷ ss) active = let r = at i f ss active in record r { sessions = s ∷ r.sessions }

pub data Event : Type 0 where
  opens : (attached : Bool) → Event
  requests : (i : ℕ) → Request → Event
  responds : Json → Event
  terminates : Reason → Event
  expires aborts : (i id : ℕ) → Event
  disposes : (i : ℕ) → Event

unfoldable pub new_session : Bool → Session
new_session attached = record { pending = []; disposed = false; attached = attached }

abbrev pub with : Transport → Parts → Transport × List Effect
with t p = (record t { sessions = p.sessions; active = p.active }, p.effects)

-- A call of `requestPull` on a session that is there.
abbrev pub requested : Transport → ℕ → Request → Option Session → Transport × List Effect
requested t i r none = (t, [])
requested t i r (some s) =
    with (record t { next_id = t.next_id + 1 })
      (at i (request_pull t.next_id r) t.sessions t.active)

unfoldable pub step : (String → String) → Event → Transport → Transport × List Effect
step trim (opens attached) t = (record t { sessions = t.sessions ++ new_session attached ∷ [] }, [])
step trim (requests i r) t = requested t i r (get_elem? t.sessions i)
step trim (responds payload) t =
    with t (each (handle_pull_response trim payload) t.sessions t.active)
step trim (terminates reason) t = with t (each (handle_terminal reason) t.sessions t.active)
step trim (expires i id) t = with t (at i (expire id) t.sessions t.active)
step trim (aborts i id) t = with t (at i (abort id) t.sessions t.active)
step trim (disposes i) t = with t (at i dispose t.sessions t.active)

unfoldable pub run : (String → String) → List Event → Transport → Transport × List Effect
run trim [] t = (t, [])
run trim (e ∷ es) t = let m = step trim e t in let r = run trim es m.0 in (r.0, m.1 ++ r.1)

unfoldable pub new_transport : Transport
new_transport = record { sessions = []; active = []; next_id = 0 }
