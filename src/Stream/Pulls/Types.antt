-- ===== src/Stream/Pulls/Types.antt =====
-- streamPullSession.ts: the pulls that wait for an answer. A transport has the keys of all its
-- sessions' pulls in one set. Each call of `requestPull` has a number.
use Prim.Native.String.{String, ◌++◌ as ◌+++◌}
use plug_node.Base.{ℕ, Bool, Option, List}
use plug_node.Values.Json.{Json}
use plug_node.Stream.Answers.{Refusal}

-- An entry of `pending`: its timer runs, and its abort listener listens, as long as it is there.
-- `window` is the size that was asked for.
pub record Pull : Type 0 where
  pub id : ℕ
  pub conversation_id : String
  pub request_id : String
  pub stream_id : String
  pub window : ℕ

-- `attached` is `attachTerminalListeners`.
pub record Session : Type 0 where
  pub pending : List Pull
  pub disposed : Bool
  pub attached : Bool

pub record Transport : Type 0 where
  pub sessions : List Session
  pub active : List String
  pub next_id : ℕ

-- `pullKey`
unfoldable pub pull_key : (conversation_id request_id stream_id : String) → String
pull_key c r s = c +++ ("\0" +++ (r +++ ("\0" +++ s)))

abbrev pub key_of : Pull → String
key_of e = pull_key e.conversation_id e.request_id e.stream_id

-- The input of `requestPull`, and what the calls in it do: whether the frame can be encoded, whether
-- the signal is aborted, and whether `emit` throws.
pub record Request : Type 0 where
  pub conversation_id : String
  pub request_id : String
  pub stream_id : String
  pub window_size : Option Json
  pub encodes : Bool
  pub aborted : Bool
  pub emit_throws : Bool

pub data Reason : Type 0 where
  is_disposed not_encoded is_duplicate is_aborted emit_failed timed_out : Reason
  pull_failed app_error connect_error disconnected session_disposed : Reason
  malformed : Refusal → Reason

-- The end of a call's promise, and the message to the hub.
pub data Effect : Type 0 where
  resolves : (id window : ℕ) → Effect
  rejects : (id : ℕ) → Reason → Effect
  emits : (id window : ℕ) → Effect

-- A session with the transport's keys, and what has been done.
pub record Part : Type 0 where
  pub session : Session
  pub active : List String
  pub effects : List Effect
