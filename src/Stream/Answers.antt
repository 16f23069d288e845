-- ===== src/Stream/Answers.antt =====
-- relaySessionNormalization.ts: the checks of the hub's control payloads. `trim` is the language's.
-- A payload that is refused, with the cause of the error; a payload that is taken stays as it is.
use Prim.Native.String.{String}
use text.Mathlib.Text.{◌==◌ as str_eq}
use plug_node.Base.{Bool, true, false, not, ◌&&◌, Option, none, some, if◌then◌else◌}
use plug_node.Values.Number.{is_positive_integer}
use plug_node.Values.Json.{Json, bool, num, str, obj, Fields, get, member}

pub data Refusal : Type 0 where
  no_success no_conversation_id no_request_id no_stream_id no_window_size no_error : Refusal

pub data Checked : Type 0 where
  takes : Fields → Checked
  refuses : Refusal → Checked

-- `isNonEmptyString`
abbrev pub is_non_empty_string : (trim : String → String) → Option Json → Bool
is_non_empty_string trim (some (str t)) = not (str_eq (trim t) "")
is_non_empty_string trim _ = false

-- `isPositiveInteger`
abbrev pub has_positive_integer : Option Json → Bool
has_positive_integer (some (num x)) = is_positive_integer x
has_positive_integer _ = false

-- `isRecord(error)` with a code and a message.
unfoldable pub has_error : (trim : String → String) → Fields → Bool
has_error trim fs =
    let error = get "error" fs in
    is_non_empty_string trim (member "code" error)
    && is_non_empty_string trim (member "message" error)

-- A payload with a `success` flag, checked by a test for each of its values.
unfoldable pub by_success : (succeeded failed : Fields → Option Refusal) → Json → Checked
by_success succeeded failed (obj fs) = elim (get "success" fs) [
  | some (bool true) ↦ elim (succeeded fs) [ none ↦ takes fs | some r ↦ refuses r ]
  | some (bool false) ↦ elim (failed fs) [ none ↦ takes fs | some r ↦ refuses r ]
  | _ ↦ refuses no_success
]
by_success succeeded failed _ = refuses no_success

unfoldable pub lacks_error : (trim : String → String) → Fields → Option Refusal
lacks_error trim fs = if has_error trim fs then none else some no_error

abbrev pub lacks_conversation_id : (trim : String → String) → Fields → Option Refusal
lacks_conversation_id trim fs =
    if is_non_empty_string trim (get "conversationId" fs) then none else some no_conversation_id

unfoldable pub lacks_ids : (trim : String → String) → Fields → Option Refusal
lacks_ids trim fs =
    if not (is_non_empty_string trim (get "conversationId" fs))
    then some no_conversation_id
    else if not (is_non_empty_string trim (get "requestId" fs))
    then some no_request_id
    else none

unfoldable pub lacks_pull : (trim : String → String) → Fields → Option Refusal
lacks_pull trim fs =
    if not (is_non_empty_string trim (get "conversationId" fs))
    then some no_conversation_id
    else if not (is_non_empty_string trim (get "requestId" fs))
    then some no_request_id
    else if not (is_non_empty_string trim (get "streamId" fs))
    then some no_stream_id
    else if not (has_positive_integer (get "windowSize" fs))
    then some no_window_size
    else none

-- `normalizeRelayConversationStarted`
unfoldable pub normalize_conversation_started : (trim : String → String) → Json → Checked
normalize_conversation_started trim payload =
    by_success (lacks_conversation_id trim) (lacks_error trim) payload

-- `normalizeRelayAcceptedPayload`
unfoldable pub normalize_accepted : (trim : String → String) → Json → Checked
normalize_accepted trim payload = by_success (lacks_ids trim) (lacks_error trim) payload

-- `normalizeRelayStreamPullResponse`
unfoldable pub normalize_pull_response : (trim : String → String) → Json → Checked
normalize_pull_response trim payload = by_success (lacks_pull trim) (lacks_error trim) payload
