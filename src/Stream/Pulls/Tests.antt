-- ===== src/Stream/Pulls/Tests.antt =====
-- Runs of two pull sessions on one transport, and the theorems at one of them.
use Prim.Native.String.{String}
use plug_node.Base.{◌≡◌, ◌≤◌, ◌+◌, refl, true, false, some, List, [], ◌∷◌, All, ltb, if◌then◌else◌}
use plug_node.Identity.{includes}
use plug_node.Values.Number.{whole}
use plug_node.Values.Json.{Json, bool, num, str, obj, end, field, get, member}
use plug_node.Stream.Window.{normalize_window_size}
use plug_node.Stream.Answers.{
  by_success, lacks_error, lacks_ids, has_error, lacks_pull, normalize_pull_response,
  normalize_accepted, normalize_conversation_started, refuses, no_request_id, no_success, no_error,
}
use plug_node.Stream.Pulls.Types.{
  Request, pull_key, resolves, rejects, emits, is_duplicate, timed_out, pull_failed, malformed,
  session_disposed, is_disposed,
}
use plug_node.Stream.Pulls.{
  delete_key, take_where, put, settle_where, reject_where, reject_pending, fits_failure,
  answered_window, resolved_window, response_key, handle_pull_response, handle_terminal,
  asked_window, new_pull, request_pull, expire, abort, dispose, each, at, Event, opens, requests,
  responds, expires, disposes, new_session, step, run, new_transport,
}
use plug_node.Stream.Pulls.Keys.{count_key}
use plug_node.Stream.Pulls.Invariant.{total, run-active_keys}
use plug_node.Stream.Pulls.Promises.{ends}
use plug_node.Stream.Pulls.Settled.{waiting, run_settled}
use plug_node.Stream.Pulls.Windows.{IsSized, run_windows}

pull_code : Unit {0}
unfolding includes get member normalize_window_size by_success lacks_error lacks_ids has_error
    lacks_pull normalize_pull_response normalize_accepted normalize_conversation_started pull_key
    delete_key take_where put settle_where reject_where reject_pending fits_failure answered_window
    resolved_window response_key handle_pull_response handle_terminal asked_window new_pull
    request_pull expire abort dispose each at new_session step run new_transport
pull_code = tt

abbrev same : String → String
same t = t

abbrev pull : String → Request
pull stream_id = record {
  conversation_id = "c";
  request_id = "r";
  stream_id = stream_id;
  window_size = some (num (whole 50));
  encodes = true;
  aborted = false;
  emit_throws = false;
}

abbrev success : String → Json
success stream_id = obj (
    field "success" (bool true) (
      field "conversationId" (str "c") (
        field "requestId" (str "r")
          (field "streamId" (str stream_id) (field "windowSize" (num (whole 2000)) end)))))

abbrev failure : Json
failure = obj (
    field "success" (bool false) (
      field "streamId" (str "t")
        (field "error" (obj (field "code" (str "E") (field "message" (str "m") end))) end)))

abbrev history : List Event
history =
    opens true
    ∷ opens false
    ∷ requests 0 (pull "s")
    ∷ requests 1 (pull "s")
    ∷ requests 1 (pull "t")
    ∷ responds (success "s")
    ∷ requests 1 (pull "s")
    ∷ responds failure
    ∷ disposes 1
    ∷ requests 1 (pull "u")
    ∷ []

history_ends :
    (run same history new_transport).1
    ≡ emits 0 50
      ∷ rejects 1 is_duplicate
      ∷ emits 2 50
      ∷ resolves 0 1000
      ∷ emits 3 50
      ∷ rejects 2 pull_failed
      ∷ rejects 3 session_disposed
      ∷ rejects 4 is_disposed
      ∷ []
unfolding pull_code
history_ends = refl

malformed_ends :
    (run same
      (opens true
        ∷ requests 0 (pull "s")
        ∷ expires 0 0
        ∷ requests 0 (pull "s")
        ∷ responds (bool true)
        ∷ [])
      new_transport).1
    ≡ emits 0 50 ∷ rejects 0 timed_out ∷ emits 1 50 ∷ rejects 1 (malformed no_success) ∷ []
unfolding pull_code
malformed_ends = refl

accepted_checked :
    normalize_accepted same
      (obj (field "success" (bool true) (field "conversationId" (str "c") end)))
    ≡ refuses no_request_id
unfolding pull_code
accepted_checked = refl

started_checked :
    normalize_conversation_started same (obj (field "success" (bool false) end)) ≡ refuses no_error
unfolding pull_code
started_checked = refl

run-active_keys_example :
    (count_key (pull_key "c" "r" "s") (run same history new_transport).0.active
      ≡ total (pull_key "c" "r" "s") (run same history new_transport).0.sessions)
    × (total (pull_key "c" "r" "s") (run same history new_transport).0.sessions ≤ 1)
run-active_keys_example = run-active_keys same history (pull_key "c" "r" "s")

run_settled_example :
    ends 2 (run same history new_transport).1
      + waiting 2 (run same history new_transport).0.sessions
    ≡ (if ltb 2 (run same history new_transport).0.next_id then 1 else 0)
run_settled_example = run_settled 2 same history

run_windows_example : All IsSized (run same history new_transport).1
run_windows_example = run_windows same history new_transport
