-- ===== src/Trigger/Backpressure.antt =====
-- triggerBackpressureQueue.ts: the operations of the queue between the socket and the workflow.
-- A step runs a handler of the queue or one part of a promise chain to its end, since the event
-- loop does not interrupt either.
pub mod Types
pub mod Started
pub mod Offers
pub mod Invariant
pub mod Order
pub mod Outcome
pub mod Accounts
pub mod Closed
mod Tests
use plug_node.Base.{
  ◌≡◌, inl, inr, Option-cases, ℕ, ◌+◌, ◌-◌, ◌*◌, ◌/◌, Bool, true, false, not, ◌&&◌, none, some,
  List, [], ◌∷◌, ◌++◌, ltb, leb, if◌then◌else◌, length, is_empty, get_elem?, set, erase_idx,
}
use Types.{
  Policy, fail, drop_newest, drop_oldest, Config, Task, Run, State, enqueuing, settling, logging,
  starting, Clock, Reason, on_drop, on_drain, Snapshot, starts, drops, reports_drop, reports_limit,
  reports_failure, logs, Turn,
}

-- `count > 0 ? Math.round(total / count) : 0`; Math.round takes a half up.
unfoldable pub average : ℕ → ℕ → ℕ
average total count = if ltb 0 count then (2 * total + count) / (2 * count) else 0

unfoldable pub get_stats : State → Snapshot
get_stats s = record {
  queued_count = length s.queue;
  inflight_count = s.inflight;
  started_count = s.started_count;
  processed_count = s.processed_count;
  failed_count = s.failed_count;
  dropped_newest_count = s.dropped_newest_count;
  dropped_oldest_count = s.dropped_oldest_count;
  average_queue_latency_ms = average s.total_queue_latency_ms s.started_count;
  average_processing_ms = average s.total_processing_ms (s.processed_count + s.failed_count);
}

abbrev pub interval_of : Config → ℕ
interval_of c = elim c.stats_log_interval_ms [ none ↦ 30000 | some ms ↦ ms ]

abbrev pub is_drop : Reason → Bool
is_drop on_drop = true
is_drop on_drain = false

unfoldable pub maybe_log_stats : Config → Clock → Reason → State → Turn
maybe_log_stats c clock reason s =
    if c.has_on_stats
      && not
          (not (is_drop reason) && ltb (clock logging) (s.last_stats_logged_at_ms + interval_of c))
    then (record s { last_stats_logged_at_ms = clock logging }, logs (get_stats s) reason ∷ [])
    else (s, [])

-- One part of a handler after another: the effects follow in order.
infixl 5 ◌>>=◌
abbrev pub ◌>>=◌ : Turn → (State → Turn) → Turn
m >>= f = let r = f m.0 in (r.0, m.1 ++ r.1)

-- One round of the `while` loop of `drain`.
pub start : Clock → Task → State → State
start clock t s =
    let now = clock (starting t.id) in
    record s {
      runs = s.runs ++ record { id = t.id; started_at_ms = now; counted = false } ∷ [];
      inflight = s.inflight + 1;
      started_count = s.started_count + 1;
      total_queue_latency_ms = s.total_queue_latency_ms + (now - t.enqueued_at_ms);
    }

pub drain_loop : Config → Clock → List Task → State → Turn
drain_loop c clock [] s = (record s { queue = [] }, [])
drain_loop c clock (t ∷ queue) s =
    let rest = drain_loop c clock queue (start clock t s) in
    if ltb s.inflight c.max_inflight_events
    then (rest.0, starts t.id ∷ rest.1)
    else (record s { queue = t ∷ queue }, [])

pub drain : Config → Clock → State → Turn
drain c clock s = if s.closed then (s, []) else drain_loop c clock s.queue s

pub admit : Config → Clock → Task → State → Turn
admit c clock t s = drain c clock (record s { queue = s.queue ++ t ∷ [] })

-- `onDrop`, the report if it is wanted, and the statistics.
pub dropped : Config → Clock → Policy → State → Turn
dropped c clock policy s =
    let report = if c.report_drop_as_error then reports_drop policy (length s.queue) ∷ [] else [] in
    let logged = maybe_log_stats c clock on_drop s in
    (logged.0, drops policy (length s.queue) ∷ report ++ logged.1)

abbrev pub count_newest : State → State
count_newest s = record s { dropped_newest_count = s.dropped_newest_count + 1 }

abbrev pub count_oldest : State → State
count_oldest s = record s { dropped_oldest_count = s.dropped_oldest_count + 1 }

-- `queue.length >= maxQueueSize` without any capacity.
pub overflow_none : Config → Clock → Policy → State → Turn
overflow_none c clock drop_newest s = dropped c clock drop_newest (count_newest s)
overflow_none c clock drop_oldest s = dropped c clock drop_oldest (count_oldest s)
overflow_none c clock fail s = (s, reports_limit ∷ [])

-- `dropOldest` on a full queue: its head makes room.
pub replace_oldest : Config → Clock → Task → List Task → State → Turn
replace_oldest c clock t [] s = dropped c clock drop_oldest (count_oldest s)
replace_oldest c clock t (_ ∷ queue) s =
    dropped c clock drop_oldest (count_oldest (record s { queue = queue })) >>= admit c clock t

pub overflow : Config → Clock → Task → Policy → State → Turn
overflow c clock t drop_newest s = dropped c clock drop_newest (count_newest s)
overflow c clock t drop_oldest s = replace_oldest c clock t s.queue s
overflow c clock t fail s = (s, reports_limit ∷ [])

pub enqueue : Config → Clock → ℕ → State → Turn
enqueue c clock id s =
    let t : Task = record { id = id; enqueued_at_ms = clock enqueuing } in
    if s.closed
    then (s, [])
    else if ltb s.inflight c.max_inflight_events && is_empty s.queue
    then admit c clock t s
    else if leb c.max_queue_size (length s.queue)
    then (if leb c.max_queue_size 0
        then overflow_none c clock c.overflow_policy s
        else overflow c clock t c.overflow_policy s)
    else admit c clock t s

abbrev mark_counted : ℕ → Run → State → State
mark_counted i r s = record s { runs = set s.runs i (record r { counted = true }) }

-- `.then` of the promise at a position.
pub fulfil_run : ℕ → Run → State → Turn
fulfil_run i r s =
    if r.counted
    then (s, [])
    else (mark_counted i r (record s { processed_count = s.processed_count + 1 }), [])

-- `.catch`: after `close` a failure is not counted any more.
pub reject_run : ℕ → Run → State → Turn
reject_run i r s = if r.counted then (s, []) else if s.closed then (mark_counted i r s, []) else (
  mark_counted i r (record s { failed_count = s.failed_count + 1 }),
  reports_failure r.id ∷ [],
)

-- `.finally`
pub finish_run : Config → Clock → ℕ → Run → State → Turn
finish_run c clock i r s =
    let ended = record s {
      runs = erase_idx s.runs i;
      inflight = s.inflight - 1;
      total_processing_ms = s.total_processing_ms + (clock settling - r.started_at_ms);
    } in
    if r.counted then maybe_log_stats c clock on_drain ended >>= drain c clock else (s, [])

abbrev pub at_run : State → ℕ → (Run → Turn) → Turn
at_run s i f = elim (get_elem? s.runs i) [ none ↦ (s, []) | some r ↦ f r ]

-- What holds of the turn of each run, and of nothing, holds of a turn at a position.
pub at_run_cases {ℓ} :
    (P : Turn → Type ℓ) (s : State) (i : ℕ) (f : Run → Turn)
    → P (s, [])
    → ((r : Run) → get_elem? s.runs i ≡ some r → P (f r))
    → P (at_run s i f)
at_run_cases P s i f missing found = elim (Option-cases (get_elem? s.runs i)) [
  | inl e ↦ rw (e, at_run) missing
  | inr (r, e) ↦ rw (e, at_run) (found r e)
]

pub fulfil : ℕ → State → Turn
fulfil i s = at_run s i (λ r. fulfil_run i r s)

pub reject : ℕ → State → Turn
reject i s = at_run s i (λ r. reject_run i r s)

pub finish : Config → Clock → ℕ → State → Turn
finish c clock i s = at_run s i (λ r. finish_run c clock i r s)

pub close : State → State
close s = record s { closed = true; queue = [] }

-- What the event loop does next; a promise is named by its position among the runs.
pub data Event : Type 0 where
  enqueues fulfils rejects finishes : ℕ → Event
  closes : Event

pub step : Config → Clock × Event → State → Turn
step c (clock, enqueues id) s = enqueue c clock id s
step c (clock, fulfils i) s = fulfil i s
step c (clock, rejects i) s = reject i s
step c (clock, finishes i) s = finish c clock i s
step c (clock, closes) s = (close s, [])

pub run : Config → List (Clock × Event) → State → Turn
run c [] s = (s, [])
run c (e ∷ es) s = step c e s >>= run c es
