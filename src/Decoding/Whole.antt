-- ===== src/Decoding/Whole.antt =====
-- parallelChunkDecode.ts: the events of a queue that stays open, and of which no task is aborted.
use plug_node.Base.{
  ℕ, ◌+◌, ◌≡◌, refl, ap, sym, ◌∙◌, Bool, true, false, List, [], ◌∷◌, ◌++◌, every, arith, ltb,
  append_assoc, append-nil, map-append, is_empty, at_if, and-true,
}
use plug_node.Decoding.Types.{Limits, Decode, Apply, Task, State, Turn}
use plug_node.Decoding.{
  ◌>>=◌, apply_ready, take_task, begin_decode, pump_loop, pump, new_task, enqueue,
}
use plug_node.Decoding.Line.{
  applied_ids, ids, waiting_of, waiting, line, numbers, numbers-append, applied_ids-append,
}
use plug_node.Decoding.Turns.{pump_loop-Pumps}
use plug_node.Decoding.Alive.{every-append}
use plug_node.Decoding.Exact.{
  is_uncancelled, Plain, absurd_closed, Exactly, OpenExactly, apply_ready-Exactly,
}

take_task-uncancelled : (t : Task) → is_uncancelled t ≡ true → is_uncancelled (take_task t) ≡ true
unfolding take_task
take_task-uncancelled t h = ground (arith, h)

pump_loop-uncancelled :
    (l : Limits) (ts : List Task) (s : State)
    → every is_uncancelled ts ≡ true
    → every is_uncancelled (pump_loop l ts s).0 ≡ true
unfolding pump_loop
pump_loop-uncancelled l [] s u = refl
pump_loop-uncancelled l (t ∷ ts) s u =
    let Goal : List Task × Turn → Type 0 = λ r. every is_uncancelled r.0 ≡ true in
    let (first, rest) = and-true (is_uncancelled t) (every is_uncancelled ts) u in
    at_if Goal t.taken _ _ (λ _. rw (first, pump_loop-uncancelled l ts s rest) refl)
      λ _.
        at_if Goal (ltb s.active l.max_parallel) _ _
          (λ _.
            let b = (begin_decode t s).0 in
            rw (take_task-uncancelled t first, pump_loop-uncancelled l ts b rest) refl)
          λ _. u

is_empty-ids : (ts : List Task) → is_empty (ids ts) ≡ is_empty ts
is_empty-ids [] = refl
is_empty-ids (t ∷ ts) = refl

pub same_ids-empty : (ts us : List Task) → ids ts ≡ ids us → is_empty ts ≡ is_empty us
same_ids-empty ts us e = sym (is_empty-ids ts) ∙ ap is_empty e ∙ is_empty-ids us

pump-Exactly : (l : Limits) (s : State) → Plain s → Exactly (waiting s) s.next_id (pump l s)
unfolding pump
pump-Exactly l s p =
    at_if (Exactly (waiting s) s.next_id) s.closed _ _
      (λ _. record { plain = p; exact = refl; next = refl })
      λ _.
        let a = pump_loop-Pumps l s.tasks s in
        record {
          plain = record {
            uncancelled = pump_loop-uncancelled l s.tasks s p.uncancelled;
            busy = λ h.
                same_ids-empty (pump_loop l s.tasks s).0 s.tasks a.ids
                ∙ p.busy (sym a.applying ∙ h);
          };
          exact = rw (a.nothing, a.ids, a.applying, a.closed) refl;
          next = a.next;
        }

pub >>=-Exactly :
    (given : List ℕ) (count : ℕ) (m : Turn) (f : State → Turn)
    → Exactly given count m
    → Exactly (waiting m.0) m.0.next_id (f m.0)
    → Exactly given count (m >>= f)
>>=-Exactly given count m f a b = record {
  plain = b.plain;
  exact =
      rw
        (
          applied_ids-append m.1 (f m.0).1,
          append_assoc (applied_ids m.1) (applied_ids (f m.0).1) (waiting (f m.0).0),
          b.exact,
        )
        a.exact;
  next = b.next ∙ a.next;
}

pub pumped-Exactly :
    (l : Limits) (s : State)
    → Plain s
    → OpenExactly (waiting s) s.next_id (pump l s >>= apply_ready)
pumped-Exactly l s p live =
    let m = pump-Exactly l s p in
    >>=-Exactly _ _ (pump l s) apply_ready m (apply_ready-Exactly (pump l s).0 m.plain live)

-- A turn that takes in `new` tasks at the end, and loses none.
pub record Extends (new : ℕ) (s : State) (r : Turn) : Type 0 where
  pub plain : Plain r.0
  pub next : r.0.next_id ≡ s.next_id + new
  pub exact : line r ≡ waiting s ++ numbers s.next_id new

abbrev pub OpenExtends : ℕ → State → Turn → Type 0
OpenExtends new s r = r.0.closed ≡ false → Extends new s r

pub Exactly-Extends : (s : State) (r : Turn) → Exactly (waiting s) s.next_id r → Extends 0 s r
Exactly-Extends s r q = record {
  plain = q.plain;
  next = omega (arith, q.next);
  exact = rw append-nil q.exact;
}

pub same-Exactly : (s : State) → Plain s → Exactly (waiting s) s.next_id (s, [])
same-Exactly s p = record { plain = p; exact = refl; next = refl }

pub >>=-Extends :
    (n k : ℕ) (s : State) (m : Turn) (f : State → Turn)
    → Extends n s m
    → Extends k m.0 (f m.0)
    → Extends (n + k) s (m >>= f)
>>=-Extends n k s m f a b = record {
  plain = b.plain;
  next = omega (arith, a.next, b.next);
  exact =
      rw
        (
          applied_ids-append m.1 (f m.0).1,
          append_assoc (applied_ids m.1) (applied_ids (f m.0).1) (waiting (f m.0).0),
          b.exact,
          ← append_assoc (applied_ids m.1) (waiting m.0) (numbers m.0.next_id k),
          a.exact,
          a.next,
          numbers-append s.next_id n k,
        )
        (append_assoc (waiting s) (numbers s.next_id n) _);
}

is_empty-snoc : (ts : List Task) (t : Task) → is_empty (ts ++ t ∷ []) ≡ false
is_empty-snoc [] t = refl
is_empty-snoc (u ∷ ts) t = refl

waiting_of-snoc :
    (closed applying : Bool) (ts us : List Task) (id : ℕ)
    → closed ≡ false
    → (applying ≡ true → is_empty ts ≡ false)
    → ids us ≡ ids ts ++ id ∷ []
    → waiting_of closed applying (ids us) ≡ waiting_of closed applying (ids ts) ++ id ∷ []
waiting_of-snoc true applying ts us id live busy e = absurd_closed refl live
waiting_of-snoc false false ts us id live busy e = e
waiting_of-snoc false true [] us id live busy e = absurd_closed refl (busy refl)
waiting_of-snoc false true (t ∷ ts) us id live busy e = rw e refl

pub enqueue-Extends :
    (l : Limits) (d : Decode) (a : Apply) (bytes : ℕ) (s : State)
    → Plain s
    → OpenExtends 1 s (enqueue l d a bytes s)
unfolding enqueue new_task
enqueue-Extends l d a bytes s p =
    at_if (OpenExtends 1 s) s.closed _ _ (λ shut live. absurd_closed shut live)
      λ live shown.
        let task : Task = new_task s.next_id d a bytes in
        let begun : State = record s { next_id = s.next_id + 1; tasks = s.tasks ++ task ∷ [] } in
        let all : every is_uncancelled begun.tasks ≡ true =
          rw (every-append is_uncancelled s.tasks (task ∷ []), p.uncancelled) refl in
        let q =
          pumped-Exactly l begun
            (record { uncancelled = all; busy = λ _. is_empty-snoc s.tasks task }) shown in
        record {
          plain = q.plain;
          next = q.next;
          exact =
              q.exact
              ∙ waiting_of-snoc s.closed s.applying s.tasks begun.tasks s.next_id live p.busy
                  (map-append (λ (t : Task). t.id) s.tasks (task ∷ []));
        }
