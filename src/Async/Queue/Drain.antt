-- ===== src/Async/Queue/Drain.antt =====
-- Every call that was put is answered when the threads go on, as long as the connection is not closed.
use pyads_agile.Prelude.{
  ◌<◌, ℕ, zero, suc, ◌≡◌, refl, sym, subst, ==→eq, ◌∙◌, List, [], ◌∷◌, ◌++◌, append-nil, Bool, true,
  false, Result, ◌==◌, if◌then◌else◌, Bool-cases, inl, inr, arith, All,
}
use pyads_agile.Python.Exec.{Exec}
use pyads_agile.Async.Queue.{
  is_pending, is_cancelled, Item, call, shutdown, Worker, idle, stopped, running, State,
  new_connection, Event, worker_take, worker_run, loop_dispatch, take_item, run_item, dispatch,
  step, run,
}
use pyads_agile.Async.Queue.Effects.{run-append, is_ending}
use pyads_agile.Async.Queue.Order.{upto, IsOrdered, run-IsOrdered}
use pyads_agile.Async.Queue.Futures.{IsPosted, IsServed, AllServed, run-AllServed}
use pyads_agile.Async.Queue.Closes.{AllCalls, IsAlive, run-IsOpen}

-- the worker takes and runs the queued items
abbrev pub serve : {S V : Type 0} → List (Item S V) → List (Event S V)
serve [] = []
serve (x ∷ q) = worker_take ∷ worker_run ∷ serve q

-- the event loop runs the callbacks that wait
abbrev pub deliver : {S V : Type 0} → List (ℕ × Result V) → List (Event S V)
deliver [] = []
deliver (p ∷ ps) = loop_dispatch ∷ deliver ps

record IsServedUp {S V : Type 0} (n : ℕ) (s : State S V) : Type 0 where
  worker : s.worker ≡ idle
  queue : s.queue ≡ []
  next : s.next ≡ n

record IsDelivered {S V : Type 0} (s t : State S V) : Type 0 where
  worker : t.worker ≡ s.worker
  queue : t.queue ≡ s.queue
  next : t.next ≡ s.next
  posted : t.posted ≡ []

All-front : (P : ℕ → Type 0) (front back : List ℕ) → All P (front ++ back) → All P front
All-front P [] back h = tt
All-front P (x ∷ front) back h = (h.0, All-front P front back h.1)

All-back : (P : ℕ → Type 0) (front back : List ℕ) → All P (front ++ back) → All P back
All-back P [] back h = h
All-back P (x ∷ front) back h = All-back P front back h.1

upto-lookup : (P : ℕ → Type 0) (n i : ℕ) → i < n → All P (upto n) → P i
upto-lookup P zero i l h = absurd (omega arith)
upto-lookup P (suc n) i l h = elim (Bool-cases (i == n)) [
  | inl same ↦ subst P (sym (==→eq i n same)) (All-back P (upto n) (n ∷ []) h).0
  | inr other ↦ upto-lookup P n i (ground arith) (All-front P (upto n) (n ∷ []) h)
]

module _ {S V : Type 0} where
  run_item-one :
      (gone : Bool) (i : ℕ) (fn : Exec S V) (rest : List (Item S V)) (s : State S V)
      → s.worker ≡ idle
      → let t =
          if gone
          then record s { queue = rest; handled = s.handled ++ i ∷ [] }
          else record s { queue = rest; worker = running i fn } in
        ((run_item t.worker t).worker ≡ idle)
        × ((run_item t.worker t).queue ≡ rest)
        × ((run_item t.worker t).next ≡ s.next)
  unfolding run_item
  run_item-one true i fn rest s e = rw e (refl, refl, refl)
  run_item-one false i fn rest s e = (refl, refl, refl)

  module _ (close : Exec S V) where
    step-one :
        (i : ℕ) (fn : Exec S V) (rest : List (Item S V)) (s : State S V)
        → s.worker ≡ idle
        → s.queue ≡ call i fn ∷ rest
        → let t = step close worker_run (step close worker_take s) in
          (t.worker ≡ idle) × (t.queue ≡ rest) × (t.next ≡ s.next)
    unfolding step take_item
    step-one i fn rest s e f =
        rw (e, f)
          (run_item-one (is_cancelled (s.futures i)) i fn rest (record s { worker = idle }) refl)

    run-serve :
        (q : List (Item S V)) (s : State S V)
        → AllCalls q
        → s.worker ≡ idle
        → s.queue ≡ q
        → IsServedUp s.next (run close (serve q) s)
    unfolding run
    run-serve [] s c e f = record { worker = e; queue = f; next = refl }
    run-serve (shutdown ∷ q) s c e f = absurd c
    run-serve (call i fn ∷ q) s c e f =
        let t = step close worker_run (step close worker_take s) in
        let (g, h, n) = step-one i fn q s e f in
        subst (λ m. IsServedUp m (run close (serve q) t)) n (run-serve q t c g h)

    step-deliver :
        (p : ℕ × Result V) (ps : List (ℕ × Result V)) (s : State S V)
        → s.posted ≡ p ∷ ps
        → let t = step close loop_dispatch s in
          (t.worker ≡ s.worker) × (t.queue ≡ s.queue) × (t.next ≡ s.next) × (t.posted ≡ ps)
    unfolding step dispatch
    step-deliver (i, r) ps s e = rw e (refl, refl, refl, refl)

    run-deliver :
        (ps : List (ℕ × Result V)) (s : State S V)
        → s.posted ≡ ps
        → IsDelivered s (run close (deliver ps) s)
    unfolding run
    run-deliver [] s e = record { worker = refl; queue = refl; next = refl; posted = e }
    run-deliver (p ∷ ps) s e =
        let t = step close loop_dispatch s in
        let (a, b, c, d) = step-deliver p ps s e in
        let h = run-deliver ps t d in
        record { worker = h.worker ∙ a; queue = h.queue ∙ b; next = h.next ∙ c; posted = h.posted }

    -- The worker ends its call.
    step-finish :
        (w : Worker S V) (s : State S V)
        → s.worker ≡ w
        → IsAlive w
        → let t = step close worker_run s in
          (t.worker ≡ idle) × (t.queue ≡ s.queue) × (t.next ≡ s.next)
    unfolding step run_item
    step-finish idle s e a = rw e (refl, refl, refl)
    step-finish (running i fn) s e a = rw e (refl, refl, refl)
    step-finish stopped s e a = absurd a

    -- What remains to be done: the call that runs, the queued ones, and the callbacks.
    pub working : State S V → List (Event S V)
    working s = worker_run ∷ serve s.queue

    pub settle : State S V → List (Event S V)
    settle s = working s ++ deliver (run close (working s) s).posted

    run-working :
        (s : State S V)
        → AllCalls s.queue
        → IsAlive s.worker
        → IsServedUp s.next (run close (working s) s)
    unfolding working run
    run-working s c a =
        let t = step close worker_run s in
        let (g, h, n) = step-finish s.worker s refl a in
        subst (λ m. IsServedUp m (run close (serve s.queue) t)) n (run-serve s.queue t c g h)

    run-settle :
        (s : State S V)
        → AllCalls s.queue
        → IsAlive s.worker
        → IsServedUp s.next (run close (settle s) s) × ((run close (settle s) s).posted ≡ [])
    unfolding settle
    run-settle s c a =
        let t = run close (working s) s in
        let u = run-working s c a in
        let d = run-deliver t.posted t refl in
        subst (λ v. IsServedUp s.next v × (v.posted ≡ []))
          (sym (run-append close (working s) (deliver t.posted) s))
          (
            record {
              worker = d.worker ∙ u.worker;
              queue = d.queue ∙ u.queue;
              next = d.next ∙ u.next;
            },
            d.posted,
          )

    served-up :
        (s : State S V) (n i : ℕ)
        → IsServedUp n s
        → s.posted ≡ []
        → IsOrdered s
        → AllServed s
        → i < n
        → is_pending (s.futures i) ≡ false
    served-up s n i u p o a l =
        let all = rw (u.worker, u.queue, append-nil, u.next) at o in
        let b = subst (All (IsServed s)) all a in
        elim (upto-lookup (IsServed s) n i l b) [
          | inl answered ↦ answered
          | inr waits ↦ absurd (subst (IsPosted i) p waits)
        ]

    -- From a new connection, in whatever order the threads have taken their steps: unless `aclose` was
    -- called, the worker and the event loop can go on, one step after the other, until the future
    -- of every call that was put is done.
    pub run-settle-answers :
        (es : List (Event S V)) (sync : S) (i : ℕ)
        → (run close es (new_connection sync)).closed ≡ false
        → i < (run close es (new_connection sync)).next
        → is_pending (
            (run close
                (settle (run close es (new_connection sync)))
                (run close es (new_connection sync))).futures
              i)
          ≡ false
    run-settle-answers es sync i o l =
        let s = run close es (new_connection sync) in
        let h = run-IsOpen close es sync in
        let quiet = subst (λ c. is_ending c ≡ false) (sym (h.unflagged o)) refl in
        let (u, p) = run-settle s (h.calls quiet) (h.alive quiet) in
        let fs = es ++ settle s in
        let same = run-append close es (settle s) (new_connection sync) in
        served-up (run close (settle s) s) s.next i u p
          (subst IsOrdered same (run-IsOrdered close fs sync))
          (subst AllServed same (run-AllServed close fs sync)) l
