-- ===== src/Async/Queue/Order.antt =====
-- The worker handles the calls in the order in which they were put, and none is lost or handled twice.
use pyads_agile.Prelude.{
  ℕ, zero, suc, ◌≡◌, refl, sym, ap, ◌∙◌, List, [], ◌∷◌, ◌++◌, append-nil, append_assoc,
}
use pyads_agile.Python.Exec.{Exec}
use pyads_agile.Async.Queue.{
  Item, call, shutdown, Worker, idle, stopped, running, State, new_connection, Event, run,
}
use pyads_agile.Async.Queue.Effects.{
  Effect, flagged_closed, marked, queued, signalled, ended, skipped, started, finished, delivered,
  dropped, revoked, run-keeps,
}

-- 0, 1 and so on, below a number
abbrev pub upto : ℕ → List ℕ
upto zero = []
upto (suc n) = upto n ++ n ∷ []

-- the numbers of the queued calls
abbrev pub queue_ids : {S V : Type 0} → List (Item S V) → List ℕ
queue_ids [] = []
queue_ids (call i fn ∷ q) = i ∷ queue_ids q
queue_ids (shutdown ∷ q) = queue_ids q

-- the number of the call that runs
abbrev pub worker_ids : {S V : Type 0} → Worker S V → List ℕ
worker_ids (running i fn) = i ∷ []
worker_ids idle = []
worker_ids stopped = []

-- The calls that are handled, then the one that runs, then the queued ones are all that were put, in
-- the order in which they were put.
abbrev pub IsOrdered : {S V : Type 0} → State S V → Type 0
IsOrdered s = s.handled ++ (worker_ids s.worker ++ queue_ids s.queue) ≡ upto s.next

pub queue_ids-append :
    {S V : Type 0} (q r : List (Item S V)) → queue_ids (q ++ r) ≡ queue_ids q ++ queue_ids r
queue_ids-append [] r = refl
queue_ids-append (call i fn ∷ q) r = ap (λ t. i ∷ t) (queue_ids-append q r)
queue_ids-append (shutdown ∷ q) r = queue_ids-append q r

module _ {S V : Type 0} where
  Effect-IsOrdered : (s t : State S V) → Effect s t → IsOrdered s → IsOrdered t
  Effect-IsOrdered s _ (flagged_closed e) h = h
  Effect-IsOrdered s _ (marked es g p) h = h
  Effect-IsOrdered s _ (queued fn es g p) h = rw (queue_ids-append s.queue (call s.next fn ∷ [])) (
      ap (λ t. s.handled ++ t)
        (sym (append_assoc (worker_ids s.worker) (queue_ids s.queue) (s.next ∷ [])))
      ∙ sym (append_assoc s.handled (worker_ids s.worker ++ queue_ids s.queue) (s.next ∷ []))
      ∙ ap (λ t. t ++ s.next ∷ []) h)
  Effect-IsOrdered s _ (signalled i e) h =
      rw (queue_ids-append s.queue (shutdown ∷ []), append-nil) h
  Effect-IsOrdered s _ (ended rest e f) h = rw (e, f) at h
  Effect-IsOrdered s _ (skipped i fn rest e f gone) h =
      rw e (append_assoc s.handled (i ∷ []) (queue_ids rest) ∙ (rw (e, f) at h))
  Effect-IsOrdered s _ (started i fn rest e f) h = rw (e, f) at h
  Effect-IsOrdered s _ (finished i fn e) h =
      append_assoc s.handled (i ∷ []) (queue_ids s.queue) ∙ (rw e at h)
  Effect-IsOrdered s _ (delivered i r rest e p) h = h
  Effect-IsOrdered s _ (dropped i r rest e p) h = h
  Effect-IsOrdered s _ (revoked i l p) h = h

  -- From a new connection, in whatever order the threads take their steps: the calls that the worker is
  -- done with, the one that it runs and the queued ones are, one behind the other, all calls that
  -- were ever put, each once and in the order of the puts.
  pub run-IsOrdered :
      (close : Exec S V) (es : List (Event S V)) (sync : S)
      → IsOrdered (run close es (new_connection sync))
  run-IsOrdered close es sync =
      run-keeps close IsOrdered Effect-IsOrdered es (new_connection sync)
        (unfold new_connection in refl)
