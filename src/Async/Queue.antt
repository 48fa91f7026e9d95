-- ===== src/Async/Queue.antt =====
-- `AsyncConnection` of src/pyads/async_connection.py: `_submit`, `_worker_main`, the callbacks that set
-- futures, and `aclose`, as the steps that the threads take in any order.
pub mod Effects
pub mod Order
pub mod Futures
pub mod Closes
pub mod Drain
pub mod Stranded
pub mod Serial
use pyads_agile.Prelude.{
  ℕ, zero, suc, ◌+◌, List, [], ◌∷◌, ◌++◌, Bool, true, false, ◌&&◌, ltb, ◌==◌, if◌then◌else◌, Option,
  none, some, Result, ok, err, runtime_error,
}
use pyads_agile.Python.Exec.{Exec}

-- an `asyncio.Future`
pub data Future (V : Type 0) : Type 0 where
  pending cancelled : Future V
  resolved : Result V → Future V

abbrev pub is_pending : {V : Type 0} → Future V → Bool
is_pending pending = true
is_pending cancelled = false
is_pending (resolved r) = false

abbrev pub is_cancelled : {V : Type 0} → Future V → Bool
is_cancelled cancelled = true
is_cancelled pending = false
is_cancelled (resolved r) = false

-- `_QueuedCall`, by the number of its future, or `_ShutdownSignal`
pub data Item (S V : Type 0) : Type 0 where
  call : ℕ → Exec S V → Item S V
  shutdown : Item S V

-- The worker waits at the queue, runs a call, or has returned.
pub data Worker (S V : Type 0) : Type 0 where
  idle stopped : Worker S V
  running : ℕ → Exec S V → Worker S V

-- How far the `aclose` that has set `_closed` is: before its first `put`, at `await close_future`, at the
-- join of the worker, returned, or ended by what `await` raised.
pub data Closing : Type 0 where
  not_closing flagged joining done failed : Closing
  awaiting : ℕ → Closing

-- `entered` holds the calls whose `_submit` has passed the check of `_closed` and has not yet put
-- them; `next` is the number of the next future; `posted` holds what was handed to
-- `call_soon_threadsafe`, the oldest first, and is run in this order, also where the users have event
-- loops of their own. `handled` lists the calls that the worker took and is done
-- with, `performed` those that it ran and `outcomes` what they returned or raised, the latest last.
pub record State (S V : Type 0) : Type 0 where
  pub closed : Bool
  pub entered : List (Exec S V)
  pub queue : List (Item S V)
  pub worker : Worker S V
  pub next : ℕ
  pub futures : ℕ → Future V
  pub posted : List (ℕ × Result V)
  pub sync : S
  pub closing : Closing
  pub handled : List ℕ
  pub performed : List (ℕ × Exec S V)
  pub outcomes : List (ℕ × Result V)

-- a new `AsyncConnection` around a connection
unfoldable pub new_connection : {S V : Type 0} → S → State S V
new_connection sync = record {
  closed = false;
  entered = [];
  queue = [];
  worker = idle;
  next = 0;
  futures = λ i. pending;
  posted = [];
  sync = sync;
  closing = not_closing;
  handled = [];
  performed = [];
  outcomes = [];
}

-- What may happen next: a `_submit` checks `_closed`, or puts the call that stands at a place among
-- those that were checked; a user cancels a future; the worker takes an item, or finishes its call;
-- the event loop runs the oldest callback; an `aclose` goes on.
pub data Event (S V : Type 0) : Type 0 where
  submit_check : Exec S V → Event S V
  submit_put cancel : ℕ → Event S V
  worker_take worker_run loop_dispatch : Event S V
  close_flag close_put close_resume close_join : Event S V

abbrev pub update : {V : Type 0} → ℕ → Future V → (ℕ → Future V) → ℕ → Future V
update i f futures j = if i == j then f else futures j

-- `_set_result_if_pending` and `_set_exception_if_pending`
unfoldable pub set_if_pending : {V : Type 0} → ℕ → Result V → (ℕ → Future V) → ℕ → Future V
set_if_pending i r futures =
    if is_pending (futures i) then update i (resolved r) futures else futures

-- the element at a place, and the others
abbrev pub pull : {A : Type 0} → ℕ → List A → Option (A × List A)
pull n [] = none
pull zero (x ∷ xs) = some (x, xs)
pull (suc n) (x ∷ xs) = elim (pull n xs) [ none ↦ none | some (y, ys) ↦ some (y, x ∷ ys) ]

module _ {S V : Type 0} where
  -- `with self._state_lock: if self._closed: raise RuntimeError(…)`
  unfoldable pub check_open : State S V → Result (Unit {0})
  check_open s = if s.closed then err runtime_error else ok tt

  -- a new future, and the call put at the end of the queue
  unfoldable pub put_call : Exec S V → State S V → State S V
  put_call fn s = record s { queue = s.queue ++ call s.next fn ∷ []; next = suc s.next }

  pub admit : Exec S V → Result (Unit {0}) → State S V → State S V
  admit fn (err x) s = s
  admit fn (ok u) s = record s { entered = s.entered ++ fn ∷ [] }

  pub put_entered : Option (Exec S V × List (Exec S V)) → State S V → State S V
  unfolding put_call
  put_entered none s = s
  put_entered (some (fn, rest)) s = put_call fn (record s { entered = rest })

  -- a waiting worker gets an item: the shutdown signal ends it, a cancelled call is passed over
  pub take_item : Worker S V → List (Item S V) → State S V → State S V
  take_item idle (shutdown ∷ rest) s = record s { queue = rest; worker = stopped }
  take_item idle (call i fn ∷ rest) s =
      if is_cancelled (s.futures i)
      then record s { queue = rest; handled = s.handled ++ i ∷ [] }
      else record s { queue = rest; worker = running i fn }
  take_item w q s = s

  -- the call of the worker returns or raises, and is posted to the event loop
  pub run_item : Worker S V → State S V → State S V
  run_item (running i fn) s =
      let (r, sync) = fn s.sync in
      record s {
        sync = sync;
        worker = idle;
        posted = s.posted ++ (i, r) ∷ [];
        handled = s.handled ++ i ∷ [];
        performed = s.performed ++ (i, fn) ∷ [];
        outcomes = s.outcomes ++ (i, r) ∷ [];
      }
  run_item w s = s

  pub dispatch : List (ℕ × Result V) → State S V → State S V
  unfolding set_if_pending
  dispatch [] s = s
  dispatch ((i, r) ∷ rest) s = record s { posted = rest; futures = set_if_pending i r s.futures }

  -- what follows `await close_future`
  pub resume_close : Future V → State S V → State S V
  resume_close (resolved (ok v)) s = record s {
    queue = s.queue ++ shutdown ∷ [];
    closing = joining;
  }
  resume_close (resolved (err x)) s = record s { closing = failed }
  resume_close cancelled s = record s { closing = failed }
  resume_close pending s = s

  pub resume_closing : Closing → State S V → State S V
  unfolding resume_close
  resume_closing (awaiting i) s = resume_close (s.futures i) s
  resume_closing c s = s

  pub put_close : Closing → Exec S V → State S V → State S V
  unfolding put_call
  put_close flagged fn s = put_call fn (record s { closing = awaiting s.next })
  put_close c fn s = s

  pub join_worker : Closing → Worker S V → State S V → State S V
  join_worker joining stopped s = record s { closing = done }
  join_worker c w s = s

  module _ (close : Exec S V) where
    -- One step; what cannot happen in a state changes nothing. `close` is the `close` of the
    -- synchronous connection.
    unfoldable pub step : Event S V → State S V → State S V
    unfolding check_open put_call set_if_pending admit put_entered take_item run_item dispatch
        resume_closing put_close join_worker
    step (submit_check fn) s = admit fn (check_open s) s
    step (submit_put k) s = put_entered (pull k s.entered) s
    step (cancel i) s =
        if ltb i s.next && is_pending (s.futures i)
        then record s { futures = update i cancelled s.futures }
        else s
    step worker_take s = take_item s.worker s.queue s
    step worker_run s = run_item s.worker s
    step loop_dispatch s = dispatch s.posted s
    step close_flag s = if s.closed then s else record s { closed = true; closing = flagged }
    step close_put s = put_close s.closing close s
    step close_resume s = resume_closing s.closing s
    step close_join s = join_worker s.closing s.worker s

    unfoldable pub run : List (Event S V) → State S V → State S V
    run [] s = s
    run (e ∷ es) s = run es (step e s)
