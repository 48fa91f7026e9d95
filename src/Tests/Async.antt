-- ===== src/Tests/Async.antt =====
-- Schedules of an asynchronous connection around a connection that counts its calls.
use pyads_agile.Prelude.{
  ℕ, ◌+◌, ◌≡◌, refl, List, [], ◌∷◌, false, inl, ok, err, runtime_error, arith,
}
use pyads_agile.Python.Exec.{Exec}
use pyads_agile.Async.Queue.{
  resolved, is_pending, stopped, failed, new_connection, Event, submit_check, submit_put, cancel,
  worker_take, worker_run, loop_dispatch, close_flag, close_put, close_resume, close_join, step,
  run, set_if_pending, put_call, check_open,
}
use pyads_agile.Async.Queue.Order.{IsOrdered, run-IsOrdered, queue_ids}
use pyads_agile.Async.Queue.Serial.{IsSerial, run-IsSerial}
use pyads_agile.Async.Queue.Futures.{run-futures}
use pyads_agile.Async.Queue.Closes.{IsAlive, AllCalls, run-closing-failed}
use pyads_agile.Async.Queue.Drain.{settle, run-settle-answers}
use pyads_agile.Async.Queue.Stranded.{run-futures-stranded}

-- the call returns how many calls came before it
abbrev count : Exec ℕ ℕ
count n = (ok n, n + 1)

abbrev refuses : Exec ℕ ℕ
refuses n = (err runtime_error, n)

-- two users submit, the first call is cancelled after both were put
abbrev two_submits : List (Event ℕ ℕ)
two_submits =
    submit_check count
    ∷ submit_check count
    ∷ submit_put 1
    ∷ submit_put 0
    ∷ submit_check count
    ∷ submit_put 0
    ∷ cancel 0
    ∷ worker_take
    ∷ worker_take
    ∷ []

-- a call passes the check, then the connection closes, then the call is put
abbrev late_put : List (Event ℕ ℕ)
late_put =
    submit_check count
    ∷ close_flag
    ∷ close_put
    ∷ worker_take
    ∷ worker_run
    ∷ loop_dispatch
    ∷ close_resume
    ∷ worker_take
    ∷ submit_put 0
    ∷ close_join
    ∷ []

abbrev failing_close : List (Event ℕ ℕ)
failing_close =
    close_flag ∷ close_put ∷ worker_take ∷ worker_run ∷ loop_dispatch ∷ close_resume ∷ []

run-IsOrdered_example : IsOrdered (run count two_submits (new_connection 0))
run-IsOrdered_example = run-IsOrdered count two_submits 0

run-IsSerial_example : IsSerial 0 (run count late_put (new_connection 0))
run-IsSerial_example = run-IsSerial 0 count late_put

cancelled_first : is_pending ((run count two_submits (new_connection 0)).futures 0) ≡ false
unfolding run step check_open put_call set_if_pending new_connection
cancelled_first = refl

run-futures_example :
    (run count (worker_run ∷ loop_dispatch ∷ []) (run count two_submits (new_connection 0))).futures
      0
    ≡ (run count two_submits (new_connection 0)).futures 0
run-futures_example =
    run-futures count (worker_run ∷ loop_dispatch ∷ []) (run count two_submits (new_connection 0)) 0
      cancelled_first

close_fails : (run refuses failing_close (new_connection 0)).closing ≡ failed
unfolding run step check_open put_call set_if_pending new_connection
close_fails = refl

run-closing-failed_example :
    IsAlive (run refuses (worker_take ∷ []) (run refuses failing_close (new_connection 0))).worker
    × AllCalls (run refuses (worker_take ∷ []) (run refuses failing_close (new_connection 0))).queue
    × ((run refuses (worker_take ∷ []) (run refuses failing_close (new_connection 0))).closing
        ≡ failed)
run-closing-failed_example =
    run-closing-failed refuses failing_close (worker_take ∷ []) 0 close_fails

still_open : (run count two_submits (new_connection 0)).closed ≡ false
unfolding run step check_open put_call set_if_pending new_connection
still_open = refl

third_is_put : (run count two_submits (new_connection 0)).next ≡ 3
unfolding run step check_open put_call set_if_pending new_connection
third_is_put = refl

run-settle-answers_example :
    is_pending (
      (run count
          (settle count (run count two_submits (new_connection 0)))
          (run count two_submits (new_connection 0))).futures
        2)
    ≡ false
run-settle-answers_example =
    run-settle-answers count two_submits 0 2 still_open (rw third_is_put (omega arith))

worker_returned : (run count late_put (new_connection 0)).worker ≡ stopped
unfolding run step check_open put_call set_if_pending new_connection
worker_returned = refl

late_is_queued : queue_ids (run count late_put (new_connection 0)).queue ≡ 1 ∷ []
unfolding run step check_open put_call set_if_pending new_connection
late_is_queued = refl

run-futures-stranded_example :
    ¬ (run count (worker_take ∷ worker_run ∷ []) (run count late_put (new_connection 0))).futures 1
    ≡ resolved (ok 1)
run-futures-stranded_example =
    run-futures-stranded count late_put (worker_take ∷ worker_run ∷ []) 0 1 (ok 1) worker_returned
      (rw late_is_queued (inl refl))
