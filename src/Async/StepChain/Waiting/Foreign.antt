-- ===== src/Async/StepChain/Waiting/Foreign.antt =====
-- What `_wait_until_done` of src/pyads/async_connection.py makes of the status of other requests.
use pyads_agile.Prelude.{
  ℕ, ◌≡◌, refl, ap, ◌∙◌, [], ◌∷◌, ◌++◌, List, false, if◌then◌else◌, Option, none, some, Result, ok,
  err, runtime_error, All,
}
use pyads_agile.Python.Int.{ℤ}
use pyads_agile.Python.Utf8.{Text}
use pyads_agile.Structure.Value.{Value, Fields, get_field}
use pyads_agile.Async.StepChain.{StepChainConfig, status_symbols}
use pyads_agile.Async.StepChain.Completion.{
  is_int, coerce_int, is_completed, Poll, on_completed, on_poll, is_rejection, wait_until_done,
}
use pyads_agile.Async.StepChain.Waiting.{completed, wait, poll_outcome, wait-cons}

module _ (int_of_float : ℕ → Result ℤ) (int_of_text : Text → Result ℤ) where
  module _ (cfg : StepChainConfig) (object_name : Text) (request_id : ℤ) where
    -- A status of another request.
    pub record IsForeign (poll : Poll) : Type 0 where
      pub values : Fields
      pub other : Option ℤ
      pub answered : poll.0 ≡ ok values
      pub request :
          coerce_int int_of_float int_of_text
            (get_field (status_symbols cfg object_name).request values)
          ≡ ok other
      pub differs : is_int other request_id ≡ false

    foreign-is_completed :
        (poll : Poll) (h : IsForeign poll)
        → completed int_of_float int_of_text cfg object_name request_id h.values ≡ ok false
    unfolding completed is_completed
    foreign-is_completed poll h = rw (h.request, h.differs) refl

    poll_outcome-foreign :
        (poll : Poll)
        → IsForeign poll
        → poll_outcome int_of_float int_of_text cfg object_name request_id none poll ≡ none
    unfolding poll_outcome on_poll completed
    poll_outcome-foreign (r, now) h =
        rw h.answered (ap (on_completed h.values false) (foreign-is_completed (r, now) h))

    -- Without a deadline, statuses of other requests that come first change nothing: the wait ends as it
    -- does on the polls after them.
    pub wait_until_done-foreign :
        (accepted : Result (Option Value)) (foreign polls : List Poll)
        → All IsForeign foreign
        → wait_until_done int_of_float int_of_text cfg object_name request_id none accepted
            (foreign ++ polls)
          ≡ wait_until_done int_of_float int_of_text cfg object_name request_id none accepted polls
    unfolding wait_until_done wait
    wait_until_done-foreign (err x) foreign polls h = refl
    wait_until_done-foreign (ok v) foreign polls h =
        ap (λ o. if is_rejection v then some (err runtime_error) else o)
          (wait-foreign foreign polls h)
      where
        wait-foreign :
            (fs ps : List Poll)
            → All IsForeign fs
            → wait int_of_float int_of_text cfg object_name request_id none (fs ++ ps)
              ≡ wait int_of_float int_of_text cfg object_name request_id none ps
        wait-foreign [] ps h = refl
        wait-foreign (f ∷ fs) ps h =
            wait-cons int_of_float int_of_text cfg object_name request_id none f (fs ++ ps)
            ∙ (rw (poll_outcome-foreign f h.0) (wait-foreign fs ps h.1))
