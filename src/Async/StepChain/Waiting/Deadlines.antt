-- ===== src/Async/StepChain/Waiting/Deadlines.antt =====
-- With a deadline, `_wait_until_done` of src/pyads/async_connection.py ends.
use pyads_agile.Prelude.{
  ℕ, ◌≤◌, ◌≡◌, refl, [], ◌∷◌, ◌++◌, List, Bool, true, false, leb, Option, some, Result, ok, err,
  runtime_error, timeout_error, inl, inr, Bool-cases, Option-cases, arith,
}
use pyads_agile.Python.Int.{ℤ}
use pyads_agile.Python.Utf8.{Text}
use pyads_agile.Structure.Value.{Value, Fields}
use pyads_agile.Async.StepChain.{StepChainConfig}
use pyads_agile.Async.StepChain.Completion.{
  Poll, on_completed, on_poll, is_rejection, wait_until_done,
}
use pyads_agile.Async.StepChain.Waiting.{completed, wait, poll_outcome, wait-cons}

late_ends :
    (values : Fields) (late : Bool) (r : Result Bool)
    → late ≡ true
    → (outcome : Result Fields) × (on_completed values late r ≡ some outcome)
late_ends values late (err x) l = (err x, refl)
late_ends values late (ok true) l = (ok values, refl)
late_ends values late (ok false) l = (err timeout_error, rw l refl)

module _ (int_of_float : ℕ → Result ℤ) (int_of_text : Text → Result ℤ) where
  module _ (cfg : StepChainConfig) (object_name : Text) (request_id : ℤ) where
    poll_outcome-late :
        (deadline now : ℕ) (r : Result Fields)
        → deadline ≤ now
        → (outcome : Result Fields) × (poll_outcome int_of_float int_of_text cfg object_name
              request_id
              (some deadline)
              (r, now)
            ≡ some outcome)
    unfolding poll_outcome on_poll completed
    poll_outcome-late deadline now (err x) l = (err x, refl)
    poll_outcome-late deadline now (ok values) l =
        late_ends values (leb deadline now)
          (completed int_of_float int_of_text cfg object_name request_id values) (ground arith)

    wait-late :
        (deadline now : ℕ) (before after : List Poll) (r : Result Fields)
        → deadline ≤ now
        → (outcome : Result Fields) × (wait int_of_float int_of_text cfg object_name request_id
              (some deadline)
              (before ++ (r, now) ∷ after)
            ≡ some outcome)
    wait-late deadline now [] after r l =
        let (outcome, e) = poll_outcome-late deadline now r l in
        (
          outcome,
          rw
              (
                wait-cons int_of_float int_of_text cfg object_name request_id (some deadline)
                    (r, now) after,
                e,
              )
              refl,
        )
    wait-late deadline now (poll ∷ before) after r l =
        elim (Option-cases
          (poll_outcome int_of_float int_of_text cfg object_name request_id (some deadline) poll)) [
            | inl none_yet ↦
                let (outcome, e) = wait-late deadline now before after r l in
                (
                  outcome,
                  rw
                      (
                        wait-cons int_of_float int_of_text cfg object_name request_id
                            (some deadline) poll (before ++ (r, now) ∷ after),
                        none_yet,
                      )
                      e,
                )
            | inr (result, ends) ↦ (
              result,
              rw
                  (
                    wait-cons int_of_float int_of_text cfg object_name request_id (some deadline)
                        poll (before ++ (r, now) ∷ after),
                    ends,
                  )
                  refl,
            )
          ]

    -- With a deadline, the wait has ended, with values or an exception, at the first poll whose time
    -- has reached the deadline at the latest, whatever the polls find.
    pub wait_until_done-ends :
        (deadline now : ℕ) (accepted : Result (Option Value)) (before after : List Poll)
        (r : Result Fields)
        → deadline ≤ now
        → (outcome : Result Fields) × (wait_until_done int_of_float int_of_text cfg object_name
              request_id
              (some deadline)
              accepted
              (before ++ (r, now) ∷ after)
            ≡ some outcome)
    unfolding wait_until_done wait
    wait_until_done-ends deadline now (err x) before after r l = (err x, refl)
    wait_until_done-ends deadline now (ok v) before after r l = elim (Bool-cases (is_rejection v)) [
      | inl refused ↦ (err runtime_error, rw refused refl)
      | inr taken ↦
          let (outcome, e) = wait-late deadline now before after r l in (outcome, rw taken e)
    ]
