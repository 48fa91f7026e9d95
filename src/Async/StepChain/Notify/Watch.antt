-- ===== src/Async/StepChain/Notify/Watch.antt =====
-- What the wait that notifications wake returns.
use pyads_agile.Prelude.{
  subst, ◌⊎◌, ℕ, ◌≡◌, refl, List, [], ◌∷◌, Bool, true, false, leb, Bool-cases, inl, inr, Option,
  none, some, Result, ok, err, Error,
}
use pyads_agile.Python.Int.{ℤ}
use pyads_agile.Python.Utf8.{Text}
use pyads_agile.Structure.Value.{Value, Fields}
use pyads_agile.Async.StepChain.{StepChainConfig}
use pyads_agile.Async.StepChain.Completion.{is_completed, is_rejection, or_later}
use pyads_agile.Async.StepChain.Waiting.{IsFinished, is_completed-IsFinished}
use pyads_agile.Async.StepChain.Notify.{
  Wake, on_checked, on_status, on_wake, notify_loop, notify_body,
}

or_later-cases :
    (a b : Option (Result Fields)) (out : Fields)
    → or_later a b ≡ some (ok out)
    → (a ≡ some (ok out)) ⊎ (b ≡ some (ok out))
or_later-cases none b out e = inr e
or_later-cases (some r) b out e = inl e

values_inj : {a b : Fields} → some (ok a) ≡ some (ok b) → a ≡ b
values_inj e = cc

error_not : {x : Error} {out : Fields} → some (err x) ≡ some (ok out) → ⊥
error_not e = cc

module _ (int_of_float : ℕ → Result ℤ) (int_of_text : Text → Result ℤ) where
  module _ (cfg : StepChainConfig) (object_name : Text) (request_id : ℤ) where
    Finished : Fields → Type 0
    Finished = IsFinished int_of_float int_of_text cfg object_name request_id

    checked-Finished :
        (values out : Fields) (r : Result Bool)
        → is_completed int_of_float int_of_text cfg object_name request_id values ≡ r
        → on_checked values r ≡ some (ok out)
        → Finished out
    unfolding Finished
    checked-Finished values out (err x) e f = cc
    checked-Finished values out (ok false) e f = cc
    checked-Finished values out (ok true) e f =
        subst Finished (values_inj f)
          (is_completed-IsFinished int_of_float int_of_text cfg object_name request_id values e)

    status-Finished :
        (r : Result Fields) (out : Fields)
        → on_status int_of_float int_of_text cfg object_name request_id r ≡ some (ok out)
        → Finished out
    unfolding on_status
    status-Finished (err x) out e = cc
    status-Finished (ok values) out e =
        checked-Finished values out
          (is_completed int_of_float int_of_text cfg object_name request_id values) refl e

    wake-Finished :
        (deadline : Option ℕ) (wake : Wake) (out : Fields)
        → on_wake int_of_float int_of_text cfg object_name request_id deadline wake ≡ some (ok out)
        → Finished out
    unfolding on_wake
    wake-Finished none (now, none) out e = cc
    wake-Finished none (now, some r) out e = status-Finished r out e
    wake-Finished (some deadline) (now, none) out e = cc
    wake-Finished (some deadline) (now, some r) out e = elim (Bool-cases (leb deadline now)) [
      | inl late ↦ absurd (error_not (rw late at e))
      | inr early ↦ status-Finished r out (rw early at e)
    ]

    loop-Finished :
        (deadline : Option ℕ) (wakes : List Wake) (out : Fields)
        → notify_loop int_of_float int_of_text cfg object_name request_id deadline wakes
          ≡ some (ok out)
        → Finished out
    unfolding notify_loop
    loop-Finished deadline [] out e = cc
    loop-Finished deadline (wake ∷ wakes) out e =
        elim (or_later-cases
          (on_wake int_of_float int_of_text cfg object_name request_id deadline wake)
          (notify_loop int_of_float int_of_text cfg object_name request_id deadline wakes) out e) [
            | inl here ↦ wake-Finished deadline wake out here
            | inr there ↦ loop-Finished deadline wakes out there
          ]

    -- When the block under `try` returns, it returns values that show the chain finished for this request, and
    -- the PLC had not refused the method.
    pub notify_body-IsFinished :
        (deadline : Option ℕ) (accepted : Result (Option Value)) (first : Result Fields)
        (wakes : List Wake) (out : Fields)
        → notify_body int_of_float int_of_text cfg object_name request_id deadline accepted first
            wakes
          ≡ some (ok out)
        → IsFinished int_of_float int_of_text cfg object_name request_id out
          × ((v : Option Value) × (accepted ≡ ok v) × (is_rejection v ≡ false))
    unfolding notify_body Finished
    notify_body-IsFinished deadline (err x) first wakes out e = cc
    notify_body-IsFinished deadline (ok v) first wakes out e = elim (Bool-cases (is_rejection v)) [
      | inl refused ↦ absurd (error_not (rw refused at e))
      | inr taken ↦ (
        elim (or_later-cases (on_status int_of_float int_of_text cfg object_name request_id first)
            (notify_loop int_of_float int_of_text cfg object_name request_id deadline wakes) out
            (rw taken at e)) [
              | inl here ↦ status-Finished first out here
              | inr there ↦ loop-Finished deadline wakes out there
            ],
        (v, refl, taken),
      )
    ]
