-- ===== src/Async/StepChain/Notify.antt =====
-- `AsyncNotifyStepChainRpcObject` of src/pyads/async_connection.py: the wait that notifications wake, and
-- the notification handles that it registers and removes.
pub mod Watch
pub mod Cleanup
pub mod Handles
use pyads_agile.Prelude.{
  ℕ, List, [], ◌∷◌, Bool, true, false, if◌then◌else◌, leb, Option, none, some, Result, ok, err,
  Error, runtime_error, timeout_error,
}
use pyads_agile.Python.Exec.{Exec, ◌>>=◌, pure}
use pyads_agile.Python.Int.{ℤ}
use pyads_agile.Python.Utf8.{Text}
use pyads_agile.Structure.Value.{Value, Fields}
use pyads_agile.Async.StepChain.{StepChainConfig}
use pyads_agile.Async.StepChain.Completion.{is_completed, is_rejection, or_later}

-- What wakes the wait: the time at which `remaining` is computed, and what `sum_read` then returns or
-- raises behind a notification; without it, `wait_for` ends the wait, which it does at a deadline only.
abbrev pub Wake : Type 0
Wake = ℕ × Option (Result Fields)

abbrev pub on_checked : Fields → Result Bool → Option (Result Fields)
on_checked values (err x) = some (err x)
on_checked values (ok true) = some (ok values)
on_checked values (ok false) = none

module _ (int_of_float : ℕ → Result ℤ) (int_of_text : Text → Result ℤ) where
  module _ (cfg : StepChainConfig) (object_name : Text) (request_id : ℤ) where
    -- a read of the status: it returns, raises, or goes on
    unfoldable pub on_status : Result Fields → Option (Result Fields)
    unfolding is_completed
    on_status (err x) = some (err x)
    on_status (ok values) =
        on_checked values (is_completed int_of_float int_of_text cfg object_name request_id values)

    unfoldable pub on_wake : Option ℕ → Wake → Option (Result Fields)
    unfolding on_status
    on_wake none (now, none) = none
    on_wake none (now, some r) = on_status r
    on_wake (some deadline) (now, none) = some (err timeout_error)
    on_wake (some deadline) (now, some r) =
        if leb deadline now then some (err timeout_error) else on_status r

    unfoldable pub notify_loop : Option ℕ → List Wake → Option (Result Fields)
    unfolding on_wake
    notify_loop deadline [] = none
    notify_loop deadline (wake ∷ wakes) =
        let rest = notify_loop deadline wakes in or_later (on_wake deadline wake) rest

    -- the block under `try`: the acceptance, the first status, and the loop
    unfoldable pub notify_body :
        Option ℕ → Result (Option Value) → Result Fields → List Wake → Option (Result Fields)
    unfolding notify_loop
    notify_body deadline (err x) first wakes = some (err x)
    notify_body deadline (ok accepted) first wakes =
        if is_rejection accepted
        then some (err runtime_error)
        else or_later (on_status first) (notify_loop deadline wakes)

-- `_add_notification_with_auto_attr` and `del_device_notification` of the connection, for a handle `H`
pub record Notifier (S H : Type 0) : Type 0 where
  pub add : Text → Exec S H
  pub delete : H → Exec S (Unit {0})

module _ {S H : Type 0} (notifier : Notifier S H) where
  unfoldable pub register_notification_handles : List Text → Exec S (List H)
  unfolding ◌>>=◌
  register_notification_handles [] = pure []
  register_notification_handles (symbol ∷ symbols) =
      notifier.add symbol >>= λ h. register_notification_handles symbols >>= λ hs. pure (h ∷ hs)

  unfoldable pub del_notifications : List H → Exec S (Unit {0})
  unfolding ◌>>=◌
  del_notifications [] = pure tt
  del_notifications (h ∷ hs) = notifier.delete h >>= λ _. del_notifications hs

  -- `finally`: a RuntimeError of the deletion is passed over, any other exception takes the place of what
  -- the block returned or raised
  abbrev pub finish : {A : Type 0} → Result A → Result (Unit {0}) → Result A
  finish outcome (ok u) = outcome
  finish outcome (err runtime_error) = outcome
  finish outcome (err x) = err x

  abbrev pub finally_delete : {A : Type 0} → List H → Result A × S → Result A × S
  finally_delete handles (outcome, s) =
      let (r, s') = del_notifications handles s in (finish outcome r, s')

  -- `_wait_until_done_notify`, with the block under `try` as what it returns or raises
  unfoldable pub wait_until_done_notify : {A : Type 0} → List Text → Exec S A → Exec S A
  unfolding register_notification_handles del_notifications ◌>>=◌
  wait_until_done_notify symbols body =
      register_notification_handles symbols >>= λ handles s. finally_delete handles (body s)
