-- ===== src/Async/StepChain/Waiting.antt =====
-- What `_wait_until_done` of src/pyads/async_connection.py returns.
pub mod Deadlines
pub mod Foreign
use pyads_agile.Prelude.{
  ℕ, ◌≤◌, ◌≡◌, refl, ap, ◌∙◌, subst, [], ◌∷◌, ◌++◌, List, Bool, true, false, if◌then◌else◌, leb,
  Option, none, some, Result, ok, err, Error, runtime_error, timeout_error, >>=-eq-ok, not_ok, All,
  inl, inr, ==→eq, Bool-cases, Option-cases, arith,
}
use pyads_agile.Python.Int.{ℤ, pos, negsuc}
use pyads_agile.Python.Utf8.{Text}
use pyads_agile.Structure.Value.{Value, Fields, get_field}
use pyads_agile.Async.StepChain.{StepChainConfig, status_symbols}
use pyads_agile.Async.StepChain.Completion.{
  same_int, is_int, coerce_int, matches, is_completed, Poll, is_late, on_completed, on_poll,
  or_later, wait_loop, is_rejection, wait_until_done,
}

same_int_sound : (y z : ℤ) → same_int y z ≡ true → y ≡ z
same_int_sound (pos m) (pos n) e = ap pos (==→eq m n e)
same_int_sound (negsuc m) (negsuc n) e = ap negsuc (==→eq m n e)
same_int_sound (pos m) (negsuc n) e = cc
same_int_sound (negsuc m) (pos n) e = cc

is_int_sound : (o : Option ℤ) (z : ℤ) → is_int o z ≡ true → o ≡ some z
is_int_sound none z e = cc
is_int_sound (some y) z e = ap some (same_int_sound y z e)

error_not : {x : Error} {out : Fields} → some (err x) ≡ some (ok out) → ⊥
error_not e = cc

if-ok_true :
    (b : Bool) (r : Result Bool)
    → (if b then r else ok false) ≡ ok true
    → (b ≡ true) × (r ≡ ok true)
if-ok_true true r e = (refl, e)
if-ok_true false r e = cc

if-err_not :
    (b : Bool) (x : Error) (r : Result Bool)
    → (if b then err x else r) ≡ ok true
    → (b ≡ false) × (r ≡ ok true)
if-err_not true x r e = absurd (not_ok e)
if-err_not false x r e = (refl, e)

module _ (int_of_float : ℕ → Result ℤ) (int_of_text : Text → Result ℤ) where
  module _ (cfg : StepChainConfig) (object_name : Text) (request_id : ℤ) where
    -- The status is the one of this request, its error field does not hold the error value and its
    -- done field holds the done value.
    pub record IsFinished (values : Fields) : Type 0 where
      pub request :
          coerce_int int_of_float int_of_text
            (get_field (status_symbols cfg object_name).request values)
          ≡ ok (some request_id)
      pub not_failed :
          matches int_of_float int_of_text
            (get_field (status_symbols cfg object_name).failed values)
            cfg.error_value
          ≡ ok false
      pub finished :
          matches int_of_float int_of_text
            (get_field (status_symbols cfg object_name).finished values)
            cfg.done_value
          ≡ ok true

    completed : Fields → Result Bool
    completed = is_completed int_of_float int_of_text cfg object_name request_id

    pub is_completed-IsFinished :
        (values : Fields)
        → is_completed int_of_float int_of_text cfg object_name request_id values ≡ ok true
        → IsFinished values
    unfolding completed is_completed
    is_completed-IsFinished values e =
        let (current, a, f) =
          >>=-eq-ok
            (coerce_int int_of_float int_of_text
              (get_field (status_symbols cfg object_name).request values))
            _ e in
        let (g, h) = if-ok_true (is_int current request_id) _ f in
        let (bad, b, k) =
          >>=-eq-ok
            (matches int_of_float int_of_text
              (get_field (status_symbols cfg object_name).failed values) cfg.error_value)
            _ h in
        let (c, d) = if-err_not bad runtime_error _ k in
        record {
          request = a ∙ ap ok (is_int_sound current request_id g);
          not_failed = b ∙ ap ok c;
          finished = d;
        }

    wait : Option ℕ → List Poll → Option (Result Fields)
    wait = wait_loop int_of_float int_of_text cfg object_name request_id

    -- The poll ended no wait: it was answered, the status was not of an end, and it was in time.
    pub record GoesOn (deadline : Option ℕ) (poll : Poll) : Type 0 where
      pub values : Fields
      pub answered : poll.0 ≡ ok values
      pub unfinished :
          is_completed int_of_float int_of_text cfg object_name request_id values ≡ ok false
      pub in_time : is_late deadline poll.1 ≡ false

    on_completed-none :
        (values : Fields) (late : Bool) (r : Result Bool)
        → on_completed values late r ≡ none
        → (r ≡ ok false) × (late ≡ false)
    on_completed-none values late (err x) e = cc
    on_completed-none values late (ok true) e = cc
    on_completed-none values true (ok false) e = cc
    on_completed-none values false (ok false) e = (refl, refl)

    on_completed-ok :
        (values out : Fields) (late : Bool) (r : Result Bool)
        → on_completed values late r ≡ some (ok out)
        → (r ≡ ok true) × (values ≡ out)
    on_completed-ok values out late (err x) e = cc
    on_completed-ok values out late (ok true) e = (refl, cc)
    on_completed-ok values out true (ok false) e = cc
    on_completed-ok values out false (ok false) e = cc

    poll_outcome : Option ℕ → Poll → Option (Result Fields)
    poll_outcome = on_poll int_of_float int_of_text cfg object_name request_id

    on_poll-GoesOn :
        (deadline : Option ℕ) (poll : Poll)
        → poll_outcome deadline poll ≡ none
        → GoesOn deadline poll
    unfolding poll_outcome on_poll completed
    on_poll-GoesOn deadline (err x, now) e = cc
    on_poll-GoesOn deadline (ok values, now) e =
        let (a, b) = on_completed-none values (is_late deadline now) (completed values) e in
        record { values = values; answered = refl; unfinished = a; in_time = b }

    -- The values are those of a poll that found the chain finished, and the polls before it ended nothing.
    pub record IsFirstFinished (deadline : Option ℕ) (polls : List Poll) (values : Fields)
        : Type 0 where
      pub before : List Poll
      pub after : List Poll
      pub now : ℕ
      pub split : polls ≡ before ++ (ok values, now) ∷ after
      pub finished : IsFinished values
      pub waited : All (GoesOn deadline) before

    first_poll :
        (deadline : Option ℕ) (poll : Poll) (polls : List Poll) (out : Fields)
        → poll_outcome deadline poll ≡ some (ok out)
        → IsFirstFinished deadline (poll ∷ polls) out
    unfolding poll_outcome on_poll completed
    first_poll deadline (err x, now) polls out e = cc
    first_poll deadline (ok values, now) polls out e =
        let (a, b) = on_completed-ok values out (is_late deadline now) (completed values) e in
        record {
          before = [];
          after = polls;
          now = now;
          split = rw b refl;
          finished = is_completed-IsFinished out (subst (λ v. completed v ≡ ok true) b a);
          waited = tt;
        }

    later :
        (deadline : Option ℕ) (poll : Poll) (polls : List Poll) (out : Fields)
        → poll_outcome deadline poll ≡ none
        → IsFirstFinished deadline polls out
        → IsFirstFinished deadline (poll ∷ polls) out
    later deadline poll polls out e h = record {
      before = poll ∷ h.before;
      after = h.after;
      now = h.now;
      split = ap (λ t. poll ∷ t) h.split;
      finished = h.finished;
      waited = (on_poll-GoesOn deadline poll e, h.waited);
    }

    wait-cons :
        (deadline : Option ℕ) (poll : Poll) (polls : List Poll)
        → wait deadline (poll ∷ polls) ≡ or_later (poll_outcome deadline poll) (wait deadline polls)
    unfolding wait wait_loop poll_outcome
    wait-cons deadline poll polls = refl

    wait-IsFirstFinished :
        (deadline : Option ℕ) (polls : List Poll) (out : Fields)
        → wait deadline polls ≡ some (ok out)
        → IsFirstFinished deadline polls out
    wait-IsFirstFinished deadline [] out e = unfold wait in unfold wait_loop in cc
    wait-IsFirstFinished deadline (poll ∷ polls) out e =
        elim (Option-cases (poll_outcome deadline poll)) [
          | inl none_yet ↦ later deadline poll polls out none_yet (
              wait-IsFirstFinished deadline polls out
                (rw (wait-cons deadline poll polls, none_yet) at e))
          | inr (result, ends) ↦
              first_poll deadline poll polls out
                (ends ∙ (rw (wait-cons deadline poll polls, ends) at e))
        ]

    -- When the wait returns, it returns the values of a poll that found the chain finished for this
    -- request, after polls that ended nothing, and the PLC had not refused the method.
    pub wait_until_done-IsFirstFinished :
        (deadline : Option ℕ) (accepted : Result (Option Value)) (polls : List Poll) (out : Fields)
        → wait_until_done int_of_float int_of_text cfg object_name request_id deadline accepted
            polls
          ≡ some (ok out)
        → IsFirstFinished deadline polls out
          × ((v : Option Value) × (accepted ≡ ok v) × (is_rejection v ≡ false))
    unfolding wait_until_done
    wait_until_done-IsFirstFinished deadline (err x) polls out e = cc
    wait_until_done-IsFirstFinished deadline (ok v) polls out e =
        elim (Bool-cases (is_rejection v)) [
          | inl refused ↦ absurd (error_not (rw refused at e))
          | inr taken ↦ (
            wait-IsFirstFinished deadline polls out (unfold wait in rw taken at e),
            (v, refl, taken),
          )
        ]
