-- ===== src/Async/StepChain/Completion.antt =====
-- When a step chain is over: `_coerce_int`, `_matches`, `_is_completed` and the loop of
-- `_wait_until_done` of src/pyads/async_connection.py.
use pyads_agile.Prelude.{
  ℕ, zero, ◌^◌, [], ◌∷◌, List, Bool, true, false, not, if◌then◌else◌, ◌==◌, leb, Option, none, some,
  Result, ok, err, type_error, value_error, runtime_error, timeout_error, ◌>>=◌,
}
use pyads_agile.Python.Utf8.{Text}
use pyads_agile.Python.Int.{ℤ, pos, negsuc}
use pyads_agile.Structure.Value.{
  Value, bool_value, int_value, float_value, text_value, dict_value, list_value, no_values, Fields,
  no_fields, get_field,
}
use pyads_agile.Async.StepChain.{StepChainConfig, status_symbols}

abbrev pub same_int : ℤ → ℤ → Bool
same_int (pos m) (pos n) = m == n
same_int (negsuc m) (negsuc n) = m == n
same_int y z = false

abbrev pub same_bool : Bool → Bool → Bool
same_bool true b = b
same_bool false b = not b

abbrev pub is_int : Option ℤ → ℤ → Bool
is_int none z = false
is_int (some y) z = same_int y z

-- `bool(v)`; a float is false where it is 0.0 or -0.0
abbrev pub truth : Value → Bool
truth (bool_value b) = b
truth (int_value (pos zero)) = false
truth (int_value z) = true
truth (float_value bits) = if bits == 0 then false else not (bits == 2 ^ 63)
truth (text_value []) = false
truth (text_value t) = true
truth (dict_value no_fields) = false
truth (dict_value fs) = true
truth (list_value no_values) = false
truth (list_value vs) = true

abbrev pub truth_or_none : Option Value → Bool
truth_or_none none = false
truth_or_none (some v) = truth v

-- `except (TypeError, ValueError): return None`
abbrev pub or_none : Result ℤ → Result (Option ℤ)
or_none (ok z) = ok (some z)
or_none (err type_error) = ok none
or_none (err value_error) = ok none
or_none (err x) = err x

-- A poll: what `sum_read` returned or raised, and the time at which `monotonic` is asked after it.
abbrev pub Poll : Type 0
Poll = Result Fields × ℕ

abbrev pub is_late : Option ℕ → ℕ → Bool
is_late none now = false
is_late (some deadline) now = leb deadline now

-- what one poll makes of the loop: it returns, raises, or goes on
abbrev pub on_completed : Fields → Bool → Result Bool → Option (Result Fields)
on_completed values late (err x) = some (err x)
on_completed values late (ok true) = some (ok values)
on_completed values late (ok false) = if late then some (err timeout_error) else none

-- the outcome of this poll, or of the later ones
abbrev pub or_later : Option (Result Fields) → Option (Result Fields) → Option (Result Fields)
or_later none rest = rest
or_later (some outcome) rest = some outcome

-- a Boolean that is false is the PLC's refusal
abbrev pub is_rejection : Option Value → Bool
is_rejection (some (bool_value false)) = true
is_rejection v = false

-- `int` of a float and of a text are Python's
module _ (int_of_float : ℕ → Result ℤ) (int_of_text : Text → Result ℤ) where
  -- `int(v)`
  abbrev pub int_of : Value → Result ℤ
  int_of (bool_value b) = ok (pos (if b then 1 else 0))
  int_of (int_value z) = ok z
  int_of (float_value bits) = int_of_float bits
  int_of (text_value t) = int_of_text t
  int_of (dict_value fs) = err type_error
  int_of (list_value vs) = err type_error

  unfoldable pub coerce_int : Option Value → Result (Option ℤ)
  coerce_int none = ok none
  coerce_int (some v) = or_none (int_of v)

  unfoldable pub matches : Option Value → Value → Result Bool
  unfolding coerce_int
  matches actual (bool_value b) = ok (same_bool (truth_or_none actual) b)
  matches actual expected = coerce_int actual >>= λ actual_num.
      int_of expected >>= λ expected_num. ok (is_int actual_num expected_num)

  module _ (cfg : StepChainConfig) (object_name : Text) (request_id : ℤ) where
    -- The code of the error stands in the text of the exception only.
    unfoldable pub is_completed : Fields → Result Bool
    unfolding status_symbols matches
    is_completed values =
        let symbols = status_symbols cfg object_name in
        coerce_int (get_field symbols.request values) >>= λ current_request.
        if is_int current_request request_id
        then (matches (get_field symbols.failed values) cfg.error_value >>= λ has_failed.
            if has_failed
            then err runtime_error
            else matches (get_field symbols.finished values) cfg.done_value)
        else ok false

    unfoldable pub on_poll : Option ℕ → Poll → Option (Result Fields)
    unfolding is_completed
    on_poll deadline (err x, now) = some (err x)
    on_poll deadline (ok values, now) =
        on_completed values (is_late deadline now) (is_completed values)

    -- `while True`, over the polls to come; without a result the loop still waits behind them
    unfoldable pub wait_loop : Option ℕ → List Poll → Option (Result Fields)
    unfolding on_poll
    wait_loop deadline [] = none
    wait_loop deadline (poll ∷ polls) =
        let rest = wait_loop deadline polls in or_later (on_poll deadline poll) rest

    -- `_wait_until_done`, behind what the method returned or raised
    unfoldable pub wait_until_done :
        Option ℕ → Result (Option Value) → List Poll → Option (Result Fields)
    unfolding wait_loop
    wait_until_done deadline (err x) polls = some (err x)
    wait_until_done deadline (ok accepted) polls =
        if is_rejection accepted then some (err runtime_error) else wait_loop deadline polls
