-- ===== src/Async/StepChain/Config.antt =====
-- `_resolve_stepchain_config` of src/pyads/rpc_interface.py: from the attributes of an interface class to a
-- configuration, with its checks.
pub mod Names
use pyads_agile.Prelude.{
  ℕ, zero, suc, ◌+◌, ◌*◌, ◌^◌, ◌≤◌, ◌≡◌, ◌≢◌, refl, ap, ◌∙◌, sym, arith, List, [], ◌∷◌, Bool, true,
  false, not, ◌&&◌, ◌||◌, if◌then◌else◌, ◌==◌, leb, ltb, list_eq, Bool-cases, inl, inr, Option,
  none, some, Result, ok, err, value_error, type_error, ◌>>=◌, >>=-eq-ok, ok_inj, not_ok,
}
use pyads_agile.Python.Int.{ℤ, pos, negsuc}
use pyads_agile.Python.Utf8.{Text}
use pyads_agile.Structure.Value.{
  Value, bool_value, int_value, float_value, text_value, dict_value, list_value,
}
use pyads_agile.Async.StepChain.{StepChainConfig}

-- `str.isspace` of a code point, which `str.strip` cuts off
abbrev pub is_space : ℕ → Bool
is_space c =
    (leb 9 c && leb c 13)
    || ((leb 28 c && leb c 32)
        || (c == 133
            || (c == 160
                || (c == 5760
                    || ((leb 8192 c && leb c 8202)
                        || (c == 8232
                            || (c == 8233 || (c == 8239 || (c == 8287 || c == 12288)))))))))

abbrev pub strip_left : Text → Text
strip_left [] = []
strip_left (c ∷ cs) = let rest = strip_left cs in if is_space c then rest else c ∷ cs

abbrev pub keep_before : ℕ → Text → Text
keep_before c [] = if is_space c then [] else c ∷ []
keep_before c (d ∷ ds) = c ∷ d ∷ ds

abbrev pub strip_right : Text → Text
strip_right [] = []
strip_right (c ∷ cs) = keep_before c (strip_right cs)

-- `str.strip`
abbrev pub strip : Text → Text
strip t = strip_right (strip_left t)

-- the attributes of the class, `None` as `none`; those that are not looked at are values of any kind
pub record Attributes : Type 0 where
  pub status_symbol : Option Value
  pub status_field : Option Value
  pub request_id_field : Option Value
  pub request_id_arg : Option Value
  pub busy_field : Option Value
  pub done_field : Option Value
  pub done_value : Value
  pub error_field : Option Value
  pub error_value : Value
  pub error_code_field : Option Value
  pub step_field : Option Value
  pub step_name_field : Option Value
  pub step_name_length : Value
  pub completion : Value
  pub poll_interval : Value
  pub timeout_s : Option Value

-- `completion`
pub data Completion : Type 0 where
  poll notify : Completion

-- the configuration with the times, which are 64-bit floats
pub record Settings : Type 0 where
  pub config : StepChainConfig
  pub completion : Completion
  pub poll_interval : ℕ
  pub timeout_s : Option ℕ

abbrev pub nonempty : Text → Result Text
nonempty [] = err value_error
nonempty (c ∷ cs) = ok (c ∷ cs)

-- `not isinstance(name, str) or not name.strip()` raises; then `name.strip()`
abbrev pub required_name : Option Value → Result Text
required_name (some (text_value t)) = nonempty (strip t)
required_name v = err value_error

abbrev pub some_name : Result Text → Result (Option Text)
some_name (ok t) = ok (some t)
some_name (err x) = err x

-- the same for a name that may be `None`
abbrev pub optional_name : Option Value → Result (Option Text)
optional_name none = ok none
optional_name (some v) = some_name (required_name (some v))

-- an `int`, a Boolean included, above 0
abbrev pub positive_length : Value → Result ℕ
positive_length (bool_value true) = ok 1
positive_length (int_value (pos (suc n))) = ok (suc n)
positive_length v = err value_error

abbrev pub completion_of : Value → Result Completion
completion_of (text_value t) =
    if list_eq t (112 ∷ 111 ∷ 108 ∷ 108 ∷ [])
    then ok poll
    else if list_eq t (110 ∷ 111 ∷ 116 ∷ 105 ∷ 102 ∷ 121 ∷ [])
    then ok notify
    else err value_error
completion_of v = err value_error

-- `x <= 0` of a float: a zero, or a negative number or infinity; not so a NaN
abbrev pub is_not_positive : ℕ → Bool
is_not_positive bits = bits == 0 || (leb (2 ^ 63) bits && leb bits (2 ^ 63 + 2047 * 2 ^ 52))

-- `float` of an int is Python's
module _ (float_of_int : ℤ → Result ℕ) where
  abbrev pub float_of : Value → Result ℕ
  float_of (float_value bits) = ok bits
  float_of (int_value z) = float_of_int z
  float_of (bool_value b) = float_of_int (pos (if b then 1 else 0))
  float_of v = err value_error

  unfoldable pub positive_time : Value → Result ℕ
  positive_time v = float_of v >>= λ bits. if is_not_positive bits then err value_error else ok bits

  abbrev pub optional_time : Option Value → Result (Option ℕ)
  optional_time none = ok none
  optional_time (some v) = positive_time v >>= λ bits. ok (some bits)

  unfoldable pub checked_settings : Attributes → Result Settings
  unfolding positive_time
  checked_settings a = optional_name a.status_symbol >>= λ status_symbol.
      required_name a.status_field >>= λ status_field.
      required_name a.request_id_field >>= λ request_id_field.
      required_name a.request_id_arg >>= λ request_id_arg.
      optional_name a.busy_field >>= λ busy_field. required_name a.done_field >>= λ done_field.
      required_name a.error_field >>= λ error_field.
      required_name a.error_code_field >>= λ error_code_field.
      optional_name a.step_field >>= λ step_field.
      optional_name a.step_name_field >>= λ step_name_field.
      positive_length a.step_name_length >>= λ step_name_length.
      completion_of a.completion >>= λ completion.
      positive_time a.poll_interval >>= λ poll_interval. optional_time a.timeout_s >>= λ timeout_s.
      ok (record {
        config = record {
          status_symbol = status_symbol;
          status_field = status_field;
          request_id_field = request_id_field;
          request_id_arg = request_id_arg;
          busy_field = busy_field;
          done_field = done_field;
          done_value = a.done_value;
          error_field = error_field;
          error_value = a.error_value;
          error_code_field = error_code_field;
          step_field = step_field;
          step_name_field = step_name_field;
          step_name_length = step_name_length;
        };
        completion = completion;
        poll_interval = poll_interval;
        timeout_s = timeout_s;
      })

  -- without step chain methods there is no configuration; with them the class must inherit from
  -- `StepChainRpcInterface`
  unfoldable pub resolve_stepchain_config : Bool → Bool → Attributes → Result (Option Settings)
  unfolding checked_settings
  resolve_stepchain_config has_methods inherits a =
      if not has_methods
      then ok none
      else if not inherits
      then err type_error
      else checked_settings a >>= λ s. ok (some s)
