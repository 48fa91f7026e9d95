-- ===== src/Tests/Config.antt =====
-- The attributes of an interface class that gives a name with spaces around it.
use pyads_agile.Prelude.{
  true, ℕ, ◌≡◌, refl, [], ◌∷◌, Option, none, some, Result, ok, err, overflow_error,
}
use pyads_agile.Python.Int.{ℤ, pos}
use pyads_agile.Structure.Value.{Value, bool_value, int_value, float_value, text_value}
use pyads_agile.Async.StepChain.Config.{Attributes, Settings, poll, checked_settings, positive_time}
use pyads_agile.Async.StepChain.Config.Names.{IsChecked, checked_settings-IsChecked}

abbrev no_conversion : ℤ → Result ℕ
no_conversion z = err overflow_error

abbrev named_a : Option Value
named_a = some (text_value (32 ∷ 97 ∷ 32 ∷ []))

abbrev attributes : Attributes
attributes = record {
  status_symbol = none;
  status_field = named_a;
  request_id_field = named_a;
  request_id_arg = named_a;
  busy_field = none;
  done_field = named_a;
  done_value = bool_value true;
  error_field = named_a;
  error_value = bool_value true;
  error_code_field = named_a;
  step_field = named_a;
  step_name_field = none;
  step_name_length = int_value (pos 80);
  completion = text_value (112 ∷ 111 ∷ 108 ∷ 108 ∷ []);
  poll_interval = float_value 4587366580439587226;
  timeout_s = none;
}

abbrev settings : Settings
settings = record {
  config = record {
    status_symbol = none;
    status_field = 97 ∷ [];
    request_id_field = 97 ∷ [];
    request_id_arg = 97 ∷ [];
    busy_field = none;
    done_field = 97 ∷ [];
    done_value = bool_value true;
    error_field = 97 ∷ [];
    error_value = bool_value true;
    error_code_field = 97 ∷ [];
    step_field = some (97 ∷ []);
    step_name_field = none;
    step_name_length = 80;
  };
  completion = poll;
  poll_interval = 4587366580439587226;
  timeout_s = none;
}

passes : checked_settings no_conversion attributes ≡ ok settings
unfolding checked_settings positive_time
passes = refl

checked_settings-IsChecked_example : IsChecked settings
checked_settings-IsChecked_example =
    checked_settings-IsChecked no_conversion attributes settings passes
