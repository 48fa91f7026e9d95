-- ===== src/Tests/StepChains.antt =====
-- A step chain with the names that `StepChainConfig` gives by default.
use pyads_agile.Prelude.{
  get_elem?, ℕ, ◌≡◌, refl, arith, List, [], ◌∷◌, ◌++◌, Bool, true, false, Option, none, some,
  Result, ok, err, value_error,
}
use pyads_agile.Python.Exec.{◌>>=◌, pure}
use pyads_agile.Python.Utf8.{Text}
use pyads_agile.Python.Dict.{contains, values_of, lookup_key}
use pyads_agile.Python.Int.{ℤ, pos}
use pyads_agile.Structure.Value.{
  Value, bool_value, int_value, Fields, no_fields, field, StructureDef,
}
use pyads_agile.Async.StepChain.{
  StepChainConfig, status_symbols, status_symbol, status_symbols_for_read, status_field_symbol_map,
  get_status_structure_def, field_order, unique_after,
}
use pyads_agile.Async.StepChain.Membership.{item_names}
use pyads_agile.Async.StepChain.Completion.{
  int_of, Poll, is_rejection, wait_until_done, wait_loop, on_poll, is_completed, matches,
  coerce_int,
}
use pyads_agile.Async.StepChain.Requests.{
  resolve_request_id, at_index, given_by_position, append_if, next_request_id, index_of, Resolved,
  resolve_request_id-Resolved,
}
use pyads_agile.Async.StepChain.Waiting.{IsFirstFinished, wait_until_done-IsFirstFinished}
use pyads_agile.Async.StepChain.Waiting.Deadlines.{wait_until_done-ends}
use pyads_agile.Async.StepChain.Waiting.Foreign.{IsForeign, wait_until_done-foreign}
use pyads_agile.Async.StepChain.Symbols.{IsDotted, status_field_symbol_map-symbols}
use pyads_agile.Async.StepChain.Structures.{
  IsUnique, item_of, item_with, type_of_field, get_status_structure_def-items,
}

abbrev pub no_float : ℕ → Result ℤ
no_float bits = err value_error

abbrev pub no_number : Text → Result ℤ
no_number t = err value_error

-- the fields i, d, e, b, c and s, the last without a name
abbrev pub config : StepChainConfig
config = record {
  status_symbol = none;
  status_field = 115 ∷ [];
  request_id_field = 105 ∷ [];
  request_id_arg = 105 ∷ [];
  busy_field = some (98 ∷ []);
  done_field = 100 ∷ [];
  done_value = bool_value true;
  error_field = 101 ∷ [];
  error_value = bool_value true;
  error_code_field = 99 ∷ [];
  step_field = some (115 ∷ []);
  step_name_field = some [];
  step_name_length = 80;
}

abbrev pub object : Text
object = 111 ∷ []

-- the status of a request, with its done field
abbrev pub status : ℕ → Bool → Fields
status request is_done = field (111 ∷ 46 ∷ 115 ∷ 46 ∷ 105 ∷ []) (int_value (pos request)) (
    field (111 ∷ 46 ∷ 115 ∷ 46 ∷ 100 ∷ []) (bool_value is_done)
      (field (111 ∷ 46 ∷ 115 ∷ 46 ∷ 101 ∷ []) (bool_value false) no_fields))

-- another request that is done, this one that runs, and this one that is done
abbrev polls : List Poll
polls = (ok (status 6 true), 10) ∷ (ok (status 7 false), 20) ∷ (ok (status 7 true), 30) ∷ []

abbrev pub no_value : Result (Option Value)
no_value = ok none

waits_for_7 :
    wait_until_done no_float no_number config object (pos 7) none (ok none) polls
    ≡ some (ok (status 7 true))
unfolding wait_until_done wait_loop on_poll is_completed status_symbols status_symbol matches
    coerce_int
waits_for_7 = refl

wait_until_done-IsFirstFinished_example :
    IsFirstFinished no_float no_number config object (pos 7) none polls (status 7 true)
    × ((v : Option Value) × (no_value ≡ ok v) × (is_rejection v ≡ false))
wait_until_done-IsFirstFinished_example =
    wait_until_done-IsFirstFinished no_float no_number config object (pos 7) none (ok none) polls
      (status 7 true) waits_for_7

wait_until_done-ends_example :
    (outcome : Result Fields) × (wait_until_done no_float no_number config object
        (pos 9)
        (some 25)
        (ok none)
        (((ok (status 6 true), 10) ∷ (ok (status 7 false), 20) ∷ [])
          ++ (ok (status 7 true), 30) ∷ [])
      ≡ some outcome)
wait_until_done-ends_example =
    wait_until_done-ends no_float no_number config object (pos 9) 25 30 (ok none)
      ((ok (status 6 true), 10) ∷ (ok (status 7 false), 20) ∷ []) [] (ok (status 7 true))
      (omega arith)

six-IsForeign : IsForeign no_float no_number config object (pos 7) (ok (status 6 true), 10)
unfolding status_symbols status_symbol coerce_int
six-IsForeign = record {
  values = status 6 true;
  other = some (pos 6);
  answered = refl;
  request = refl;
  differs = refl;
}

wait_until_done-foreign_example :
    wait_until_done no_float no_number config object
      (pos 7)
      none
      (ok none)
      (((ok (status 6 true), 10) ∷ []) ++ (ok (status 7 true), 30) ∷ [])
    ≡ wait_until_done no_float no_number config object
        (pos 7)
        none
        (ok none)
        ((ok (status 7 true), 30) ∷ [])
wait_until_done-foreign_example =
    wait_until_done-foreign no_float no_number config object (pos 7) (ok none)
      ((ok (status 6 true), 10) ∷ []) ((ok (status 7 true), 30) ∷ []) (six-IsForeign, tt)

draws_5 :
    (resolve_request_id no_float no_number config
      ((97 ∷ []) ∷ (105 ∷ []) ∷ [])
      (bool_value true ∷ [])
      []
      5).0
    ≡ ok (pos 5, bool_value true ∷ int_value (pos 5) ∷ [])
unfolding resolve_request_id at_index given_by_position next_request_id append_if ◌>>=◌ pure
draws_5 = refl

resolve_request_id-Resolved_example :
    (index : ℕ) × (index_of (105 ∷ []) ((97 ∷ []) ∷ (105 ∷ []) ∷ []) ≡ some index)
    × Resolved no_float no_number index 5
        (bool_value true ∷ [])
        (lookup_key (105 ∷ []) [])
        (pos 5)
        (bool_value true ∷ int_value (pos 5) ∷ [])
    × ((v : Value) × (get_elem? (bool_value true ∷ int_value (pos 5) ∷ []) index ≡ some v)
        × (int_of no_float no_number v ≡ ok (pos 5)))
resolve_request_id-Resolved_example =
    resolve_request_id-Resolved no_float no_number config ((97 ∷ []) ∷ (105 ∷ []) ∷ [])
      (bool_value true ∷ []) [] 5 (pos 5) (bool_value true ∷ int_value (pos 5) ∷ []) draws_5

status_field_symbol_map-symbols_example :
    IsDotted config object (status_field_symbol_map config object)
    × ((t : Text)
        → contains t (values_of (status_field_symbol_map config object))
          ≡ contains t (status_symbols_for_read config object))
status_field_symbol_map-symbols_example = status_field_symbol_map-symbols config object

get_status_structure_def-items_example :
    (def : StructureDef) × (get_status_structure_def config ≡ ok def)
    × IsUnique (item_names def)
    × (item_names def ≡ unique_after [] (field_order config))
    × ((t : Text) → item_of t def ≡ item_with config t (type_of_field config t))
get_status_structure_def-items_example = get_status_structure_def-items config
