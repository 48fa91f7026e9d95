-- ===== src/Async/StepChain.antt =====
-- The names that an `AsyncStepChainRpcObject` of src/pyads/async_connection.py reads the status of a
-- step chain by: `status_symbol`, `_status_symbols`, `_status_symbols_for_read`,
-- `_status_field_symbol_map` and `get_status_structure_def`.
pub mod Completion
pub mod Config
pub mod Requests
pub mod Membership
pub mod Symbols
pub mod Structures
pub mod Waiting
pub mod Notify
use pyads_agile.Prelude.{
  ℕ, [], ◌∷◌, ◌++◌, List, map, Bool, true, false, if◌then◌else◌, list_eq, Option, none, some,
  Result, ok, or_raise, key_error, ◌>>=◌,
}
use pyads_agile.Python.Utf8.{Text}
use pyads_agile.Python.Dict.{contains, set_key, lookup_key}
use pyads_agile.Structure.Value.{
  Value, bool_value, ScalarType, plc_bool, plc_dint, plc_udint, PlcType, plc_string, unknown,
  scalar, StructureDef, no_items, item,
}

-- `StepChainConfig` of src/pyads/rpc_interface.py, without `completion` and the times
pub record StepChainConfig : Type 0 where
  pub status_symbol : Option Text
  pub status_field : Text
  pub request_id_field : Text
  pub request_id_arg : Text
  pub busy_field : Option Text
  pub done_field : Text
  pub done_value : Value
  pub error_field : Text
  pub error_value : Value
  pub error_code_field : Text
  pub step_field : Option Text
  pub step_name_field : Option Text
  pub step_name_length : ℕ

-- an optional name as a condition: `None` and "" are false
abbrev pub if_named : {A : Type 0} → Option Text → A → (Text → A) → A
if_named none a f = a
if_named (some []) a f = a
if_named (some (c ∷ cs)) a f = f (c ∷ cs)

abbrev pub if_any : {A : Type 0} → Text → A → A → A
if_any [] a b = b
if_any (c ∷ cs) a b = a

-- `f"{root}.{name}"`
abbrev pub dotted : Text → Text → Text
dotted root name = root ++ 46 ∷ name

-- `if x not in xs: xs.append(x)`
abbrev pub add_new : Text → List Text → List Text
add_new t xs = if contains t xs then xs else xs ++ t ∷ []

abbrev pub or_default : Option Text → Text → Text
or_default none t = t
or_default (some s) t = s

-- `list(dict.fromkeys(xs))`, behind what was seen before
abbrev pub unique_after : List Text → List Text → List Text
unique_after seen [] = seen
unique_after seen (x ∷ xs) = unique_after (add_new x seen) xs

abbrev pub is_bool : Value → Bool
is_bool (bool_value b) = true
is_bool v = false

abbrev pub value_type : Value → PlcType
value_type v = if is_bool v then scalar plc_bool else scalar plc_dint

-- a text that is this optional text
abbrev pub is_name : Text → Option Text → Bool
is_name t none = false
is_name t (some s) = list_eq t s

-- The result of `_status_symbols`.
pub record StatusSymbols : Type 0 where
  pub request : Text
  pub busy : Option Text
  pub finished : Text
  pub failed : Text
  pub failed_code : Option Text

module _ (cfg : StepChainConfig) (object_name : Text) where
  unfoldable pub status_symbol : Text
  status_symbol = or_default cfg.status_symbol (dotted object_name cfg.status_field)

  unfoldable pub status_symbols : StatusSymbols
  unfolding status_symbol
  status_symbols = record {
    request = dotted status_symbol cfg.request_id_field;
    busy = if_named cfg.busy_field none (λ n. some (dotted status_symbol n));
    finished = dotted status_symbol cfg.done_field;
    failed = dotted status_symbol cfg.error_field;
    failed_code =
        if_any cfg.error_code_field (some (dotted status_symbol cfg.error_code_field)) none;
  }

  unfoldable pub status_symbols_for_read : List Text
  unfolding status_symbols
  status_symbols_for_read =
      let all = status_symbols in
      let symbols = all.request ∷ all.finished ∷ [] in
      let symbols = if_named all.busy symbols (λ t. add_new t symbols) in
      let symbols = add_new all.failed symbols in
      let symbols = if_named all.failed_code symbols (λ t. add_new t symbols) in
      let symbols =
        if_named cfg.step_field symbols (λ n. add_new (dotted status_symbol n) symbols) in
      if_named cfg.step_name_field symbols (λ n. add_new (dotted status_symbol n) symbols)

  unfoldable pub status_field_symbol_map : List (Text × Text)
  unfolding status_symbol
  status_field_symbol_map =
      let put = λ (n : Text) (m : List (Text × Text)). set_key n (dotted status_symbol n) m in
      let m = put cfg.error_field (put cfg.done_field (put cfg.request_id_field [])) in
      let m = if_named cfg.busy_field m (λ n. put n m) in
      let m = if_any cfg.error_code_field (put cfg.error_code_field m) m in
      let m = if_named cfg.step_field m (λ n. put n m) in
      if_named cfg.step_name_field m (λ n. put n m)

-- `field_types` and `order` of `get_status_structure_def`
module _ (cfg : StepChainConfig) where
  unfoldable pub field_types : List (Text × PlcType)
  field_types =
      let d = set_key cfg.request_id_field (scalar plc_udint) [] in
      let d = if_named cfg.busy_field d (λ n. set_key n (scalar plc_bool) d) in
      let d = set_key cfg.done_field (value_type cfg.done_value) d in
      let d = set_key cfg.error_field (value_type cfg.error_value) d in
      let d = if_any cfg.error_code_field (set_key cfg.error_code_field (scalar plc_dint) d) d in
      let d = if_named cfg.step_field d (λ n. set_key n (scalar plc_udint) d) in
      if_named cfg.step_name_field d (λ n. set_key n plc_string d)

  unfoldable pub field_order : List Text
  field_order =
      let order = cfg.request_id_field ∷ [] in
      let order = if_named cfg.busy_field order (λ n. order ++ n ∷ []) in
      let order = order ++ cfg.done_field ∷ cfg.error_field ∷ [] in
      let order = if_any cfg.error_code_field (order ++ cfg.error_code_field ∷ []) order in
      let order = if_named cfg.step_field order (λ n. order ++ n ∷ []) in
      if_named cfg.step_name_field order (λ n. order ++ n ∷ [])

  abbrev pub structure_item : Text → PlcType → StructureDef → StructureDef
  structure_item name type rest =
      if is_name name cfg.step_name_field
      then item name type 1 (some cfg.step_name_length) rest
      else item name type 1 none rest

  -- the items of the names, whose types are looked up
  unfoldable pub structure_items : List (Text × PlcType) → List Text → Result StructureDef
  structure_items types [] = ok no_items
  structure_items types (name ∷ names) = or_raise (lookup_key name types) key_error >>= λ type.
      structure_items types names >>= λ rest. ok (structure_item name type rest)

  unfoldable pub get_status_structure_def : Result StructureDef
  unfolding field_types field_order structure_items
  get_status_structure_def = structure_items field_types (unique_after [] field_order)
