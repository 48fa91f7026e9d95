-- ===== src/Structure/Value.antt =====
-- The Python values that `dict_from_bytes` returns and `bytes_from_dict` takes, and the structure
-- definitions of src/pyads/ads.py.
use pyads_agile.Prelude.{
  ℕ, zero, suc, [], ◌∷◌, Bool, if◌then◌else◌, list_eq, Option, none, some, Result, ok, err,
  key_error, type_error, index_error,
}
use pyads_agile.Python.Utf8.{Text}
use pyads_agile.Python.Int.{ℤ}

-- A `float` is its 64 bits in the format of IEEE 754, read as a number.
mutual
  pub data Value : Type 0 where
    bool_value : Bool → Value
    int_value : ℤ → Value
    float_value : ℕ → Value
    text_value : Text → Value
    dict_value : Fields → Value
    list_value : Values → Value

  pub data Values : Type 0 where
    no_values : Values
    value : Value → Values → Values

  pub data Fields : Type 0 where
    no_fields : Fields
    field : Text → Value → Fields → Fields

-- the keys of `DATATYPE_MAP` of src/pyads/constants.py
pub data ScalarType : Type 0 where
  plc_bool plc_byte plc_dint plc_dword plc_int plc_lreal plc_real : ScalarType
  plc_sint plc_udint plc_uint plc_usint plc_lint plc_ulint plc_word : ScalarType

-- A definition is a tuple of items (name, type, array size, length of a string); the last may be
-- missing. `unknown` is any type that is none of the others.
mutual
  pub data PlcType : Type 0 where
    plc_string plc_wstring unknown : PlcType
    scalar : ScalarType → PlcType
    structure : StructureDef → PlcType

  pub data StructureDef : Type 0 where
    no_items : StructureDef
    item : Text → PlcType → ℕ → Option ℕ → StructureDef → StructureDef

abbrev pub count : Values → ℕ
count no_values = 0
count (value v vs) = suc (count vs)

abbrev pub get_field : Text → Fields → Option Value
get_field name no_fields = none
get_field name (field n v fs) = if list_eq n name then some v else get_field name fs

-- `values[name] = v`: a present key keeps its place
abbrev pub set_field : Text → Value → Fields → Fields
set_field name v no_fields = field name v no_fields
set_field name v (field n w fs) =
    let rest = set_field name v fs in if list_eq n name then field n v fs else field n w rest

abbrev or_key_error : Option Value → Result Value
or_key_error none = err key_error
or_key_error (some v) = ok v

-- `cur_dict[name]`, which only a dict has for a text
unfoldable pub get_key : Value → Text → Result Value
get_key (dict_value fs) name = or_key_error (get_field name fs)
get_key v name = err type_error

abbrev pub nth : Values → ℕ → Result Value
nth no_values i = err index_error
nth (value v vs) zero = ok v
nth (value v vs) (suc i) = nth vs i

abbrev pub nth_char : Text → ℕ → Result Value
nth_char [] i = err index_error
nth_char (c ∷ cs) zero = ok (text_value (c ∷ []))
nth_char (c ∷ cs) (suc i) = nth_char cs i

-- `var[i]` for a number `i`: a dict of names has no such key
unfoldable pub get_index : Value → ℕ → Result Value
get_index (list_value vs) i = nth vs i
get_index (text_value t) i = nth_char t i
get_index (dict_value fs) i = err key_error
get_index v i = err type_error

-- `values if isinstance(values, list) else [values]`
abbrev pub as_list : Value → Values
as_list (list_value vs) = vs
as_list v = value v no_values
