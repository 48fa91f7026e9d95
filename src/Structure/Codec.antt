-- ===== src/Structure/Codec.antt =====
-- `size_of_structure`, `bytes_from_dict` and `dict_from_bytes` of src/pyads/ads.py.
use pyads_agile.Prelude.{
  ℕ, zero, suc, ◌+◌, ◌*◌, [], ◌++◌, Bool, true, false, ltb, ◌==◌, if◌then◌else◌, slice, Option,
  Result, ok, err, ◌>>=◌, runtime_error, attribute_error,
}
use pyads_agile.Python.Bytes.{Bytes}
use pyads_agile.Python.Utf8.{Text}
use pyads_agile.Structure.Value.{
  Value, text_value, dict_value, list_value, Values, no_values, value, Fields, no_fields, PlcType,
  plc_string, plc_wstring, unknown, scalar, structure, StructureDef, no_items, item, set_field,
  get_key, get_index, as_list,
}
use pyads_agile.Structure.Scalar.{FloatOps, format, sizeof, pack_format, unpack_format}
use pyads_agile.Structure.Texts.{
  string_size, encode_string, encode_wstring, decode_string, decode_wstring,
}

-- the size of one element of an item, and that of a structure
unfoldable mutual
  pub size_of_element : PlcType → Option ℕ → Result ℕ
  size_of_element plc_string str_len = ok (string_size str_len + 1)
  size_of_element plc_wstring str_len = ok (2 * (string_size str_len + 1))
  size_of_element unknown str_len = err runtime_error
  size_of_element (scalar s) str_len = ok (sizeof s)
  size_of_element (structure d) str_len = size_of_structure d

  pub size_of_structure : StructureDef → Result ℕ
  size_of_structure no_items = ok 0
  size_of_structure (item name plc_datatype size str_len d) = do
    n ← size_of_element plc_datatype str_len
    rest ← size_of_structure d
    ok (n * size + rest)

-- `var[i] if size > 1 else var`
abbrev pub pick : Bool → Value → ℕ → Result Value
pick true var i = get_index var i
pick false var i = ok var

-- only a text can be encoded
abbrev pub as_text : Value → Result Text
as_text (text_value t) = ok t
as_text v = err attribute_error

-- the bytes for `i`, `i + 1` and so on, `n` times
abbrev pub for_range : ℕ → ℕ → (ℕ → Result Bytes) → Result Bytes
for_range zero i f = ok []
for_range (suc n) i f = f i >>= λ bs. for_range n (suc i) f >>= λ rest. ok (bs ++ rest)

abbrev pub for_values : Values → (Value → Result Bytes) → Result Bytes
for_values no_values f = ok []
for_values (value v vs) f = f v >>= λ bs. for_values vs f >>= λ rest. ok (bs ++ rest)

-- values read one after the other from a position on, and the position behind them
abbrev pub read_values : ℕ → ℕ → (ℕ → Result (Value × ℕ)) → Result (Values × ℕ)
read_values zero index f = ok (no_values, index)
read_values (suc n) index f =
    f index >>= λ r. read_values n r.1 f >>= λ rest. ok (value r.0 rest.0, rest.1)

-- `var_array[0]` for the size 1, which has one value, and otherwise the whole list
abbrev pub unwrap : ℕ → Values → Value
unwrap size no_values = list_value no_values
unwrap size (value v vs) = if size == 1 then v else list_value (value v vs)

module _ (ops : FloatOps) where
  -- one round of the loop over an array, and the loop over the items, for one dict
  unfoldable mutual
    pub encode_element : PlcType → Option ℕ → Bool → Value → ℕ → Result Bytes
    encode_element plc_string str_len many var i =
        pick many var i >>= as_text >>= encode_string (string_size str_len)
    encode_element plc_wstring str_len many var i =
        pick many var i >>= as_text >>= encode_wstring (string_size str_len)
    encode_element unknown str_len many var i = err runtime_error
    encode_element (scalar s) str_len many var i = pick many var i >>= pack_format ops (format s)
    encode_element (structure d) str_len many var i =
        get_index var i >>= λ v. for_values (as_list v) (encode_dict d)

    pub encode_dict : StructureDef → Value → Result Bytes
    encode_dict no_items cur_dict = ok []
    encode_dict (item name plc_datatype size str_len d) cur_dict = do
      var ← get_key cur_dict name
      bs ← for_range size 0 (encode_element plc_datatype str_len (ltb 1 size) var)
      rest ← encode_dict d cur_dict
      ok (bs ++ rest)

  unfoldable pub bytes_from_dict : Value → StructureDef → Result Bytes
  bytes_from_dict values structure_def = for_values (as_list values) (encode_dict structure_def)

  -- one round of the loop over an array, and the loop over the items, which fills the dict `values`
  unfoldable mutual
    pub decode_element : PlcType → Option ℕ → Bytes → ℕ → Result (Value × ℕ)
    decode_element plc_string str_len byte_list index = do
      let n = string_size str_len + 1
      t ← decode_string (slice index (index + n) byte_list)
      ok (text_value t, index + n)
    decode_element plc_wstring str_len byte_list index = do
      let n_bytes = 2 * (string_size str_len + 1)
      t ← decode_wstring (slice index (index + n_bytes) byte_list)
      ok (text_value t, index + n_bytes)
    decode_element unknown str_len byte_list index = err runtime_error
    decode_element (scalar s) str_len byte_list index = do
      let n_bytes = sizeof s
      v ← unpack_format ops (format s) (slice index (index + n_bytes) byte_list)
      ok (v, index + n_bytes)
    decode_element (structure d) str_len byte_list index = do
      n_bytes ← size_of_structure d
      r ← decode_items d (slice index (index + n_bytes) byte_list) 0 no_fields
      ok (dict_value r.0, index + n_bytes)

    pub decode_items : StructureDef → Bytes → ℕ → Fields → Result (Fields × ℕ)
    decode_items no_items byte_list index values = ok (values, index)
    decode_items (item name plc_datatype size str_len d) byte_list index values = do
      r ← read_values size index (decode_element plc_datatype str_len byte_list)
      decode_items d byte_list r.1 (set_field name (unwrap size r.0) values)

  -- one structure of the array
  unfoldable pub decode_structure : StructureDef → Bytes → ℕ → Result (Value × ℕ)
  decode_structure structure_def byte_list index =
      decode_items structure_def byte_list index no_fields >>= λ r. ok (dict_value r.0, r.1)

  unfoldable pub dict_from_bytes : Bytes → StructureDef → ℕ → Result Value
  unfolding decode_structure
  dict_from_bytes byte_list structure_def array_size =
      read_values array_size 0 (decode_structure structure_def byte_list) >>= λ r.
      ok (unwrap array_size r.0)
