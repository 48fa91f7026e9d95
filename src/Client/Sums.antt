-- ===== src/Client/Sums.antt =====
-- `adsSumWrite` of src/pyads/pyads_ex.py: how the values of many variables become one buffer, and what is
-- sent.
pub mod Splices
pub mod Texts
pub mod Encodes
pub mod Batches
use pyads_agile.Prelude.{
  ℕ, zero, suc, ◌+◌, ◌*◌, ◌/◌, List, [], ◌∷◌, ◌++◌, Bool, true, false, if◌then◌else◌, ◌==◌, ltb,
  leb, length, take, drop, replicate, Option, none, some, Result, ok, err, struct_error, type_error,
  attribute_error, key_error, or_raise, ◌>>=◌,
}
use pyads_agile.Python.Bytes.{Bytes, pack}
use pyads_agile.Python.Dict.{lookup_key}
use pyads_agile.Python.Utf8.{Text}
use pyads_agile.Python.Utf8
use pyads_agile.Python.Utf16
use pyads_agile.Structure.Value.{
  Value, bool_value, int_value, float_value, text_value, dict_value, list_value, Values, no_values,
  value, count, Fields, no_fields, field, ScalarType,
}
use pyads_agile.Structure.Scalar.{FloatOps, format, sizeof, pack_format}

-- The type of a symbol: ADST_STRING and ADST_WSTRING with what `get_num_of_chars` finds, where it is not
-- -1, a type of `ads_type_to_ctype`, or another one.
pub data SymbolType : Type 0 where
  string_symbol wstring_symbol : Option ℕ → SymbolType
  scalar_symbol : ScalarType → SymbolType
  other_symbol : SymbolType

-- `SAdsSymbolEntry`
pub record SymbolInfo : Type 0 where
  pub group : ℕ
  pub offset : ℕ
  pub size : ℕ
  pub data_type : SymbolType

-- a value of `data_names_and_values`: the bytes of a structure, where the name is one of
-- `structured_data_names`, or a plain value
pub data Written : Type 0 where
  structured : Bytes → Written
  plain : Value → Written

-- `buf[a : a + n] = bs`
abbrev pub splice : ℕ → ℕ → Bytes → Bytes → Bytes
splice a n bs buf = take a buf ++ (bs ++ drop (a + n) buf)

-- `struct.pack_into`, of bytes that are packed already
unfoldable pub pack_into : Bytes → ℕ → Bytes → Result Bytes
pack_into bs offset buf =
    if leb (offset + length bs) (length buf)
    then ok (splice offset (length bs) bs buf)
    else err struct_error

-- what `enumerate(value)` goes through
abbrev pub characters : Text → Values
characters [] = no_values
characters (c ∷ cs) = value (text_value (c ∷ [])) (characters cs)

abbrev pub names : Fields → Values
names no_fields = no_values
names (field n v fs) = value (text_value n) (names fs)

abbrev pub elements : Value → Result Values
elements (list_value vs) = ok vs
elements (text_value t) = ok (characters t)
elements (dict_value fs) = ok (names fs)
elements v = err type_error

-- `value.encode(…)` put at the slice of `width * len(value)` bytes
unfoldable pub put_text : (Text → Result Bytes) → ℕ → Value → ℕ → Bytes → Result Bytes
put_text encode width (text_value t) offset buf =
    encode t >>= λ bs. ok (splice offset (width * length t) bs buf)
put_text encode width v offset buf = err attribute_error

unfoldable pub put_texts : (Text → Result Bytes) → ℕ → ℕ → Values → ℕ → Bytes → Result Bytes
unfolding put_text
put_texts encode width element_size no_values offset buf = ok buf
put_texts encode width element_size (value v vs) offset buf =
    put_text encode width v offset buf >>= λ buf'.
    put_texts encode width element_size vs (offset + element_size) buf'

-- a single text, or an array where the size is not the one of an element
unfoldable pub put_string :
    (Text → Result Bytes) → ℕ → Option ℕ → ℕ → Value → ℕ → Bytes → Result Bytes
unfolding put_text put_texts
put_string encode width none size v offset buf = put_text encode width v offset buf
put_string encode width (some num_string_chars) size v offset buf =
    let element_size = num_string_chars * width + width in
    if size == element_size
    then put_text encode width v offset buf
    else elements v >>= λ vs. put_texts encode width element_size vs offset buf

-- `iGroup`, `iOffs` and `size` of every symbol
unfoldable pub put_requests : List (SymbolInfo × Written) → ℕ → Bytes → Result Bytes
unfolding pack_into
put_requests [] offset buf = ok buf
put_requests ((info, w) ∷ items) offset buf = pack 4 info.group >>= λ group.
    pack_into group offset buf >>= λ buf. pack 4 info.offset >>= λ at.
    pack_into at (offset + 4) buf >>= λ buf. pack 4 info.size >>= λ size.
    pack_into size (offset + 8) buf >>= λ buf. put_requests items (offset + 12) buf

abbrev pub total_size : List (SymbolInfo × Written) → ℕ
total_size [] = 0
total_size ((info, w) ∷ items) = info.size + total_size items

-- `data_symbols[data_name]` for every value, which the loop over the sizes looks up first
abbrev pub with_symbols :
    List (Text × SymbolInfo) → List (Text × Written) → Result (List (SymbolInfo × Written))
with_symbols symbols [] = ok []
with_symbols symbols ((n, w) ∷ values) = or_raise (lookup_key n symbols) key_error >>= λ info.
    with_symbols symbols values >>= λ items. ok ((info, w) ∷ items)

module _ (ops : FloatOps) where
  unfoldable pub pack_all : ScalarType → Values → Result Bytes
  pack_all type no_values = ok []
  pack_all type (value v vs) =
      pack_format ops (format type) v >>= λ bs. pack_all type vs >>= λ rest. ok (bs ++ rest)

  -- `struct.pack_into` with as many characters of the format as there are to be values
  unfoldable pub pack_array : ScalarType → ℕ → Values → Result Bytes
  unfolding pack_all
  pack_array type n vs = if count vs == n then pack_all type vs else err struct_error

  unfoldable pub put_scalars : ScalarType → ℕ → Value → ℕ → Bytes → Result Bytes
  unfolding pack_array pack_into
  put_scalars type size v offset buf =
      if ltb (sizeof type) size
      then elements v
        >>= (λ vs. pack_array type (size / sizeof type) vs >>= λ bs. pack_into bs offset buf)
      else pack_format ops (format type) v >>= λ bs. pack_into bs offset buf

  unfoldable pub put_plain : SymbolType → ℕ → Value → ℕ → Bytes → Result Bytes
  unfolding put_string put_scalars
  put_plain (string_symbol n) size v offset buf = put_string Utf8.encode 1 n size v offset buf
  put_plain (wstring_symbol n) size v offset buf = put_string Utf16.encode 2 n size v offset buf
  put_plain (scalar_symbol type) size v offset buf = put_scalars type size v offset buf
  put_plain other_symbol size v offset buf = err key_error

  -- one round of the loop over the values
  unfoldable pub put_value : SymbolInfo → Written → ℕ → Bytes → Result Bytes
  unfolding put_plain
  put_value info (structured bs) offset buf = ok (splice offset info.size bs buf)
  put_value info (plain v) offset buf = put_plain info.data_type info.size v offset buf

  unfoldable pub put_values : List (SymbolInfo × Written) → ℕ → Bytes → Result Bytes
  unfolding put_value
  put_values [] offset buf = ok buf
  put_values ((info, w) ∷ items) offset buf =
      put_value info w offset buf >>= λ buf'. put_values items (offset + info.size) buf'

  -- the buffer for values with their symbols
  unfoldable pub items_buffer : List (SymbolInfo × Written) → Result Bytes
  unfolding put_values put_requests
  items_buffer items =
      let buf = replicate (length items * 3 * 4 + total_size items) 0 in
      put_requests items 0 buf >>= λ buf'. put_values items (length items * 12) buf'

  -- the buffer that `adsSumWriteBytes` sends to index group 0xF081 with the number of requests as offset
  unfoldable pub sum_write_buffer : List (Text × SymbolInfo) → List (Text × Written) → Result Bytes
  unfolding items_buffer
  sum_write_buffer symbols values = with_symbols symbols values >>= items_buffer
