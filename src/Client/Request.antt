-- ===== src/Client/Request.antt =====
-- `adsSyncReadReqEx2`, `adsSyncWriteReqEx` and `adsSyncReadWriteReqEx2` of src/pyads/pyads_ex.py, for
-- strings and single values. The ADS library that they call is a parameter.
use pyads_agile.Prelude.{
  ℕ, ◌+◌, ◌-◌, ◌%◌, ◌^◌, List, [], ◌∷◌, ◌++◌, Bool, true, false, not, ◌&&◌, ◌==◌, if◌then◌else◌,
  length, take, replicate, Option, none, some, Result, ok, err, ads_error, runtime_error,
  value_error, type_error, attribute_error, ◌>>=◌,
}
use pyads_agile.Python.Bytes.{Bytes, to_le}
use pyads_agile.Python.Int.{ℤ, pos, negsuc}
use pyads_agile.Python.Utf8.{Text}
use pyads_agile.Python.Utf8
use pyads_agile.Python.Utf16
use pyads_agile.Python.Exec.{Exec}
use pyads_agile.Structure.Value.{Value, bool_value, int_value, float_value, text_value, ScalarType}
use pyads_agile.Structure.Scalar.{
  FloatOps, Format, boolean, single, double, unsigned_int, signed_int, format, sizeof, truth,
  int_of_bool, unpack_format,
}
use pyads_agile.Structure.Texts.{before_null, find_wstring_null_terminator}

-- the types of a value that is read or written: PLCTYPE_STRING, PLCTYPE_WSTRING and single values
pub data DataType : Type 0 where
  string_type wstring_type : DataType
  single_type : ScalarType → DataType

-- what the library answers to a read: an error code, `bytes_read`, and the bytes it has written
pub record Answer : Type 0 where
  pub error_code : ℕ
  pub bytes_read : ℕ
  pub written : Bytes

-- `AdsSyncReadReqEx2`, `AdsSyncWriteReqEx` and `AdsSyncReadWriteReqEx2` of the ADS library, by index
-- group, index offset, the length of the buffer to read into and the bytes to write; and
-- `AdsSyncAddDeviceNotificationReqEx`, which answers an error code and a notification handle, and
-- `AdsSyncDelDeviceNotificationReqEx`.
pub record Library (D : Type 0) : Type 0 where
  pub read : ℕ → ℕ → ℕ → D → Answer × D
  pub write : ℕ → ℕ → Bytes → D → ℕ × D
  pub read_write : ℕ → ℕ → ℕ → Bytes → D → Answer × D
  pub add_notification : ℕ → ℕ → D → (ℕ × ℕ) × D
  pub delete_notification : ℕ → D → ℕ × D

-- a call of the library
pub data Call : Type 0 where
  read_call : ℕ → ℕ → ℕ → Call
  write_call : ℕ → ℕ → Bytes → Call
  read_write_call : ℕ → ℕ → ℕ → Bytes → Call
  add_call : ℕ → ℕ → Call
  delete_call : ℕ → Call

-- an entry of `callback_store`: the identity of the `AmsAddr` object, which has no `__eq__`, the
-- notification handle, and the callback
pub record Callback : Type 0 where
  pub address : ℕ
  pub notification : ℕ
  pub function : ℕ

-- the device behind the library, the calls that were made, the latest last, and `callback_store`
pub record Client (D : Type 0) : Type 0 where
  pub device : D
  pub calls : List Call
  pub callback_store : List Callback

-- `STRING_BUFFER` bytes for a text, and the size of the C type for a value
abbrev pub buffer_length : DataType → ℕ
buffer_length string_type = 1024
buffer_length wstring_type = 1024
buffer_length (single_type s) = sizeof s

abbrev pub is_text : DataType → Bool
is_text string_type = true
is_text wstring_type = true
is_text (single_type s) = false

-- the buffer, zero at first, after the library has written to it
abbrev pub buffer : ℕ → Bytes → Bytes
buffer n written = take n (written ++ replicate n 0)

abbrev cut_wide : Bytes → Option ℕ → Result Value
cut_wide bs none = err value_error
cut_wide bs (some i) = Utf16.decode (take i bs) >>= λ t. ok (text_value t)

-- the bytes of an integer, of which a C type keeps the low ones
abbrev pub wrap : ℕ → ℤ → Bytes
wrap w (pos n) = to_le w n
wrap w (negsuc n) = to_le w (256 ^ w - 1 - n % 256 ^ w)

abbrev int_argument : Value → Result ℤ
int_argument (int_value z) = ok z
int_argument (bool_value b) = ok (int_of_bool b)
int_argument v = err type_error

-- `ops` converts as `struct` does, `to_single` as `c_float` does, which knows infinity.
module _ (ops : FloatOps) (to_single : ℕ → ℕ) where
  -- `get_value_from_ctype_data`
  unfoldable pub get_value_from_ctype_data : DataType → Bytes → Result Value
  get_value_from_ctype_data string_type bs = Utf8.decode (before_null bs) >>= λ t. ok (text_value t)
  get_value_from_ctype_data wstring_type bs = cut_wide bs (find_wstring_null_terminator bs)
  get_value_from_ctype_data (single_type s) bs = unpack_format ops (format s) bs

  abbrev float_argument : Value → Result ℕ
  float_argument (float_value x) = ok x
  float_argument (int_value z) = ops.of_int z
  float_argument (bool_value b) = ops.of_int (int_of_bool b)
  float_argument v = err type_error

  -- `plc_data_type(value)` for the C type of a format
  unfoldable pub c_value : Format → Value → Result Bytes
  c_value boolean v = ok (if truth v then 1 ∷ [] else 0 ∷ [])
  c_value (unsigned_int w) v = int_argument v >>= λ z. ok (wrap w z)
  c_value (signed_int w) v = int_argument v >>= λ z. ok (wrap w z)
  c_value single v = float_argument v >>= λ x. ok (to_le 4 (to_single x))
  c_value double v = float_argument v >>= λ x. ok (to_le 8 x)

  -- the bytes that a write sends: a C string ends at its first null
  unfoldable pub data_bytes : DataType → Value → Result Bytes
  data_bytes string_type (text_value t) = Utf8.encode t >>= λ bs. ok (before_null bs ++ 0 ∷ [])
  data_bytes wstring_type (text_value t) = Utf16.encode t
  data_bytes (single_type s) v = c_value (format s) v
  data_bytes t v = err attribute_error

  -- what follows a call: an error code raises, and so does a value of the wrong length
  unfoldable pub answered : DataType → Bool → Answer → Result Value
  answered data_type check_length a =
      if a.error_code == 0
      then (if check_length
            && not (is_text data_type)
            && not (a.bytes_read == buffer_length data_type)
          then err runtime_error
          else get_value_from_ctype_data data_type (buffer (buffer_length data_type) a.written))
      else err (ads_error a.error_code)

  module _ {D : Type 0} (library : Library D) where
    unfoldable pub ads_sync_read_req_ex2 : ℕ → ℕ → DataType → Bool → Exec (Client D) Value
    ads_sync_read_req_ex2 index_group index_offset data_type check_length c =
        let n = buffer_length data_type in
        let (a, device) = library.read index_group index_offset n c.device in
        (
          answered data_type check_length a,
          record c {
            device = device;
            calls = c.calls ++ read_call index_group index_offset n ∷ [];
          },
        )

    unfoldable pub send : ℕ → ℕ → Result Bytes → Exec (Client D) Unit
    send index_group index_offset (err x) c = (err x, c)
    send index_group index_offset (ok bs) c =
        let (error_code, device) = library.write index_group index_offset bs c.device in
        (
          if error_code == 0 then ok tt else err (ads_error error_code),
          record c {
            device = device;
            calls = c.calls ++ write_call index_group index_offset bs ∷ [];
          },
        )

    unfoldable pub ads_sync_write_req_ex : ℕ → ℕ → Value → DataType → Exec (Client D) Unit
    unfolding send
    ads_sync_write_req_ex index_group index_offset v plc_data_type c =
        send index_group index_offset (data_bytes plc_data_type v) c

    unfoldable pub exchange : ℕ → ℕ → DataType → Result Bytes → Exec (Client D) Value
    exchange index_group index_offset read_data_type (err x) c = (err x, c)
    exchange index_group index_offset read_data_type (ok bs) c =
        let n = buffer_length read_data_type in
        let (a, device) = library.read_write index_group index_offset n bs c.device in
        (
          answered read_data_type true a,
          record c {
            device = device;
            calls = c.calls ++ read_write_call index_group index_offset n bs ∷ [];
          },
        )

    -- `adsSyncReadWriteReqEx2` with a text to write, of which it sends as many bytes as the text has
    -- characters and one more, out of the encoded text and a null
    unfoldable pub ads_sync_read_write_req_ex2 : ℕ → ℕ → DataType → Text → Exec (Client D) Value
    unfolding exchange
    ads_sync_read_write_req_ex2 index_group index_offset read_data_type value c =
        exchange index_group index_offset read_data_type
          (Utf8.encode value >>= λ bs. ok (take (length value + 1) (bs ++ 0 ∷ []))) c
