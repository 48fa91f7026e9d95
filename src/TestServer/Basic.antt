-- ===== src/TestServer/Basic.antt =====
-- `BasicHandler` of src/pyads/testserver/basic_handler.py, which keeps no state and answers every
-- request with fixed values.
pub mod Responses
use Prim.Native.Nat.{bit_or}
use pyads_agile.Prelude.{
  ℕ, zero, suc, ◌+◌, ◌-◌, ◌*◌, ◌/◌, ◌^◌, List, [], ◌∷◌, ◌++◌, Bool, true, false, ◌&&◌, ◌||◌, ◌==◌,
  ltb, if◌then◌else◌, length, slice, take, replicate, Option, none, some, Result, ok, err,
  struct_error, ◌>>=◌,
}
use pyads_agile.Python.Bytes.{Bytes, pack, unpack, to_le}
use pyads_agile.Python.Utf8.{Text, decode}
use pyads_agile.TestServer.Packet.{AmsPacket, AmsResponseData}

-- `part in text`
pub is_prefix : Text → Text → Bool
is_prefix [] t = true
is_prefix (c ∷ cs) [] = false
is_prefix (c ∷ cs) (d ∷ ds) = (c == d) && is_prefix cs ds

unfoldable pub is_part : Text → Text → Bool
unfolding is_prefix
is_part part [] = is_prefix part []
is_part part (c ∷ cs) = is_prefix part (c ∷ cs) || is_part part cs

-- `n - 1` bytes 0x0F and a null; for n = 0 the null alone
unfoldable pub filler : ℕ → Bytes
filler n = replicate (n - 1) 0x0F ++ 0 ∷ []

-- "str_", "no_type" and "ar_"
abbrev str_prefix : Text
str_prefix = 115 ∷ 116 ∷ 114 ∷ 95 ∷ []

abbrev no_type_name : Text
no_type_name = 110 ∷ 111 ∷ 95 ∷ 116 ∷ 121 ∷ 112 ∷ 101 ∷ []

abbrev array_prefix : Text
array_prefix = 97 ∷ 114 ∷ 95 ∷ []

-- `struct.pack("<IIIIIIHHH", 30, 0, 0, size, ads_type, 0, 0, 0, 0)`
pub symbol_entry : ℕ → ℕ → Bytes
symbol_entry size ads_type =
    to_le 4 30
    ++ (to_le 4 0 ++ (to_le 4 0 ++ (to_le 4 size ++ (to_le 4 ads_type ++ replicate 10 0))))

unfoldable pub symbol_info : Text → Bytes
unfolding symbol_entry
symbol_info name =
    if is_part str_prefix name
    then symbol_entry 5 30
    else if is_part no_type_name name
    then symbol_entry 5 1
    else if is_part array_prefix name
    then symbol_entry 2 17
    else symbol_entry 1 17

-- the values of a sum read, for the requests from `i` on: "test" and a null where the size is 5,
-- and otherwise the byte `i + 1`, which must fit a byte
pub sum_values : ℕ → ℕ → Bytes → Result Bytes
sum_values zero i write_data = ok []
sum_values (suc n) i write_data = do
  let rest = sum_values n (i + 1) write_data
  size ← unpack 4 (slice (i * 12 + 8) (i * 12 + 12) write_data)
  values ← rest
  if size == 5
      then ok (116 ∷ 101 ∷ 115 ∷ 116 ∷ 0 ∷ values)
      else if ltb i 255
      then ok ((i + 1) ∷ values)
      else err struct_error

unfoldable pub read_write_value : ℕ → ℕ → Bytes → Result Bytes
unfolding sum_values filler
read_write_value index_group response_length write_data =
    if index_group == 0xF009
    then (do name ← decode write_data; ok (symbol_info name))
    else if index_group == 0xF080
    then (do
      let n_reads = length write_data / 12
      values ← sum_values n_reads 0 write_data
      ok (replicate (n_reads * 4) 0 ++ values))
    else if index_group == 0xF081
    then ok (replicate (length write_data / 12 * 4) 0)
    else if ltb 0 response_length
    then ok (filler response_length)
    else ok []

unfoldable pub handle_read : Bytes → Result Bytes
unfolding filler
handle_read payload = do
  response_length ← unpack 4 (slice 8 12 payload)
  size ← pack 4 (length (filler response_length))
  ok (size ++ filler response_length)

unfoldable pub handle_read_write : Bytes → Result Bytes
handle_read_write payload = do
  index_group ← unpack 4 (take 4 payload)
  response_length ← unpack 4 (slice 8 12 payload)
  write_length ← unpack 4 (slice 12 16 payload)
  response_value ←
      read_write_value index_group response_length (slice 16 (16 + write_length) payload)
  size ← pack 4 (length response_value)
  ok (size ++ response_value)

-- the content of the response, on the command id; `none` for an unknown command
unfoldable pub response_content : ℕ → Bytes → Option (Result Bytes)
response_content command_id payload =
    if command_id == 1
    then some
        (ok (1 ∷ 2 ∷ 3 ∷ 0 ∷ 84 ∷ 101 ∷ 115 ∷ 116 ∷ 83 ∷ 101 ∷ 114 ∷ 118 ∷ 101 ∷ 114 ∷ 0 ∷ []))
    else if command_id == 2
    then some (handle_read payload)
    else if command_id == 3
    then some (ok [])
    else if command_id == 4
    then some (ok (to_le 2 5 ++ to_le 2 0))
    else if command_id == 5
    then some (ok [])
    else if command_id == 6
    then some (ok (replicate 4 0x0F))
    else if command_id == 7
    then some (ok [])
    else if command_id == 8
    then some (ok [])
    else if command_id == 9
    then some (handle_read_write payload)
    else none

unfoldable pub respond : Bytes → Bytes → Option (Result Bytes) → Result AmsResponseData
respond state error_code none =
    ok (record { state_flags = state; error_code = 8 ∷ 0 ∷ 0 ∷ 0 ∷ []; content = [] })
respond state error_code (some run) = do
  content ← run
  ok (record {
    state_flags = state;
    error_code = error_code;
    content = (0 ∷ 0 ∷ 0 ∷ 0 ∷ []) ++ content;
  })

unfoldable pub handle_request : AmsPacket → Result AmsResponseData
unfolding respond
handle_request request = do
  command_id ← unpack 2 request.ams_header.command_id
  flags ← unpack 2 request.ams_header.state_flags
  state ← pack 2 (bit_or flags 1)
  respond state request.ams_header.error_code
      (response_content command_id request.ams_header.payload)
