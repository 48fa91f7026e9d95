-- ===== src/TestServer/Advanced.antt =====
-- `AdvancedHandler` of src/pyads/testserver/advanced_handler.py: one function for each method and
-- for each command. A Python exception leaves the handler with what was written before it.
pub mod Responses
pub mod Notifications
pub mod Keeps
pub mod Values
pub mod Sums
pub mod Evolves
use Prim.Native.Nat.{bit_or}
use pyads_agile.Prelude.{
  ℕ, ◌+◌, ◌*◌, List, [], ◌∷◌, ◌++◌, ◌==◌, if◌then◌else◌, slice, drop, replicate, length, take, ltb,
  ◌^◌, ok, key_error, overflow_error, or_raise, Option, some, none,
}
use pyads_agile.Python.Bytes.{Bytes, pack, unpack, to_le, of_le}
use pyads_agile.Python.Utf8.{Text, decode}
use pyads_agile.Python.Exec.{Exec, pure, raise, lift, gets, ◌>>=◌, ◌>>◌}
use pyads_agile.TestServer.Packet.{AmsPacket, AmsResponseData}
use pyads_agile.TestServer.Variable.{
  Variable, CallbackKey, Event, strip_nul, write, register_notification, unregister_notification,
  get_packed_info,
}
use pyads_agile.TestServer.Store.{
  Entry, find, insert, find_by_handle, find_by_name, find_by_notification, upload_symbols,
  SumRequest, rq_list,
}

-- `_data` in insertion order, the client's `callback_store`, the time (in seconds since the Unix
-- epoch) that `datetime.now` would give, and the callbacks that were called, the latest last.
pub record Handler : Type 0 where
  pub store : List Entry
  pub callbacks : List CallbackKey
  pub now : ℕ
  pub events : List Event

abbrev pub Action : Type 0 → Type 0
Action A = Exec Handler A

unfoldable pub get_variable_by_handle : ℕ → Action Entry
get_variable_by_handle handle h = (or_raise (find_by_handle handle h.store) key_error, h)

unfoldable pub get_variable_by_indices : ℕ → ℕ → Action Variable
get_variable_by_indices group offset h = (or_raise (find group offset h.store) key_error, h)

unfoldable pub get_variable_by_name : Text → Action Entry
get_variable_by_name name h = (or_raise (find_by_name (strip_nul name) h.store) key_error, h)

unfoldable pub get_variable_by_notification_handle : ℕ → Action Entry
get_variable_by_notification_handle handle h =
    (or_raise (find_by_notification handle h.store) key_error, h)

unfoldable pub add_variable : Variable → Handler → Handler
add_variable var h = record h { store = insert var.index_group var.index_offset var h.store }

unfoldable pub reset : Handler → Handler
reset h = record h { store = [] }

-- `var.write(value, request)` on the variable that is stored under a key
unfoldable pub write_at : ℕ → ℕ → Variable → Bytes → Action Unit
unfolding write
write_at group offset var value h =
    let (var', called) = write h.now h.callbacks value var in
    (ok tt, record h { store = insert group offset var' h.store; events = h.events ++ called })

-- `var.register_notification()` and `var.unregister_notification(handle)`, likewise
unfoldable pub register_at : ℕ → ℕ → Variable → Action ℕ
unfolding register_notification
register_at group offset var h =
    let (var', handle) = register_notification var in
    (ok handle, record h { store = insert group offset var' h.store })

unfoldable pub unregister_at : ℕ → ℕ → Variable → ℕ → Action Unit
unfolding unregister_notification
unregister_at group offset var handle h = (
  ok tt,
  record h { store = insert group offset (unregister_notification (some handle) var) h.store },
)

-- "TestServer" and a null
abbrev device_name : Bytes
device_name = 84 ∷ 101 ∷ 115 ∷ 116 ∷ 83 ∷ 101 ∷ 114 ∷ 118 ∷ 101 ∷ 114 ∷ 0 ∷ []

unfoldable pub handle_read_device_info : Action Bytes
handle_read_device_info = pure (1 ∷ 2 ∷ 3 ∷ 0 ∷ device_name)

-- the branches of `handle_read`, on the index group
unfoldable pub read_value : ℕ → ℕ → ℕ → Action Bytes
read_value index_group index_offset plc_datatype =
    if index_group == 0xF005
    then (do entry ← get_variable_by_handle index_offset; pure entry.var.value)
    else if index_group == 0xF00F
    then (do
      entries ← gets (λ h. h.store)
      symbol_count ← lift (pack 4 (length entries))
      response_length ← lift (pack 4 (120 * length entries))
      pure (symbol_count ++ response_length))
    else if index_group == 0xF00B
    then (do entries ← gets (λ h. h.store); lift (upload_symbols entries))
    else do
      var ← get_variable_by_indices index_group index_offset
      pure (take plc_datatype var.value)

unfoldable pub handle_read : Bytes → Action Bytes
handle_read payload = do
  index_group ← lift (unpack 4 (take 4 payload))
  index_offset ← lift (unpack 4 (slice 4 8 payload))
  plc_datatype ← lift (unpack 4 (slice 8 12 payload))
  response_value ← read_value index_group index_offset plc_datatype
  size ← lift (pack 4 (length response_value))
  pure (size ++ response_value)

-- the branches of `handle_write`, on the index group
unfoldable pub write_value : ℕ → ℕ → Bytes → Action Bytes
write_value index_group index_offset value =
    if index_group == 0xF006
    then pure []
    else if index_group == 0xF005
    then (do
      entry ← get_variable_by_handle index_offset
      write_at entry.group entry.offset entry.var value
      pure [])
    else do
      var ← get_variable_by_indices index_group index_offset
      write_at index_group index_offset var value
      pure []

unfoldable pub handle_write : Bytes → Action Bytes
handle_write payload = do
  index_group ← lift (unpack 4 (take 4 payload))
  index_offset ← lift (unpack 4 (slice 4 8 payload))
  plc_datatype ← lift (unpack 4 (slice 8 12 payload))
  write_value index_group index_offset (slice 12 (12 + plc_datatype) payload)

-- the loop of a sum write over its requests, `rest` being the values that are left
pub sum_write : List SumRequest → Bytes → Action Unit
sum_write [] rest = pure tt
sum_write (r ∷ rs) rest = do
  var ← get_variable_by_indices r.group r.offset
  write_at r.group r.offset var (take r.size rest)
  sum_write rs (drop r.size rest)

-- the loop of a sum read: the values one after the other
pub sum_read : List SumRequest → Action Bytes
sum_read [] = pure []
sum_read (r ∷ rs) = do
  var ← get_variable_by_indices r.group r.offset
  rest ← sum_read rs
  pure (var.value ++ rest)

-- the branches of `handle_read_write`, on the index group
unfoldable pub read_write_value : ℕ → ℕ → ℕ → Bytes → Action Bytes
read_write_value index_group index_offset read_length write_data =
    if index_group == 0xF003
    then (do
      var_name ← lift (decode write_data)
      entry ← get_variable_by_name var_name
      lift (pack 4 entry.var.handle))
    else if index_group == 0xF009
    then (do
      var_name ← lift (decode write_data)
      entry ← get_variable_by_name var_name
      lift (get_packed_info entry.var))
    else if index_group == 0xF081
    then (do
      requests ← lift (rq_list index_offset 0 write_data)
      sum_write requests (drop (index_offset * 12) write_data)
      pure (replicate (index_offset * 4) 0))
    else if index_group == 0xF080
    then (do
      requests ← lift (rq_list index_offset 0 write_data)
      values ← sum_read requests
      pure (replicate (index_offset * 4) 0 ++ values))
    else do
      var ← get_variable_by_indices index_group index_offset
      write_at index_group index_offset var write_data
      pure (take read_length var.value)

unfoldable pub handle_read_write : Bytes → Action Bytes
handle_read_write payload = do
  index_group ← lift (unpack 4 (take 4 payload))
  index_offset ← lift (unpack 4 (slice 4 8 payload))
  read_length ← lift (unpack 4 (slice 8 12 payload))
  write_length ← lift (unpack 4 (slice 12 16 payload))
  let write_data = slice 16 (16 + write_length) payload
  read_data ← read_write_value index_group index_offset read_length write_data
  size ← lift (pack 4 (length read_data))
  pure (size ++ read_data)

-- `ADSSTATE_RUN` and a device state of 0
unfoldable pub handle_read_state : Action Bytes
handle_read_state = do
  ads_state ← lift (pack 2 5)
  device_state ← lift (pack 2 0)
  pure (ads_state ++ device_state)

-- `struct.unpack("<IIIIII", data[:24])` wants 24 bytes; only the first two numbers are used.
unfoldable pub handle_add_devicenote : Bytes → Action Bytes
handle_add_devicenote payload = do
  unpacked ← lift (unpack 24 (take 24 payload))
  let index_group = of_le (take 4 payload)
  let index_offset = of_le (slice 4 8 payload)
  var ← get_variable_by_indices index_group index_offset
  handle ← register_at index_group index_offset var
  if ltb handle (256 ^ 4) then pure (to_le 4 handle) else raise overflow_error

unfoldable pub handle_delete_devicenote : Bytes → Action Bytes
handle_delete_devicenote payload = do
  handle ← lift (unpack 4 (take 4 payload))
  entry ← get_variable_by_notification_handle handle
  unregister_at entry.group entry.offset entry.var handle
  pure []

-- `function_map`, on the command id; `none` where it has no entry
unfoldable pub run_command : ℕ → Bytes → Option (Action Bytes)
run_command command_id payload =
    if command_id == 1
    then some handle_read_device_info
    else if command_id == 2
    then some (handle_read payload)
    else if command_id == 3
    then some (handle_write payload)
    else if command_id == 9
    then some (handle_read_write payload)
    else if command_id == 4
    then some handle_read_state
    else if command_id == 5
    then some (pure [])
    else if command_id == 6
    then some (handle_add_devicenote payload)
    else if command_id == 7
    then some (handle_delete_devicenote payload)
    else if command_id == 8
    then some (pure [])
    else none

unfoldable pub respond : Bytes → Bytes → Option (Action Bytes) → Action AmsResponseData
respond state error_code none =
    pure (record { state_flags = state; error_code = 8 ∷ 0 ∷ 0 ∷ 0 ∷ []; content = [] })
respond state error_code (some run) = do
  content ← run
  pure (record {
    state_flags = state;
    error_code = error_code;
    content = (0 ∷ 0 ∷ 0 ∷ 0 ∷ []) ++ content;
  })

unfoldable pub handle_request : AmsPacket → Action AmsResponseData
unfolding respond
handle_request request = do
  command_id ← lift (unpack 2 request.ams_header.command_id)
  flags ← lift (unpack 2 request.ams_header.state_flags)
  state ← lift (pack 2 (bit_or flags 1))
  respond state request.ams_header.error_code (run_command command_id request.ams_header.payload)
