-- ===== src/TestServer/Variable.antt =====
-- `PLCVariable` of src/pyads/testserver/advanced_handler.py, its symbol information and its
-- notifications, and `dt_to_filetime` of src/pyads/filetimes.py, which stamps them.
use pyads_agile.Prelude.{
  ℕ, ◌+◌, ◌*◌, ◌%◌, ◌^◌, Bool, true, false, List, [], ◌∷◌, ◌++◌, Option, none, some, ◌==◌,
  if◌then◌else◌, list_eq, length, Result, ok, ◌>>=◌,
}
use pyads_agile.Python.Bytes.{Bytes, pack}
use pyads_agile.Python.Utf8.{Text, encode}

-- `dt_to_filetime`, of a time given by its seconds since the Unix epoch (`timegm`)
unfoldable pub dt_to_filetime : ℕ → ℕ
dt_to_filetime seconds = 116444736000000000 + seconds * 10000000

pub record Variable : Type 0 where
  pub name : Text
  pub value : Bytes
  pub ads_type : ℕ
  pub symbol_type : Text
  pub handle : ℕ
  pub index_group : ℕ
  pub index_offset : ℕ
  pub comment : Text
  pub notifications : List ℕ
  pub notification_count : ℕ

-- a key of `callback_store` of src/pyads/pyads_ex.py: the identity of the `AmsAddr` object, which
-- has no `__eq__`, and the notification handle
pub record CallbackKey : Type 0 where
  pub address : ℕ
  pub notification : ℕ

-- One call of a user's callback: for whom, and the header that it gets.
pub record Event : Type 0 where
  pub address : ℕ
  pub notification : ℕ
  pub timestamp : ℕ
  pub sample_size : ℕ
  pub sample : Bytes

unfoldable pub contains : ℕ → List ℕ → Bool
contains h [] = false
contains h (x ∷ xs) = if x == h then true else contains h xs

-- `list.remove`: the first occurrence goes
unfoldable pub remove : ℕ → List ℕ → List ℕ
remove h [] = []
remove h (x ∷ xs) = if x == h then xs else x ∷ remove h xs

-- `name.strip("\x00")`, from the left and from the right
unfoldable pub strip_left : Text → Text
strip_left [] = []
strip_left (c ∷ cs) = let rest = strip_left cs in if c == 0 then rest else c ∷ cs

unfoldable pub strip_right : Text → Text
strip_right [] = []
strip_right (c ∷ cs) =
    let rest = strip_right cs in
    elim rest [ [] ↦ if c == 0 then [] else c ∷ [] | d ∷ ds ↦ c ∷ d ∷ ds ]

unfoldable pub strip_nul : Text → Text
unfolding strip_left strip_right
strip_nul name = strip_right (strip_left name)

abbrev or_default : Option ℕ → ℕ → ℕ
or_default none d = d
or_default (some n) d = n

-- `PLCVariable.__init__`, for a value given as bytes: the new object, and the class's next handle.
unfoldable pub new_variable : ℕ → Text → Bytes → ℕ → Text → Option ℕ → Option ℕ → Variable × ℕ
new_variable handle_count name value ads_type symbol_type index_group index_offset = (
  record {
    name = strip_nul name;
    value = value;
    ads_type = ads_type;
    symbol_type = symbol_type;
    handle = handle_count;
    index_group = or_default index_group 12345;
    index_offset = or_default index_offset (10000 + handle_count);
    comment = [];
    notifications = [];
    notification_count = 10;
  },
  handle_count + 1,
)

-- `get_packed_info`
unfoldable pub get_packed_info : Variable → Result Bytes
get_packed_info var = do
  name_bytes ← encode var.name
  symbol_type_bytes ← encode var.symbol_type
  comment_bytes ← encode var.comment
  entry_length ←
      pack 4 (
        6 * 4 + 3 * 2 + length name_bytes + 1 + length symbol_type_bytes + 1 + length comment_bytes)
  group ← pack 4 var.index_group
  offset ← pack 4 var.index_offset
  size ← pack 4 (length var.value)
  ads_type ← pack 4 var.ads_type
  flags ← pack 4 0
  name_length ← pack 2 (length name_bytes)
  type_length ← pack 2 (length symbol_type_bytes)
  comment_length ← pack 2 (length comment_bytes)
  ok (
      entry_length
      ++ (group
          ++ (offset
              ++ (size
                  ++ (ads_type
                      ++ (flags
                          ++ (name_length
                              ++ (type_length
                                  ++ (comment_length
                                      ++ (name_bytes
                                          ++ (0x20 ∷ symbol_type_bytes
                                              ++ (0x20 ∷ comment_bytes))))))))))))

-- the calls of `func` for one notification handle, in the order of `callback_store`
unfoldable pub notify : ℕ → ℕ → Bytes → List CallbackKey → List Event
notify seconds handle value [] = []
notify seconds handle value (key ∷ keys) =
    let rest = notify seconds handle value keys in
    if key.notification == handle
    then record {
      address = key.address;
      notification = handle;
      timestamp = dt_to_filetime seconds % 2 ^ 64;
      sample_size = length value % 2 ^ 32;
      sample = value;
    }
      ∷ rest
    else rest

unfoldable pub notify_all : ℕ → List ℕ → Bytes → List CallbackKey → List Event
notify_all seconds [] value keys = []
notify_all seconds (h ∷ hs) value keys =
    notify seconds h value keys ++ notify_all seconds hs value keys

-- `PLCVariable.write` at a time, under the present `callback_store`: the changed object, and the
-- calls of callbacks.
unfoldable pub write : ℕ → List CallbackKey → Bytes → Variable → Variable × List Event
write seconds keys value var = (
  record var { value = value },
  if list_eq var.value value then [] else notify_all seconds var.notifications value keys,
)

unfoldable pub register_notification : Variable → Variable × ℕ
register_notification var = (
  record var {
    notifications = var.notifications ++ var.notification_count ∷ [];
    notification_count = var.notification_count + 1;
  },
  var.notification_count,
)

-- `none` unregisters all
unfoldable pub unregister_notification : Option ℕ → Variable → Variable
unregister_notification none var = record var { notifications = [] }
unregister_notification (some handle) var =
    if contains handle var.notifications
    then record var { notifications = remove handle var.notifications }
    else var
