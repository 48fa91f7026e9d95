-- ===== src/TestServer/Store.antt =====
-- The dict `_data` of `AdvancedHandler` in src/pyads/testserver/advanced_handler.py, the searches
-- through it, and the lists that requests and responses carry on the wire.
pub mod Laws
use pyads_agile.Prelude.{
  ℕ, zero, suc, ◌+◌, List, [], ◌∷◌, ◌++◌, Option, none, some, ◌&&◌, ◌==◌, if◌then◌else◌, slice,
  replicate, list_eq, Result, ok, ◌>>=◌,
}
use pyads_agile.Python.Bytes.{Bytes, pack, unpack}
use pyads_agile.Python.Utf8.{Text}
use pyads_agile.TestServer.Variable.{Variable, contains}

-- an entry of the dict `_data`, from (index group, index offset) to the variable
pub record Entry : Type 0 where
  pub group : ℕ
  pub offset : ℕ
  pub var : Variable

-- `(group, offset) in self._data` and `self._data[group, offset]`
unfoldable pub find : ℕ → ℕ → List Entry → Option Variable
find g o [] = none
find g o (e ∷ es) = if e.group == g && e.offset == o then some e.var else find g o es

-- `self._data[group, offset] = var`: a present key keeps its place
unfoldable pub insert : ℕ → ℕ → Variable → List Entry → List Entry
insert g o v [] = record { group = g; offset = o; var = v } ∷ []
insert g o v (e ∷ es) =
    if e.group == g && e.offset == o then record e { var = v } ∷ es else e ∷ insert g o v es

unfoldable pub find_by_handle : ℕ → List Entry → Option Entry
find_by_handle h [] = none
find_by_handle h (e ∷ es) = if e.var.handle == h then some e else find_by_handle h es

unfoldable pub find_by_name : Text → List Entry → Option Entry
find_by_name n [] = none
find_by_name n (e ∷ es) = if list_eq e.var.name n then some e else find_by_name n es

unfoldable pub find_by_notification : ℕ → List Entry → Option Entry
find_by_notification h [] = none
find_by_notification h (e ∷ es) =
    if contains h e.var.notifications then some e else find_by_notification h es

-- What an upload says of each symbol: 120 bytes, of which 12 are filled in.
pub upload_symbols : List Entry → Result Bytes
upload_symbols [] = ok []
upload_symbols (e ∷ es) = do
  let rest = upload_symbols es
  entry_length ← pack 4 120
  group ← pack 4 e.group
  offset ← pack 4 e.offset
  symbols ← rest
  ok ((entry_length ++ (group ++ (offset ++ replicate 108 0))) ++ symbols)

-- one request of a sum command: index group, index offset and size
pub record SumRequest : Type 0 where
  pub group : ℕ
  pub offset : ℕ
  pub size : ℕ

-- `rq_list`: `count` requests of 12 bytes each, from position `i` on
unfoldable pub rq_list : ℕ → ℕ → Bytes → Result (List SumRequest)
rq_list zero i write_data = ok []
rq_list (suc count) i write_data = do
  group ← unpack 4 (slice i (i + 4) write_data)
  offset ← unpack 4 (slice (i + 4) (i + 8) write_data)
  size ← unpack 4 (slice (i + 8) (i + 12) write_data)
  rest ← rq_list count (i + 12) write_data
  ok (record { group = group; offset = offset; size = size } ∷ rest)
