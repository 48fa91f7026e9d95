-- ===== src/Connection.antt =====
-- Lists of variables: `read_list_by_name` and `write_list_by_name` of src/pyads/connection.py, with their
-- cache of symbols, and the generators of src/pyads/ads.py that cut a list or a dict into slices.
pub mod Calls
pub mod Slices
pub mod Symbols
pub mod Truths
pub mod Lists
pub mod Lifecycle
use pyads_agile.Prelude.{ok, ℕ, List, [], ◌∷◌, Bool, true, false, if◌then◌else◌, leb, length}
use pyads_agile.Python.Exec.{Exec, ◌>>=◌, pure, lift, gets}
use pyads_agile.Python.Utf8.{Text}
use pyads_agile.Structure.Value.{StructureDef}
use pyads_agile.Connection.Calls.{
  SumCalls, slice_generator, missing, select, decode_all, encode_all,
}
use pyads_agile.Python.Dict.{set_key, update_all, keys_of}

-- `_symbol_info_cache`, with the device
pub record Connection (D I : Type 0) : Type 0 where
  pub device : D
  pub symbol_info_cache : List (Text × I)

abbrev pub on_device : {D I A : Type 0} → Exec D A → Exec (Connection D I) A
on_device m c = let (r, d) = m c.device in (r, record c { device = d })

-- `self._symbol_info_cache.update(new_cache)`
abbrev pub update_cache : {D I : Type 0} → List (Text × I) → Exec (Connection D I) (Unit {0})
update_cache new c = (ok tt, record c { symbol_info_cache = update_all c.symbol_info_cache new })

module _ {D I V : Type 0} (calls : SumCalls D I V) where
  -- `{i: adsGetSymbolInfo(…, i) for i in names}`, behind the items that are there
  unfoldable pub request_symbols : List Text → List (Text × I) → Exec D (List (Text × I))
  unfolding ◌>>=◌
  request_symbols [] out = pure out
  request_symbols (n ∷ ns) out =
      calls.get_symbol_info n >>= λ i. request_symbols ns (set_key n i out)

  -- `data_symbols`
  unfoldable pub symbols_for : Bool → List Text → Exec (Connection D I) (List (Text × I))
  unfolding request_symbols ◌>>=◌
  symbols_for false names = on_device (request_symbols names [])
  symbols_for true names = gets (λ c. missing c.symbol_info_cache names) >>= λ new_items.
      on_device (request_symbols new_items []) >>= λ new_cache. update_cache new_cache >>= λ _.
      gets (λ c. c.symbol_info_cache) >>= λ cache. lift (select cache names [])

  -- the inner function `sum_read`
  unfoldable pub read_slice :
      List (Text × I) → List (Text × StructureDef) → List Text → Exec D (List (Text × V))
  unfolding ◌>>=◌
  read_slice symbols defs names =
      calls.sum_read names symbols (keys_of defs) >>= λ result. lift (decode_all calls defs result)

  unfoldable pub read_slices :
      List (Text × I)
      → List (Text × StructureDef)
      → List (List Text)
      → List (Text × V)
      → Exec D (List (Text × V))
  unfolding read_slice ◌>>=◌
  read_slices symbols defs [] out = pure out
  read_slices symbols defs (slice ∷ slices) out = read_slice symbols defs slice >>= λ result.
      read_slices symbols defs slices (update_all out result)

  unfoldable pub read_list_by_name :
      List Text → Bool → ℕ → List (Text × StructureDef) → Exec (Connection D I) (List (Text × V))
  unfolding symbols_for read_slices ◌>>=◌
  read_list_by_name names cache_symbol_info ads_sub_commands defs =
      symbols_for cache_symbol_info names >>= λ symbols.
      if leb (length names) ads_sub_commands
      then on_device (read_slice symbols defs names)
      else lift (slice_generator names ads_sub_commands) >>= λ slices.
          on_device (read_slices symbols defs slices [])

  unfoldable pub write_slices :
      List (Text × I)
      → List Text
      → List (List (Text × V))
      → List (Text × V)
      → Exec D (List (Text × V))
  unfolding ◌>>=◌
  write_slices symbols structured [] out = pure out
  write_slices symbols structured (slice ∷ slices) out =
      calls.sum_write slice symbols structured >>= λ result.
      write_slices symbols structured slices (update_all out result)

  unfoldable pub write_list_by_name :
      List (Text × V)
      → Bool
      → ℕ
      → List (Text × StructureDef)
      → Exec (Connection D I) (List (Text × V))
  unfolding symbols_for write_slices ◌>>=◌
  write_list_by_name values cache_symbol_info ads_sub_commands defs =
      symbols_for cache_symbol_info (keys_of values) >>= λ symbols.
      lift (encode_all calls defs values) >>= λ items.
      if leb (length items) ads_sub_commands
      then on_device (calls.sum_write items symbols (keys_of defs))
      else lift (slice_generator items ads_sub_commands) >>= λ slices.
          on_device (write_slices symbols (keys_of defs) slices [])
