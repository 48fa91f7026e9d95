-- ===== src/Connection/Calls.antt =====
-- What the list functions of src/pyads/connection.py rest on: slices (src/pyads/ads.py), comprehensions
-- over dicts, the calls of an ADS connection, and the bytes of structures.
use pyads_agile.Prelude.{
  ℕ, zero, suc, ◌+◌, ltb, List, [], ◌∷◌, if◌then◌else◌, ◌==◌, length, take, drop, Option, none,
  some, Result, ok, err, or_raise, key_error, value_error, ◌>>=◌,
}
use pyads_agile.Python.Dict.{set_key, lookup_key}
use pyads_agile.Python.Exec.{Exec}
use pyads_agile.Python.Utf8.{Text}
use pyads_agile.Structure.Value.{StructureDef}

-- A slice for every number of `range(start, stop, size)`; each takes what the iterator still has. As
-- many rounds as there are elements are enough for the range.
abbrev pub slices_of : {A : Type 0} → ℕ → ℕ → ℕ → ℕ → List A → List (List A)
slices_of zero start stop size xs = []
slices_of (suc rounds) start stop size xs =
    let rest = slices_of rounds (start + size) stop size (drop size xs) in
    if ltb start stop then take size xs ∷ rest else []

-- `_list_slice_generator`, and `_dict_slice_generator` with the items of a dict; a step of 0 is an error
-- of `range`
unfoldable pub slice_generator : {A : Type 0} → List A → ℕ → Result (List (List A))
slice_generator xs size =
    if size == 0 then err value_error else ok (slices_of (length xs) 0 (length xs) size xs)

abbrev pub unless_there : {A : Type 0} → Option A → Text → List Text → List Text
unless_there none n rest = n ∷ rest
unless_there (some a) n rest = rest

-- `[i for i in names if i not in d]`
abbrev pub missing : {A : Type 0} → List (Text × A) → List Text → List Text
missing d [] = []
missing d (n ∷ ns) = unless_there (lookup_key n d) n (missing d ns)

-- `{i: d[i] for i in names}`, behind the items that are there
abbrev pub select :
    {A : Type 0} → List (Text × A) → List Text → List (Text × A) → Result (List (Text × A))
select d [] out = ok out
select d (n ∷ ns) out = or_raise (lookup_key n d) key_error >>= λ a. select d ns (set_key n a out)

-- What a connection calls: `adsGetSymbolInfo`, `adsSumRead` and `adsSumWrite` of src/pyads/pyads_ex.py
-- for its port and address, and `dict_from_bytes` and `bytes_from_dict` of src/pyads/ads.py for a
-- structure definition. `D` is the device, `I` the symbol information, `V` a value.
pub record SumCalls (D I V : Type 0) : Type 0 where
  pub get_symbol_info : Text → Exec D I
  pub sum_read : List Text → List (Text × I) → List Text → Exec D (List (Text × V))
  pub sum_write : List (Text × V) → List (Text × I) → List Text → Exec D (List (Text × V))
  pub from_bytes : StructureDef → V → Result V
  pub to_bytes : StructureDef → V → Result V

module _ {D I V : Type 0} (calls : SumCalls D I V) where
  -- the values of structures, where there are any
  abbrev pub decode_all : List (Text × StructureDef) → List (Text × V) → Result (List (Text × V))
  decode_all [] result = ok result
  decode_all ((n, def) ∷ defs) result = elim (lookup_key n result) [
    | none ↦ decode_all defs result
    | some bytes ↦ calls.from_bytes def bytes >>= λ v. decode_all defs (set_key n v result)
  ]

  abbrev pub encode_all : List (Text × StructureDef) → List (Text × V) → Result (List (Text × V))
  encode_all [] values = ok values
  encode_all ((n, def) ∷ defs) values = or_raise (lookup_key n values) key_error >>= λ v.
      calls.to_bytes def v >>= λ bytes. encode_all defs (set_key n bytes values)
