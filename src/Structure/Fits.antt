-- ===== src/Structure/Fits.antt =====
-- The dicts that fit a structure definition: the keys of the definition in its order, each with a
-- value that its type can carry.
use pyads_agile.Prelude.{
  ℕ, ◌*◌, ◌≤◌, ◌≡◌, ◌≢◌, refl, ap, subst, Option, none, some, ok, length, list_eq, list_eq_refl,
  ◌⊎◌, inl, inr, Bool-cases,
}
use pyads_agile.Python.Bytes.{Bytes}
use pyads_agile.Python.Utf8.{Text}
use pyads_agile.Python.Utf16
use pyads_agile.Structure.Value.{
  Value, text_value, dict_value, list_value, Values, no_values, value, Fields, no_fields, field,
  PlcType, plc_string, plc_wstring, scalar, structure, StructureDef, no_items, item, count,
  get_field, set_field, get_key,
}
use pyads_agile.Structure.Scalar.{FloatOps, format, Carries}
use pyads_agile.Structure.Texts.{string_size, IsPlainText, IsWideText}
use pyads_agile.Structure.Codec.{size_of_element}

abbrev pub AllValues : (Value → Type 0) → Values → Type 0
AllValues P no_values = Unit
AllValues P (value v vs) = P v × AllValues P vs

-- Fields one behind the other.
abbrev pub append_fields : Fields → Fields → Fields
append_fields no_fields gs = gs
append_fields (field n v fs) gs = field n v (append_fields fs gs)

-- None of the names of the second fields stands among the first or twice among the second.
abbrev pub IsFresh : Fields → Fields → Type 0
IsFresh acc no_fields = Unit
IsFresh acc (field n v fs) =
    (get_field n acc ≡ none) × IsFresh (append_fields acc (field n v no_fields)) fs

-- an array of one structure is written as a list and read as a dict
abbrev pub IsNoStructure : PlcType → Type 0
IsNoStructure (structure d) = ⊥
IsNoStructure t = Unit

module _ (ops : FloatOps) where
  -- A STRING carries ASCII, a WSTRING any text without a null, as long as they fit; a scalar what its
  -- format carries; a nested structure a dict of different names that fits it.
  abbrev mutual
    pub FitsElement : PlcType → Option ℕ → Value → Type 0
    FitsElement plc_string str_len (text_value t) = IsPlainText t × (length t ≤ string_size str_len)
    FitsElement plc_wstring str_len (text_value t) =
        IsWideText t
        × ((e : Bytes) × (Utf16.encode t ≡ ok e) × (length e ≤ 2 * string_size str_len))
    FitsElement (scalar s) str_len v = Carries ops (format s) v
    FitsElement (structure d) str_len (dict_value fs) = Fits d fs × IsFresh no_fields fs
    FitsElement t str_len v = ⊥

    -- one field for each item; an array of any size but 1 is a list, and structures need one
    pub Fits : StructureDef → Fields → Type 0
    Fits no_items no_fields = Unit
    Fits (item name t size str_len d) (field n v fs) =
        (n ≡ name)
        × ((k : ℕ) × (size_of_element t str_len ≡ ok k))
        × (((size ≡ 1) × IsNoStructure t × FitsElement t str_len v)
            ⊎ ((size ≢ 1)
                × ((vs : Values) × (v ≡ list_value vs)
                    × (count vs ≡ size)
                    × AllValues (FitsElement t str_len) vs)))
        × Fits d fs
    Fits d fs = ⊥

pub append_fields-nil : (fs : Fields) → append_fields fs no_fields ≡ fs
append_fields-nil no_fields = refl
append_fields-nil (field n v fs) = ap (field n v) (append_fields-nil fs)

pub append_fields-snoc :
    (acc : Fields) (n : Text) (v : Value) (fs : Fields)
    → append_fields (append_fields acc (field n v no_fields)) fs ≡ append_fields acc (field n v fs)
append_fields-snoc no_fields n v fs = refl
append_fields-snoc (field m w acc) n v fs = ap (field m w) (append_fields-snoc acc n v fs)

-- A new key goes to the end.
pub set_field-fresh :
    (acc : Fields) (n : Text) (v : Value)
    → get_field n acc ≡ none
    → set_field n v acc ≡ append_fields acc (field n v no_fields)
set_field-fresh no_fields n v h = refl
set_field-fresh (field m w acc) n v h = elim (Bool-cases (list_eq m n)) [
  | inl same ↦ absurd (not_some (rw same at h))
  | inr other ↦ rw other (ap (field m w) (set_field-fresh acc n v (rw other at h)))
]
  where
    not_some : {x : Value} → some x ≡ none → ⊥
    not_some e = cc

get_field-fresh :
    (acc : Fields) (n : Text) (v : Value) (fs : Fields)
    → get_field n acc ≡ none
    → get_field n (append_fields acc (field n v fs)) ≡ some v
get_field-fresh no_fields n v fs h = rw (list_eq_refl n)
get_field-fresh (field m w acc) n v fs h = elim (Bool-cases (list_eq m n)) [
  | inl same ↦ absurd (not_some (rw same at h))
  | inr other ↦ rw other (get_field-fresh acc n v fs (rw other at h))
]
  where
    not_some : {x : Value} → some x ≡ none → ⊥
    not_some e = cc

-- A dict answers for each of these fields.
abbrev pub Answers : Value → Fields → Type 0
Answers w no_fields = Unit
Answers w (field n v fs) = (get_key w n ≡ ok v) × Answers w fs

pub IsFresh-Answers :
    (acc fs : Fields) → IsFresh acc fs → Answers (dict_value (append_fields acc fs)) fs
IsFresh-Answers acc no_fields h = tt
IsFresh-Answers acc (field n v fs) h = (
  unfold get_key in rw (get_field-fresh acc n v fs h.0),
  subst (λ gs. Answers (dict_value gs) fs) (append_fields-snoc acc n v fs)
      (IsFresh-Answers (append_fields acc (field n v no_fields)) fs h.1),
)
