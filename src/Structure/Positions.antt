-- ===== src/Structure/Positions.antt =====
-- Bytes at a position of a list of bytes, and elements at an index of an array.
use pyads_agile.Prelude.{
  ℕ, zero, suc, ◌+◌, ◌≡◌, ◌≢◌, refl, ◌∙◌, ap, sym, [], ◌++◌, append-nil, append_assoc, arith,
  Result, ok, length, length-append, slice, slice_at, Bool, true, false, ltb, ne→==,
}
use pyads_agile.Python.Bytes.{Bytes}
use pyads_agile.Structure.Value.{
  Value, list_value, Values, no_values, value, PlcType, plc_string, plc_wstring, unknown, scalar,
  structure, count, nth, get_index,
}
use pyads_agile.Structure.Codec.{pick, unwrap}
use pyads_agile.Structure.Fits.{IsNoStructure}

-- `bs` stands in a list of bytes from a position on.
pub record IsAt (bs byte_list : Bytes) (index : ℕ) : Type 0 where
  pub before : Bytes
  pub behind : Bytes
  pub split : byte_list ≡ before ++ (bs ++ behind)
  pub position : length before ≡ index

pub IsAt-slice :
    (bs bl : Bytes) (index n : ℕ)
    → IsAt bs bl index
    → length bs ≡ n
    → slice index (index + n) bl ≡ bs
IsAt-slice bs bl index n a l =
    slice_at index (index + n) bl a.before bs a.behind a.split a.position (omega (arith, l))

pub IsAt-left : (xs ys bl : Bytes) (index : ℕ) → IsAt (xs ++ ys) bl index → IsAt xs bl index
IsAt-left xs ys bl index a = record {
  before = a.before;
  behind = ys ++ a.behind;
  split = a.split ∙ ap (λ t. a.before ++ t) (append_assoc xs ys a.behind);
  position = a.position;
}

pub IsAt-right :
    (xs ys bl : Bytes) (index : ℕ) → IsAt (xs ++ ys) bl index → IsAt ys bl (index + length xs)
IsAt-right xs ys bl index a = record {
  before = a.before ++ xs;
  behind = a.behind;
  split =
      a.split
      ∙ ap (λ t. a.before ++ t) (append_assoc xs ys a.behind)
      ∙ sym (append_assoc a.before xs (ys ++ a.behind));
  position = omega (arith, length-append a.before xs, a.position);
}

pub IsAt-whole : (bs : Bytes) → IsAt bs bs 0
IsAt-whole bs = record { before = []; behind = []; split = sym (append-nil bs); position = refl }

-- how an element of an array is taken from the value of its key
abbrev pub taken : PlcType → Bool → Value → ℕ → Result Value
taken (structure d) many var i = get_index var i
taken t many var i = pick many var i

pub taken_plain : (t : PlcType) (v : Value) (i : ℕ) → IsNoStructure t → taken t false v i ≡ ok v
taken_plain plc_string v i h = refl
taken_plain plc_wstring v i h = refl
taken_plain unknown v i h = refl
taken_plain (scalar s) v i h = refl
taken_plain (structure d) v i h = absurd h

pub taken_many : (t : PlcType) (vs : Values) (i : ℕ) → taken t true (list_value vs) i ≡ nth vs i
unfolding get_index
taken_many plc_string vs i = refl
taken_many plc_wstring vs i = refl
taken_many unknown vs i = refl
taken_many (scalar s) vs i = refl
taken_many (structure d) vs i = refl

pub taken_single :
    (t : PlcType) (v : Value)
    → IsNoStructure t
    → (i : ℕ) (x : Value) → nth (value v no_values) i ≡ ok x
    → taken t false v i ≡ ok x
taken_single t v h zero x e = taken_plain t v 0 h ∙ e
taken_single t v h (suc i) x e = cc

pub taken_list :
    (t : PlcType) (vs : Values)
    → count vs ≢ 1
    → (i : ℕ) (x : Value) → nth vs i ≡ ok x
    → taken t (ltb 1 (count vs)) (list_value vs) i ≡ ok x
taken_list t no_values h i x e = cc
taken_list t (value v no_values) h i x e = absurd (h refl)
taken_list t (value v (value w vs)) h i x e =
    let several : ltb 1 (suc (suc (count vs))) ≡ true = ground arith in
    rw several (taken_many t (value v (value w vs)) i ∙ e)

pub unwrap_list : (vs : Values) → count vs ≢ 1 → unwrap (count vs) vs ≡ list_value vs
unwrap_list no_values h = refl
unwrap_list (value v vs) h = rw (ne→== (suc (count vs)) 1 h)
