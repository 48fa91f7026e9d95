-- ===== src/Python/Dict.antt =====
-- Python's `dict` with texts as keys, in the order of insertion, and membership in a list of texts.
use pyads_agile.Prelude.{
  ◌≡◌, refl, sym, ap, ◌∙◌, List, [], ◌∷◌, Bool, true, false, if◌then◌else◌, list_eq, list_eq_sound,
  list_eq_refl, Option, none, some, Bool-cases, inl, inr,
}
use pyads_agile.Python.Utf8.{Text}

-- `x in xs`
abbrev pub contains : Text → List Text → Bool
contains t [] = false
contains t (x ∷ xs) = if list_eq x t then true else contains t xs

-- `d[key] = v` and `d[key]` of a dict with texts as keys, in the order of insertion
abbrev pub set_key : {A : Type 0} → Text → A → List (Text × A) → List (Text × A)
set_key key v [] = (key, v) ∷ []
set_key key v ((k, w) ∷ d) =
    let rest = set_key key v d in if list_eq k key then (k, v) ∷ d else (k, w) ∷ rest

abbrev pub lookup_key : {A : Type 0} → Text → List (Text × A) → Option A
lookup_key key [] = none
lookup_key key ((k, w) ∷ d) = let rest = lookup_key key d in if list_eq k key then some w else rest

-- `d.update(new)`
abbrev pub update_all : {A : Type 0} → List (Text × A) → List (Text × A) → List (Text × A)
update_all d [] = d
update_all d ((k, v) ∷ new) = update_all (set_key k v d) new

-- the values and the keys of a dict
abbrev pub values_of : {A : Type 0} → List (Text × A) → List A
values_of [] = []
values_of ((k, v) ∷ d) = v ∷ values_of d

abbrev pub keys_of : {A : Type 0} → List (Text × A) → List Text
keys_of [] = []
keys_of ((k, v) ∷ d) = k ∷ keys_of d

if_true : {A : Type 0} {b : Bool} (x y : A) → b ≡ true → (if b then x else y) ≡ x
if_true x y e = rw e refl

if_false : {A : Type 0} {b : Bool} (x y : A) → b ≡ false → (if b then x else y) ≡ y
if_false x y e = rw e refl

pub lookup_key-set_key :
    {A : Type 0} (k : Text) (v : A) (d : List (Text × A)) → lookup_key k (set_key k v d) ≡ some v
lookup_key-set_key k v [] = if_true (some v) none (list_eq_refl k)
lookup_key-set_key k v ((l, w) ∷ d) = elim (Bool-cases (list_eq l k)) [
  | inl same ↦
      ap (lookup_key k) (if_true ((l, v) ∷ d) _ same) ∙ if_true (some v) (lookup_key k d) same
  | inr other ↦
      ap (lookup_key k) (if_false _ ((l, w) ∷ set_key k v d) other)
      ∙ if_false (some w) (lookup_key k (set_key k v d)) other
      ∙ lookup_key-set_key k v d
]

pub lookup_key-set_key_other :
    {A : Type 0} (n k : Text) (v : A) (d : List (Text × A))
    → list_eq k n ≡ false
    → lookup_key n (set_key k v d) ≡ lookup_key n d
lookup_key-set_key_other n k v [] h = if_false (some v) none h
lookup_key-set_key_other n k v ((l, w) ∷ d) h = elim (Bool-cases (list_eq l k)) [
  | inl same ↦
      let elsewhere = ap (λ z. list_eq z n) (list_eq_sound l k same) ∙ h in
      ap (lookup_key n) (if_true ((l, v) ∷ d) _ same)
      ∙ if_false (some v) (lookup_key n d) elsewhere
      ∙ sym (if_false (some w) (lookup_key n d) elsewhere)
  | inr other ↦
      ap (lookup_key n) (if_false _ ((l, w) ∷ set_key k v d) other)
      ∙ ap (λ r. if list_eq l n then some w else r) (lookup_key-set_key_other n k v d h)
]

pub lookup_key-keys_of :
    {A : Type 0} (n : Text) (d : List (Text × A))
    → contains n (keys_of d) ≡ true
    → (a : A) × (lookup_key n d ≡ some a)
lookup_key-keys_of n [] h = cc
lookup_key-keys_of n ((k, v) ∷ d) h = elim (Bool-cases (list_eq k n)) [
  | inl same ↦ (v, rw same refl)
  | inr other ↦ let (a, e) = lookup_key-keys_of n d (rw other at h) in (a, rw other e)
]
