-- ===== src/Async/StepChain/Membership.antt =====
-- What the lists and dicts of `AsyncStepChainRpcObject` contain when names are added to them one by
-- one, as Boolean tests.
use pyads_agile.Prelude.{
  ◌≡◌, refl, sym, ap, ◌∙◌, subst, [], ◌∷◌, ◌++◌, List, Bool, true, false, ◌||◌, if◌then◌else◌,
  list_eq, list_eq_sound, Option, none, some, Bool-cases, inl, inr,
}
use pyads_agile.Python.Dict.{contains, keys_of, set_key}
use pyads_agile.Python.Utf8.{Text}
use pyads_agile.Structure.Value.{StructureDef, no_items, item}
use pyads_agile.Async.StepChain.{if_named, if_any, dotted, add_new}

-- the names of the items
abbrev pub item_names : StructureDef → List Text
item_names no_items = []
item_names (item name type n length rest) = name ∷ item_names rest

pub if-or : (b c : Bool) → (if b then true else c) ≡ (b || c)
if-or true c = refl
if-or false c = refl

pub or_swap : (a b c : Bool) → (a || (b || c)) ≡ (b || (a || c))
or_swap true true c = refl
or_swap true false c = refl
or_swap false true c = refl
or_swap false false c = refl

pub or_false : (a : Bool) → (a || false) ≡ a
or_false true = refl
or_false false = refl

pub or_same : (a b c : Bool) → (a ≡ true → b ≡ true) → (a || (b || c)) ≡ (b || c)
or_same true b c h = rw (h refl) refl
or_same false b c h = refl

pub list_eq_trans : (x y t : Text) → list_eq x y ≡ true → list_eq y t ≡ list_eq x t
list_eq_trans x y t e = ap (λ z. list_eq z t) (sym (list_eq_sound x y e))

pub contains-snoc :
    (t x : Text) (xs : List Text) → contains t (xs ++ x ∷ []) ≡ (list_eq x t || contains t xs)
contains-snoc t x [] = if-or (list_eq x t) false
contains-snoc t x (y ∷ ys) =
    if-or (list_eq y t) (contains t (ys ++ x ∷ []))
    ∙ ap (λ c. list_eq y t || c) (contains-snoc t x ys)
    ∙ or_swap (list_eq y t) (list_eq x t) (contains t ys)
    ∙ ap (λ c. list_eq x t || c) (sym (if-or (list_eq y t) (contains t ys)))

pub contains-cons :
    (t x : Text) (xs : List Text) → contains t (x ∷ xs) ≡ (list_eq x t || contains t xs)
contains-cons t x xs = if-or (list_eq x t) (contains t xs)

pub contains-known :
    (t x : Text) (xs : List Text) → contains x xs ≡ true → list_eq x t ≡ true → contains t xs ≡ true
contains-known t x xs h e = subst (λ z. contains z xs ≡ true) (list_eq_sound x t e) h

pub contains-add_new :
    (t x : Text) (xs : List Text) → contains t (add_new x xs) ≡ (list_eq x t || contains t xs)
contains-add_new t x xs = elim (Bool-cases (contains x xs)) [
  | inl known ↦
      rw known (sym (known_or (list_eq x t) (contains t xs) (contains-known t x xs known)))
  | inr new ↦ rw new (contains-snoc t x xs)
]
  where
    known_or : (a b : Bool) → (a ≡ true → b ≡ true) → (a || b) ≡ b
    known_or true b h = sym (h refl)
    known_or false b h = refl

-- a name that an option may give, in the value of a test
abbrev pub named : (Text → Bool) → Option Text → Bool → Bool
named f o c = if_named o c (λ n. f n || c)

abbrev pub named_any : (Text → Bool) → Text → Bool → Bool
named_any f s c = if_any s (f s || c) c

abbrev pub any : (Text → Bool) → List Text → Bool
any f [] = false
any f (x ∷ xs) = f x || any f xs

pub named_swap :
    (f : Text → Bool) (o : Option Text) (a c : Bool) → named f o (a || c) ≡ (a || named f o c)
named_swap f none a c = refl
named_swap f (some []) a c = refl
named_swap f (some (x ∷ xs)) a c = or_swap (f (x ∷ xs)) a c

pub contains-any : (t : Text) (xs : List Text) → contains t xs ≡ any (λ x. list_eq x t) xs
contains-any t [] = refl
contains-any t (x ∷ xs) = contains-cons t x xs ∙ ap (λ c. list_eq x t || c) (contains-any t xs)

pub any-set_key :
    {A : Type 0} (f : Text → Bool) (k : Text) (v : A) (d : List (Text × A))
    → any f (keys_of (set_key k v d)) ≡ (f k || any f (keys_of d))
any-set_key f k v [] = refl
any-set_key f k v ((l, w) ∷ d) = elim (Bool-cases (list_eq l k)) [
  | inl same ↦ rw (same, list_eq_sound l k same) (sym (or_twice (f k) (any f (keys_of d))))
  | inr other ↦
      rw other (ap (λ c. f l || c) (any-set_key f k v d) ∙ or_swap (f l) (f k) (any f (keys_of d)))
]
  where
    or_twice : (a b : Bool) → (a || (a || b)) ≡ (a || b)
    or_twice true b = refl
    or_twice false b = refl

-- What a test makes of something that names are added to, when it is one test more for every name.
module _ {A : Type 0} (test : A → Bool) (f : Text → Bool) (a : A) where
  pub test-if_named :
      (o : Option Text) (g : Text → A)
      → ((n : Text) → test (g n) ≡ (f n || test a))
      → test (if_named o a g) ≡ named f o (test a)
  test-if_named none g h = refl
  test-if_named (some []) g h = refl
  test-if_named (some (c ∷ cs)) g h = h (c ∷ cs)

  pub test-if_any :
      (s : Text) (b : A) → test b ≡ (f s || test a) → test (if_any s b a) ≡ named_any f s (test a)
  test-if_any [] b h = refl
  test-if_any (c ∷ cs) b h = h

  if_named-dotted :
      (root n : Text) (g : Text → A) → if_named (some (dotted root n)) a g ≡ g (dotted root n)
  if_named-dotted [] n g = refl
  if_named-dotted (c ∷ cs) n g = refl

  -- the optional symbols of `_status_symbols`
  pub test-optional_symbol :
      (root : Text) (o : Option Text) (g : Text → A)
      → ((n : Text) → test (g (dotted root n)) ≡ (f n || test a))
      → test (if_named (if_named o none (λ n. some (dotted root n))) a g) ≡ named f o (test a)
  test-optional_symbol root none g h = refl
  test-optional_symbol root (some []) g h = refl
  test-optional_symbol root (some (c ∷ cs)) g h =
      ap test (if_named-dotted root (c ∷ cs) g) ∙ h (c ∷ cs)

  pub test-code_symbol :
      (root s : Text) (g : Text → A)
      → test (g (dotted root s)) ≡ (f s || test a)
      → test (if_named (if_any s (some (dotted root s)) none) a g) ≡ named_any f s (test a)
  test-code_symbol root [] g h = refl
  test-code_symbol root (c ∷ cs) g h = ap test (if_named-dotted root (c ∷ cs) g) ∙ h
