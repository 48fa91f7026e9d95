-- ===== src/Async/StepChain/Structures.antt =====
-- `get_status_structure_def` of src/pyads/async_connection.py finds a type for every field.
use pyads_agile.Prelude.{
  ℕ, Option, none, some, if◌then◌else◌, append_assoc, ◌≡◌, refl, sym, ap, ◌∙◌, subst, [], ◌∷◌, ◌++◌,
  List, Bool, true, false, ◌||◌, list_eq, list_eq_sound, list_eq_refl, ok, Bool-cases, inl, inr,
}
use pyads_agile.Python.Dict.{
  lookup_key-keys_of, contains, keys_of, set_key, lookup_key, lookup_key-set_key,
  lookup_key-set_key_other,
}
use pyads_agile.Python.Utf8.{Text}
use pyads_agile.Structure.Value.{
  PlcType, plc_string, scalar, plc_udint, plc_bool, plc_dint, StructureDef, no_items, item,
}
use pyads_agile.Async.StepChain.{
  StepChainConfig, if_named, if_any, add_new, unique_after, value_type, is_name, field_types,
  field_order, structure_item, structure_items, get_status_structure_def,
}
use pyads_agile.Async.StepChain.Membership.{
  item_names, contains-snoc, or_false, contains-add_new, contains-cons, contains-any, any,
  any-set_key, named, named_any, or_swap, test-if_named, test-if_any,
}

-- No name stands twice.
abbrev pub IsUnique : List Text → Type 0
IsUnique [] = Unit {0}
IsUnique (x ∷ xs) = (contains x xs ≡ false) × IsUnique xs

true_not : true ≡ false → ⊥
true_not e = cc

differs_sym : (x y : Text) → list_eq y x ≡ false → list_eq x y ≡ false
differs_sym x y d = elim (Bool-cases (list_eq x y)) [
  | inl same ↦
      absurd (true_not (sym (list_eq_refl x) ∙ ap (λ z. list_eq z x) (list_eq_sound x y same) ∙ d))
  | inr other ↦ other
]

or_assoc : (a b c : Bool) → ((a || b) || c) ≡ (a || (b || c))
or_assoc true b c = refl
or_assoc false b c = refl

contains-two :
    (t a b : Text) (xs : List Text)
    → contains t (xs ++ a ∷ b ∷ []) ≡ (list_eq b t || (list_eq a t || contains t xs))
contains-two t a b xs =
    ap (contains t) (sym (append_assoc xs (a ∷ []) (b ∷ [])))
    ∙ contains-snoc t b (xs ++ a ∷ [])
    ∙ ap (λ c. list_eq b t || c) (contains-snoc t a xs)

IsUnique-snoc :
    (xs : List Text) (x : Text) → IsUnique xs → contains x xs ≡ false → IsUnique (xs ++ x ∷ [])
IsUnique-snoc [] x u n = (refl, tt)
IsUnique-snoc (y ∷ ys) x u n = elim (Bool-cases (list_eq y x)) [
  | inl same ↦ absurd (true_not (rw same at n))
  | inr other ↦ (
    contains-snoc y x ys ∙ rw (differs_sym x y other) u.0,
    IsUnique-snoc ys x u.1 (rw other at n),
  )
]

unique_after-IsUnique : (seen xs : List Text) → IsUnique seen → IsUnique (unique_after seen xs)
unique_after-IsUnique seen [] u = u
unique_after-IsUnique seen (x ∷ xs) u = elim (Bool-cases (contains x seen)) [
  | inl known ↦ rw known (unique_after-IsUnique seen xs u)
  | inr new ↦ rw new (unique_after-IsUnique (seen ++ x ∷ []) xs (IsUnique-snoc seen x u new))
]

contains-unique_after :
    (t : Text) (seen xs : List Text)
    → contains t (unique_after seen xs) ≡ (contains t xs || contains t seen)
contains-unique_after t seen [] = refl
contains-unique_after t seen (x ∷ xs) =
    contains-unique_after t (add_new x seen) xs
    ∙ ap (λ c. contains t xs || c) (contains-add_new t x seen)
    ∙ or_swap (contains t xs) (list_eq x t) (contains t seen)
    ∙ sym (or_assoc (list_eq x t) (contains t xs) (contains t seen))
    ∙ ap (λ c. c || contains t seen) (sym (contains-cons t x xs))

or_true : (a b : Bool) → b ≡ true → (a || b) ≡ true
or_true true b e = refl
or_true false b e = e

-- the first item of a name: its type, how many it has, and the length of its texts
abbrev pub item_of : Text → StructureDef → Option (PlcType × ℕ × Option ℕ)
item_of t no_items = none
item_of t (item name y n l rest) =
    let more = item_of t rest in if list_eq name t then some (y, n, l) else more

-- a field of this name that is in use
abbrev pub is_used : Text → Option Text → Bool
is_used t o = if_named o false (λ n. list_eq n t)

abbrev pub is_any : Text → Text → Bool
is_any t s = if_any s (list_eq s t) false

abbrev or_else : {A : Type 0} → Bool → A → Option A → Option A
or_else b y o = if b then some y else o

lookup-set_key :
    {A : Type 0} (t n : Text) (y : A) (d : List (Text × A))
    → lookup_key t (set_key n y d) ≡ or_else (list_eq n t) y (lookup_key t d)
lookup-set_key t n y d = elim (Bool-cases (list_eq n t)) [
  | inl same ↦ rw same (
      ap (λ u. lookup_key u (set_key n y d)) (sym (list_eq_sound n t same))
      ∙ lookup_key-set_key n y d)
  | inr other ↦ rw other (lookup_key-set_key_other t n y d other)
]

lookup-if_named :
    {A : Type 0} (t : Text) (o : Option Text) (y : A) (d : List (Text × A))
    → lookup_key t (if_named o d (λ n. set_key n y d)) ≡ or_else (is_used t o) y (lookup_key t d)
lookup-if_named t none y d = refl
lookup-if_named t (some []) y d = refl
lookup-if_named t (some (c ∷ cs)) y d = lookup-set_key t (c ∷ cs) y d

lookup-if_any :
    {A : Type 0} (t s : Text) (y : A) (d : List (Text × A))
    → lookup_key t (if_any s (set_key s y d) d) ≡ or_else (is_any t s) y (lookup_key t d)
lookup-if_any t [] y d = refl
lookup-if_any t (c ∷ cs) y d = lookup-set_key t (c ∷ cs) y d

lookup-absent :
    {A : Type 0} (t : Text) (d : List (Text × A))
    → contains t (keys_of d) ≡ false
    → lookup_key t d ≡ none
lookup-absent t [] e = refl
lookup-absent t ((k, v) ∷ d) e = elim (Bool-cases (list_eq k t)) [
  | inl same ↦ absurd (true_not (rw same at e))
  | inr other ↦ rw other (lookup-absent t d (rw other at e))
]

module _ (cfg : StepChainConfig) where
  order_test :
      (t : Text) → contains t (field_order cfg) ≡ any (λ n. list_eq n t) (keys_of (field_types cfg))
  unfolding field_order field_types
  order_test t =
      let f = λ (n : Text). list_eq n t in
      let m = contains t in
      let k = λ (d : List (Text × PlcType)). any f (keys_of d) in
      let grow = λ (xs : List Text) (n : Text). contains-snoc t n xs in
      let o1 = cfg.request_id_field ∷ [] in
      let o2 = if_named cfg.busy_field o1 (λ n. o1 ++ n ∷ []) in
      let o3 = o2 ++ cfg.done_field ∷ cfg.error_field ∷ [] in
      let o4 = if_any cfg.error_code_field (o3 ++ cfg.error_code_field ∷ []) o3 in
      let o5 = if_named cfg.step_field o4 (λ n. o4 ++ n ∷ []) in
      let put = λ (n : Text) (y : PlcType) (d : List (Text × PlcType)). set_key n y d in
      let add = λ (d : List (Text × PlcType)) (n : Text) (y : PlcType). any-set_key f n y d in
      let d1 = put cfg.request_id_field (scalar plc_udint) [] in
      let d2 = if_named cfg.busy_field d1 (λ n. put n (scalar plc_bool) d1) in
      let d2' = put cfg.done_field (value_type cfg.done_value) d2 in
      let d3 = put cfg.error_field (value_type cfg.error_value) d2' in
      let d4 = if_any cfg.error_code_field (put cfg.error_code_field (scalar plc_dint) d3) d3 in
      let d5 = if_named cfg.step_field d4 (λ n. put n (scalar plc_udint) d4) in
      let e1 = contains-any t o1 in
      let e2 =
        test-if_named m f o1 cfg.busy_field (λ n. o1 ++ n ∷ []) (grow o1)
        ∙ ap (named f cfg.busy_field) e1
        ∙ sym (
            test-if_named k f d1 cfg.busy_field (λ n. put n (scalar plc_bool) d1)
              (λ n. add d1 n (scalar plc_bool))) in
      let e3 =
        contains-two t cfg.done_field cfg.error_field o2
        ∙ ap (λ c. f cfg.error_field || (f cfg.done_field || c)) e2
        ∙ ap (λ c. f cfg.error_field || c) (sym (add d2 cfg.done_field (value_type cfg.done_value)))
        ∙ sym (add d2' cfg.error_field (value_type cfg.error_value)) in
      let e4 =
        test-if_any m f o3 cfg.error_code_field (o3 ++ cfg.error_code_field ∷ [])
          (grow o3 cfg.error_code_field)
        ∙ ap (named_any f cfg.error_code_field) e3
        ∙ sym (
            test-if_any k f d3 cfg.error_code_field (put cfg.error_code_field (scalar plc_dint) d3)
              (add d3 cfg.error_code_field (scalar plc_dint))) in
      let e5 =
        test-if_named m f o4 cfg.step_field (λ n. o4 ++ n ∷ []) (grow o4)
        ∙ ap (named f cfg.step_field) e4
        ∙ sym (
            test-if_named k f d4 cfg.step_field (λ n. put n (scalar plc_udint) d4)
              (λ n. add d4 n (scalar plc_udint))) in
      test-if_named m f o5 cfg.step_name_field (λ n. o5 ++ n ∷ []) (grow o5)
      ∙ ap (named f cfg.step_name_field) e5
      ∙ sym (
          test-if_named k f d5 cfg.step_name_field (λ n. put n plc_string d5)
            (λ n. add d5 n plc_string))

  -- The type of a field by its name: what the fields before it in the structure say of the name does not
  -- count. A name that is `None` or empty is no field, where the configuration may lack one.
  pub type_of_field : Text → Option PlcType
  type_of_field t =
      if is_used t cfg.step_name_field
      then some plc_string
      else if is_used t cfg.step_field
      then some (scalar plc_udint)
      else if is_any t cfg.error_code_field
      then some (scalar plc_dint)
      else if list_eq cfg.error_field t
      then some (value_type cfg.error_value)
      else if list_eq cfg.done_field t
      then some (value_type cfg.done_value)
      else if is_used t cfg.busy_field
      then some (scalar plc_bool)
      else if list_eq cfg.request_id_field t
      then some (scalar plc_udint)
      else none

  field_types-type_of_field : (t : Text) → lookup_key t (field_types cfg) ≡ type_of_field t
  unfolding field_types type_of_field
  field_types-type_of_field t =
      let put = λ (n : Text) (y : PlcType) (d : List (Text × PlcType)). set_key n y d in
      let d1 = put cfg.request_id_field (scalar plc_udint) [] in
      let d2 = if_named cfg.busy_field d1 (λ n. put n (scalar plc_bool) d1) in
      let d2' = put cfg.done_field (value_type cfg.done_value) d2 in
      let d3 = put cfg.error_field (value_type cfg.error_value) d2' in
      let d4 = if_any cfg.error_code_field (put cfg.error_code_field (scalar plc_dint) d3) d3 in
      let d5 = if_named cfg.step_field d4 (λ n. put n (scalar plc_udint) d4) in
      let e1 = lookup-set_key t cfg.request_id_field (scalar plc_udint) [] in
      let e2 =
        lookup-if_named t cfg.busy_field (scalar plc_bool) d1
        ∙ ap (or_else (is_used t cfg.busy_field) (scalar plc_bool)) e1 in
      let e2' =
        lookup-set_key t cfg.done_field (value_type cfg.done_value) d2
        ∙ ap (or_else (list_eq cfg.done_field t) (value_type cfg.done_value)) e2 in
      let e3 =
        lookup-set_key t cfg.error_field (value_type cfg.error_value) d2'
        ∙ ap (or_else (list_eq cfg.error_field t) (value_type cfg.error_value)) e2' in
      let e4 =
        lookup-if_any t cfg.error_code_field (scalar plc_dint) d3
        ∙ ap (or_else (is_any t cfg.error_code_field) (scalar plc_dint)) e3 in
      let e5 =
        lookup-if_named t cfg.step_field (scalar plc_udint) d4
        ∙ ap (or_else (is_used t cfg.step_field) (scalar plc_udint)) e4 in
      lookup-if_named t cfg.step_name_field plc_string d5
      ∙ ap (or_else (is_used t cfg.step_name_field) plc_string) e5

  -- what an item of that type and name is
  abbrev pub item_with : Text → Option PlcType → Option (PlcType × ℕ × Option ℕ)
  item_with t none = none
  item_with t (some y) =
      some (y, 1, if is_name t cfg.step_name_field then some cfg.step_name_length else none)

  item_of-structure_item :
      (t name : Text) (y : PlcType) (rest : StructureDef)
      → item_of t (structure_item cfg name y rest)
        ≡ (if list_eq name t then item_with name (some y) else item_of t rest)
  item_of-structure_item t name y rest = elim (Bool-cases (is_name name cfg.step_name_field)) [
    | inl e ↦ rw e refl
    | inr e ↦ rw e refl
  ]

  structure_item-names :
      (name : Text) (y : PlcType) (rest : StructureDef)
      → item_names (structure_item cfg name y rest) ≡ name ∷ item_names rest
  structure_item-names name y rest = elim (Bool-cases (is_name name cfg.step_name_field)) [
    | inl e ↦ rw e refl
    | inr e ↦ rw e refl
  ]

  structure_items-of :
      (d : List (Text × PlcType)) (names : List Text)
      → ((t : Text) → contains t names ≡ true → contains t (keys_of d) ≡ true)
      → (def : StructureDef) × (structure_items cfg d names ≡ ok def)
        × (item_names def ≡ names)
        × ((t : Text)
            → item_of t def ≡ (if contains t names then item_with t (lookup_key t d) else none))
  unfolding structure_items
  structure_items-of d [] h = (no_items, refl, refl, λ t. refl)
  structure_items-of d (name ∷ names) h =
      let (y, e) = lookup_key-keys_of name d (h name (rw (list_eq_refl name) refl)) in
      let (def, f, g, all) =
        structure_items-of d names (λ t c.
          h t (contains-cons t name names ∙ or_true (list_eq name t) (contains t names) c)) in
      (
        structure_item cfg name y def,
        rw (e, f) refl,
        structure_item-names name y def ∙ ap (λ ns. name ∷ ns) g,
        λ t. item_of-structure_item t name y def ∙ elim (Bool-cases (list_eq name t)) [
          | inl same ↦ rw same (
              ap (item_with name) (sym e)
              ∙ ap (λ u. item_with u (lookup_key u d)) (list_eq_sound name t same))
          | inr other ↦ rw other (all t)
        ],
      )

  all_items :
      (t : Text) (d : List (Text × PlcType)) (b : Bool)
      → contains t (keys_of d) ≡ b
      → (if b then item_with t (lookup_key t d) else none) ≡ item_with t (lookup_key t d)
  all_items t d true e = refl
  all_items t d false e = ap (item_with t) (sym (lookup-absent t d e))

  -- The definition of the status structure can be built for every configuration, also one that gives two
  -- fields the same name. No two items have the same name, the items stand in the order of the first use
  -- of their names, and there is an item of a name just where the configuration has a field of it: of
  -- the type of the last such field, with the length of the step name where it is that field's name.
  pub get_status_structure_def-items :
      (def : StructureDef) × (get_status_structure_def cfg ≡ ok def)
      × IsUnique (item_names def)
      × (item_names def ≡ unique_after [] (field_order cfg))
      × ((t : Text) → item_of t def ≡ item_with t (type_of_field t))
  unfolding get_status_structure_def
  get_status_structure_def-items =
      let names = unique_after [] (field_order cfg) in
      let types = field_types cfg in
      let same = λ (t : Text).
        contains-unique_after t [] (field_order cfg) ∙ or_false (contains t (field_order cfg)) in
      let known = λ (t : Text). same t ∙ order_test t ∙ sym (contains-any t (keys_of types)) in
      let (def, e, f, all) = structure_items-of types names (λ t c. sym (known t) ∙ c) in
      (
        def,
        e,
        subst IsUnique (sym f) (unique_after-IsUnique [] (field_order cfg) tt),
        f,
        λ t.
            all t
            ∙ ap (λ b. if b then item_with t (lookup_key t types) else none) (known t)
            ∙ all_items t types (contains t (keys_of types)) refl
            ∙ ap (item_with t) (field_types-type_of_field t),
      )
