-- ===== src/Async/StepChain/Symbols.antt =====
-- The places of src/pyads/async_connection.py that list the status fields agree: the symbols that are
-- read while waiting, and those that `read_status` reads.
use pyads_agile.Prelude.{
  ◌≡◌, refl, sym, ap, ◌∙◌, [], ◌∷◌, List, Bool, false, ◌||◌, list_eq, list_eq_sound, Option, none,
  some, Bool-cases, inl, inr, All,
}
use pyads_agile.Python.Dict.{contains, keys_of, set_key, values_of}
use pyads_agile.Python.Utf8.{Text}
use pyads_agile.Async.StepChain.{
  StepChainConfig, if_named, if_any, dotted, add_new, status_symbol, status_symbols,
  status_symbols_for_read, status_field_symbol_map,
}
use pyads_agile.Async.StepChain.Membership.{
  contains-add_new, contains-cons, contains-any, any, any-set_key, named, named_any, named_swap,
  or_swap, test-if_named, test-if_any, test-optional_symbol, test-code_symbol,
}

-- the symbol of every name that is one of these
module _ (cfg : StepChainConfig) (f : Text → Bool) where
  abbrev fields_test : Bool
  fields_test = named f cfg.step_name_field (
      named f cfg.step_field (
        named_any f cfg.error_code_field (
          f cfg.error_field
          || named f cfg.busy_field (f cfg.request_id_field || (f cfg.done_field || false)))))

-- What holds with and without the names that may be added.
module _ {A : Type 0} (P : A → Type 0) (a : A) (h : P a) where
  if_named-keeps : (o : Option Text) (g : Text → A) → ((n : Text) → P (g n)) → P (if_named o a g)
  if_named-keeps none g k = h
  if_named-keeps (some []) g k = h
  if_named-keeps (some (c ∷ cs)) g k = k (c ∷ cs)

  if_any-keeps : (s : Text) (b : A) → P b → P (if_any s b a)
  if_any-keeps [] b k = h
  if_any-keeps (c ∷ cs) b k = k

module _ (cfg : StepChainConfig) (object_name : Text) where
  pub root : Text
  root = status_symbol cfg object_name

  is_symbol : Text → Text → Bool
  is_symbol t n = list_eq (dotted root n) t

  read-test :
      (t : Text)
      → contains t (status_symbols_for_read cfg object_name) ≡ fields_test cfg (is_symbol t)
  unfolding status_symbols_for_read status_symbols root is_symbol
  read-test t =
      let f = is_symbol t in
      let m = contains t in
      let s1 = dotted root cfg.request_id_field ∷ dotted root cfg.done_field ∷ [] in
      let grow = λ (xs : List Text) (n : Text). contains-add_new t (dotted root n) xs in
      let s2 = if_named (status_symbols cfg object_name).busy s1 (λ x. add_new x s1) in
      let s3 = add_new (dotted root cfg.error_field) s2 in
      let s4 = if_named (status_symbols cfg object_name).failed_code s3 (λ x. add_new x s3) in
      let s5 = if_named cfg.step_field s4 (λ n. add_new (dotted root n) s4) in
      let e1 : m s1 ≡ (f cfg.request_id_field || (f cfg.done_field || false)) = contains-any t s1 in
      let e2 =
        test-optional_symbol m f s1 root cfg.busy_field (λ x. add_new x s1) (grow s1)
        ∙ ap (named f cfg.busy_field) e1 in
      let e3 = grow s2 cfg.error_field ∙ ap (λ c. f cfg.error_field || c) e2 in
      let e4 =
        test-code_symbol m f s3 root cfg.error_code_field (λ x. add_new x s3)
          (grow s3 cfg.error_code_field)
        ∙ ap (named_any f cfg.error_code_field) e3 in
      let e5 =
        test-if_named m f s4 cfg.step_field (λ n. add_new (dotted root n) s4) (grow s4)
        ∙ ap (named f cfg.step_field) e4 in
      test-if_named m f s5 cfg.step_name_field (λ n. add_new (dotted root n) s5) (grow s5)
      ∙ ap (named f cfg.step_name_field) e5

  map_test :
      (f : Text → Bool)
      → any f (keys_of (status_field_symbol_map cfg object_name)) ≡ fields_test cfg f
  unfolding status_field_symbol_map root
  map_test f =
      let m = λ (d : List (Text × Text)). any f (keys_of d) in
      let put = λ (n : Text) (d : List (Text × Text)). set_key n (dotted root n) d in
      let grow = λ (d : List (Text × Text)) (n : Text). any-set_key f n (dotted root n) d in
      let d0 = put cfg.request_id_field [] in
      let d1 = put cfg.done_field d0 in
      let d2 = put cfg.error_field d1 in
      let d3 = if_named cfg.busy_field d2 (λ n. put n d2) in
      let d4 = if_any cfg.error_code_field (put cfg.error_code_field d3) d3 in
      let d5 = if_named cfg.step_field d4 (λ n. put n d4) in
      let e1 = grow d0 cfg.done_field ∙ or_swap (f cfg.done_field) (f cfg.request_id_field) false in
      let e2 = grow d1 cfg.error_field ∙ ap (λ c. f cfg.error_field || c) e1 in
      let e3 =
        test-if_named m f d2 cfg.busy_field (λ n. put n d2) (grow d2)
        ∙ ap (named f cfg.busy_field) e2
        ∙ named_swap f cfg.busy_field (f cfg.error_field)
            (f cfg.request_id_field || (f cfg.done_field || false)) in
      let e4 =
        test-if_any m f d3 cfg.error_code_field (put cfg.error_code_field d3)
          (grow d3 cfg.error_code_field)
        ∙ ap (named_any f cfg.error_code_field) e3 in
      let e5 =
        test-if_named m f d4 cfg.step_field (λ n. put n d4) (grow d4)
        ∙ ap (named f cfg.step_field) e4 in
      test-if_named m f d5 cfg.step_name_field (λ n. put n d5) (grow d5)
      ∙ ap (named f cfg.step_name_field) e5

  -- every field is mapped to its own symbol
  pub IsDotted : List (Text × Text) → Type 0
  unfolding root
  IsDotted d = All (λ p. p.1 ≡ dotted root p.0) d

  set_key-IsDotted :
      (n : Text) (d : List (Text × Text)) → IsDotted d → IsDotted (set_key n (dotted root n) d)
  unfolding IsDotted
  set_key-IsDotted n [] h = (refl, tt)
  set_key-IsDotted n ((k, v) ∷ d) h = elim (Bool-cases (list_eq k n)) [
    | inl same ↦ rw same (ap (dotted root) (sym (list_eq_sound k n same)), h.1)
    | inr other ↦ rw other (h.0, set_key-IsDotted n d h.1)
  ]

  map-IsDotted : IsDotted (status_field_symbol_map cfg object_name)
  unfolding status_field_symbol_map root IsDotted
  map-IsDotted =
      let put = λ (n : Text) (d : List (Text × Text)). set_key n (dotted root n) d in
      let d2 = put cfg.error_field (put cfg.done_field (put cfg.request_id_field [])) in
      let d3 = if_named cfg.busy_field d2 (λ n. put n d2) in
      let d4 = if_any cfg.error_code_field (put cfg.error_code_field d3) d3 in
      let d5 = if_named cfg.step_field d4 (λ n. put n d4) in
      let h2 = set_key-IsDotted cfg.error_field (put cfg.done_field (put cfg.request_id_field [])) (
        set_key-IsDotted cfg.done_field (put cfg.request_id_field [])
          (set_key-IsDotted cfg.request_id_field [] tt)) in
      let h3 =
        if_named-keeps IsDotted d2 h2 cfg.busy_field (λ n. put n d2)
          (λ n. set_key-IsDotted n d2 h2) in
      let h4 =
        if_any-keeps IsDotted d3 h3 cfg.error_code_field (put cfg.error_code_field d3)
          (set_key-IsDotted cfg.error_code_field d3 h3) in
      let h5 =
        if_named-keeps IsDotted d4 h4 cfg.step_field (λ n. put n d4)
          (λ n. set_key-IsDotted n d4 h4) in
      if_named-keeps IsDotted d5 h5 cfg.step_name_field (λ n. put n d5)
        (λ n. set_key-IsDotted n d5 h5)

  values-IsDotted :
      (t : Text) (d : List (Text × Text))
      → IsDotted d
      → contains t (values_of d) ≡ any (is_symbol t) (keys_of d)
  unfolding IsDotted is_symbol
  values-IsDotted t [] h = refl
  values-IsDotted t ((k, v) ∷ d) h =
      contains-cons t v (values_of d)
      ∙ ap (λ c. list_eq v t || c) (values-IsDotted t d h.1)
      ∙ ap (λ u. list_eq u t || any (is_symbol t) (keys_of d)) h.0

  -- `read_status` maps every field to its own symbol, and asks for exactly the symbols that are read while
  -- waiting.
  pub status_field_symbol_map-symbols :
      IsDotted (status_field_symbol_map cfg object_name)
      × ((t : Text)
          → contains t (values_of (status_field_symbol_map cfg object_name))
            ≡ contains t (status_symbols_for_read cfg object_name))
  status_field_symbol_map-symbols = (
    map-IsDotted,
    λ t.
        values-IsDotted t (status_field_symbol_map cfg object_name) map-IsDotted
        ∙ map_test (is_symbol t)
        ∙ sym (read-test t),
  )
