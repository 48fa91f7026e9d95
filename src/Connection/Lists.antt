-- ===== src/Connection/Lists.antt =====
-- What `read_list_by_name` returns does not depend on how the list is cut.
use pyads_agile.Prelude.{
  Option, ℕ, ◌≤◌, ◌≡◌, refl, sym, ap, ◌∙◌, subst, List, [], ◌∷◌, ◌++◌, Bool, true, if◌then◌else◌,
  list_eq, list_eq_sound, Bool-cases, inl, inr, leb, All, ◌⊎◌, length, some, ok,
}
use pyads_agile.Python.Dict.{
  contains, set_key, lookup_key, update_all, lookup_key-set_key, lookup_key-set_key_other,
}
use pyads_agile.Python.Exec.{Exec, ◌>>=◌, pure, lift, >>=-ok}
use pyads_agile.Python.Utf8.{Text}
use pyads_agile.Connection.{
  Connection, on_device, symbols_for, read_slice, read_slices, read_list_by_name,
}
use pyads_agile.Connection.Calls.{SumCalls, slice_generator}
use pyads_agile.Connection.Symbols.{HasKey, HasKeys, symbols_for-HasKeys}
use pyads_agile.Connection.Truths.{IsTrue, Symbolic, symbols_for-IsTrue}
use pyads_agile.Connection.Slices.{concat, slice_generator-concat}

-- Every name in the dict has the value that the variable holds.
abbrev pub HoldsOf : {V : Type 0} → (Text → V) → List (Text × V) → Type 0
HoldsOf value d = All (λ p. p.1 ≡ value p.0) d

-- What the connection relies on: a sum read, at a device that is up, of names whose symbols are there and
-- are those of the device, returns the value of each name, and leaves the device as it is. Nothing is
-- said of a device that is down, or of symbols that are not the device's.
pub record SumReads {D I V : Type 0} (calls : SumCalls D I V) (info : Text → Option I)
    (value : Text → V) : Type 1 where
  pub symbolic : Symbolic calls info
  pub answer : List Text → List (Text × I) → D → List (Text × V)
  pub reads :
      (names : List Text) (symbols : List (Text × I)) (d : D)
      → symbolic.IsUp d
      → HasKeys names symbols
      → IsTrue info symbols
      → (calls.sum_read names symbols [] d ≡ (ok (answer names symbols d), d))
        × HoldsOf value (answer names symbols d)
        × HasKeys names (answer names symbols d)

module _ {V : Type 0} (value : Text → V) where
  lookup-HoldsOf :
      (n : Text) (d : List (Text × V)) (v : V)
      → HoldsOf value d
      → lookup_key n d ≡ some v
      → lookup_key n d ≡ some (value n)
  lookup-HoldsOf n [] v h e = cc
  lookup-HoldsOf n ((k, w) ∷ d) v h e = elim (Bool-cases (list_eq k n)) [
    | inl same ↦ rw same (ap some (h.0 ∙ ap value (list_eq_sound k n same)))
    | inr other ↦ rw other (lookup-HoldsOf n d v h.1 (rw other at e))
  ]

  lookup-update_kept :
      (n : Text) (out new : List (Text × V))
      → HoldsOf value new
      → lookup_key n out ≡ some (value n)
      → lookup_key n (update_all out new) ≡ some (value n)
  lookup-update_kept n out [] h e = e
  lookup-update_kept n out ((k, v) ∷ new) h e =
      lookup-update_kept n (set_key k v out) new h.1 (elim (Bool-cases (list_eq k n)) [
        | inl same ↦ rw (← list_eq_sound k n same) (lookup_key-set_key k v out ∙ ap some h.0)
        | inr other ↦ lookup_key-set_key_other n k v out other ∙ e
      ])

  lookup-update_new :
      (n : Text) (out new : List (Text × V))
      → HoldsOf value new
      → HasKey n new
      → lookup_key n (update_all out new) ≡ some (value n)
  lookup-update_new n out [] h (v, e) = cc
  lookup-update_new n out ((k, v) ∷ new) h (w, e) = elim (Bool-cases (list_eq k n)) [
    | inl same ↦
        lookup-update_kept n (set_key k v out) new h.1
          (rw (← list_eq_sound k n same) (lookup_key-set_key k v out ∙ ap some h.0))
    | inr other ↦ lookup-update_new n (set_key k v out) new h.1 (w, rw other at e)
  ]

contains-append_left :
    (n : Text) (xs ys : List Text) → contains n xs ≡ true → contains n (xs ++ ys) ≡ true
contains-append_left n [] ys h = cc
contains-append_left n (x ∷ xs) ys h = elim (Bool-cases (list_eq x n)) [
  | inl same ↦ rw same refl
  | inr other ↦ rw other (contains-append_left n xs ys (rw other at h))
]

contains-append_right :
    (n : Text) (xs ys : List Text) → contains n ys ≡ true → contains n (xs ++ ys) ≡ true
contains-append_right n [] ys h = h
contains-append_right n (x ∷ xs) ys h = elim (Bool-cases (list_eq x n)) [
  | inl same ↦ rw same refl
  | inr other ↦ rw other (contains-append_right n xs ys h)
]

contains-append_split :
    (n : Text) (xs ys : List Text)
    → contains n (xs ++ ys) ≡ true
    → (contains n xs ≡ true) ⊎ (contains n ys ≡ true)
contains-append_split n [] ys h = inr h
contains-append_split n (x ∷ xs) ys h = elim (Bool-cases (list_eq x n)) [
  | inl same ↦ inl (rw same refl)
  | inr other ↦ rw other (contains-append_split n xs ys (rw other at h))
]

module _ {D I V : Type 0} (calls : SumCalls D I V) (info : Text → Option I) (value : Text → V)
    (law : SumReads calls info value) where
  read_slice-answer :
      (symbols : List (Text × I)) (names : List Text) (d : D)
      → law.symbolic.IsUp d
      → HasKeys names symbols
      → IsTrue info symbols
      → read_slice calls symbols [] names d ≡ (ok (law.answer names symbols d), d)
  unfolding read_slice lift
  read_slice-answer symbols names d up h t =
      let (r, _, _) = law.reads names symbols d up h t in
      >>=-ok (calls.sum_read names symbols []) _ d (ap (λ p. p.0) r)
      ∙ ap (λ p. (ok (law.answer names symbols d), p.1)) r

  read_slices-values :
      (symbols : List (Text × I)) (slices : List (List Text)) (out : List (Text × V)) (d : D)
      → law.symbolic.IsUp d
      → HasKeys (concat slices) symbols
      → IsTrue info symbols
      → (result : List (Text × V)) × (read_slices calls symbols [] slices out d ≡ (ok result, d))
        × ((n : Text)
            → (contains n (concat slices) ≡ true) ⊎ (lookup_key n out ≡ some (value n))
            → lookup_key n result ≡ some (value n))
  unfolding read_slices pure
  read_slices-values symbols [] out d up h t = (out, refl, λ n. elim [ inl c ↦ cc | inr e ↦ e ])
  read_slices-values symbols (slice ∷ slices) out d up h t =
      let answer = law.answer slice symbols d in
      let r =
        read_slice-answer symbols slice d up
          (λ n c. h n (contains-append_left n slice (concat slices) c)) t in
      let (_, held, covered) =
        law.reads slice symbols d up (λ n c. h n (contains-append_left n slice (concat slices) c))
          t in
      let (result, e, holds) =
        read_slices-values symbols slices (update_all out answer) d up
          (λ n c. h n (contains-append_right n slice (concat slices) c)) t in
      (
        result,
        >>=-ok (read_slice calls symbols [] slice) _ d (ap (λ p. p.0) r)
            ∙ ap (λ s. read_slices calls symbols [] slices (update_all out answer) s)
                (ap (λ p. p.1) r)
            ∙ e,
        λ n c. holds n (later n slice slices out answer held covered c),
      )
    where
      later :
          (n : Text) (slice : List Text) (slices : List (List Text)) (out answer : List (Text × V))
          → HoldsOf value answer
          → HasKeys slice answer
          → (contains n (slice ++ concat slices) ≡ true) ⊎ (lookup_key n out ≡ some (value n))
          → (contains n (concat slices) ≡ true)
            ⊎ (lookup_key n (update_all out answer) ≡ some (value n))
      later n slice slices out answer h k (inr e) = inr (lookup-update_kept value n out answer h e)
      later n slice slices out answer h k (inl c) =
          elim (contains-append_split n slice (concat slices) c) [
            | inl here ↦ inr (lookup-update_new value n out answer h (k n here))
            | inr there ↦ inl there
          ]

  -- what `read_list_by_name` does with the symbols
  read_rest : List Text → ℕ → List (Text × I) → Exec (Connection D I) (List (Text × V))
  unfolding ◌>>=◌
  read_rest names size symbols =
      if leb (length names) size
      then on_device (read_slice calls symbols [] names)
      else lift (slice_generator names size) >>= λ slices.
          on_device (read_slices calls symbols [] slices [])

  read_rest-values :
      (names : List Text) (size : ℕ) (c : Connection D I) (symbols : List (Text × I))
      → 1 ≤ size
      → law.symbolic.IsUp c.device
      → HasKeys names symbols
      → IsTrue info symbols
      → (result : List (Text × V)) × (read_rest names size symbols c ≡ (ok result, c))
        × ((n : Text) → contains n names ≡ true → lookup_key n result ≡ some (value n))
  unfolding read_rest ◌>>=◌ lift
  read_rest-values names size c symbols h up keys t = elim (Bool-cases (leb (length names) size)) [
    | inl short ↦
        let answer = law.answer names symbols c.device in
        let (_, held, covered) = law.reads names symbols c.device up keys t in
        (
          answer,
          rw short (
              ap (λ p. (p.0, record c { device = p.1 }))
                (read_slice-answer symbols names c.device up keys t)),
          λ n k. let (v, e) = covered n k in lookup-HoldsOf value n answer v held e,
        )
    | inr long ↦
        let (slices, e, whole, bounds) = slice_generator-concat names size h in
        let (result, f, holds) =
          read_slices-values symbols slices [] c.device up
            (λ n k. keys n (subst (λ xs. contains n xs ≡ true) whole k)) t in
        (
          result,
          rw (long, e) (ap (λ p. (p.0, record c { device = p.1 })) f),
          λ n k. holds n (inl (subst (λ t. contains n t ≡ true) (sym whole) k)),
        )
  ]

  -- Variables that are not structures, at a device that is up and answers as `SumReads` says, with a cache that
  -- holds symbols of the device: when the symbols are found, the list is read whatever the size of the
  -- slices is, at least 1, each name gets the value of its variable, and the cache holds symbols of the
  -- device again.
  pub read_list_by_name-values :
      (names : List Text) (cached : Bool) (ads_sub_commands : ℕ) (c : Connection D I)
      (symbols : List (Text × I))
      → 1 ≤ ads_sub_commands
      → law.symbolic.IsUp c.device
      → IsTrue info c.symbol_info_cache
      → (symbols_for calls cached names c).0 ≡ ok symbols
      → (result : List (Text × V)) × (read_list_by_name calls names cached ads_sub_commands [] c
          ≡ (ok result, (symbols_for calls cached names c).1))
        × ((n : Text) → contains n names ≡ true → lookup_key n result ≡ some (value n))
        × IsTrue info (symbols_for calls cached names c).1.symbol_info_cache
  unfolding read_list_by_name read_rest
  read_list_by_name-values names cached size c symbols h up right e =
      let after = (symbols_for calls cached names c).1 in
      let keys = symbols_for-HasKeys calls cached names c symbols e in
      let (t, still, kept) =
        symbols_for-IsTrue calls info law.symbolic cached names c symbols up right e in
      let (result, f, holds) = read_rest-values names size after symbols h still keys t in
      (result, >>=-ok (symbols_for calls cached names) _ c e ∙ f, holds, kept)
