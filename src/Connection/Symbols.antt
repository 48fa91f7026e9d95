-- ===== src/Connection/Symbols.antt =====
-- The symbols that the list functions of src/pyads/connection.py look up: each name has one, and a second
-- look-up asks the device for none.
use pyads_agile.Prelude.{
  ◌≡◌, refl, sym, ap, ◌∙◌, subst, List, [], ◌∷◌, Bool, true, false, list_eq, list_eq_sound,
  Bool-cases, inl, inr, Option, none, some, ok, Error, or_raise, key_error, ok_inj, list_eq_refl,
}
use pyads_agile.Prelude.{>>=-eq-ok as result-eq-ok}
use pyads_agile.Python.Dict.{
  contains, set_key, lookup_key, update_all, lookup_key-set_key, lookup_key-set_key_other,
}
use pyads_agile.Python.Exec.{Exec, ◌>>=◌, pure, lift, gets, >>=-ok, >>=-eq-ok}
use pyads_agile.Python.Utf8.{Text}
use pyads_agile.Connection.{Connection, on_device, update_cache, request_symbols, symbols_for}
use pyads_agile.Connection.Calls.{SumCalls, missing, unless_there, select}

-- The dict has this key.
abbrev pub HasKey : {A : Type 0} → Text → List (Text × A) → Type 0
HasKey {A = A} n d = (a : A) × (lookup_key n d ≡ some a)

-- The dict has all these keys.
abbrev pub HasKeys : {A : Type 0} → List Text → List (Text × A) → Type 0
HasKeys names d = (n : Text) → contains n names ≡ true → HasKey n d

set_key-HasKey :
    {A : Type 0} (n k : Text) (v : A) (d : List (Text × A)) → HasKey n d → HasKey n (set_key k v d)
set_key-HasKey n k v d h = elim (Bool-cases (list_eq k n)) [
  | inl same ↦ (v, rw (← list_eq_sound k n same) (lookup_key-set_key k v d))
  | inr other ↦ (h.0, lookup_key-set_key_other n k v d other ∙ h.1)
]

set_key-HasKey_new :
    {A : Type 0} (n k : Text) (v : A) (d : List (Text × A))
    → list_eq k n ≡ true
    → HasKey n (set_key k v d)
set_key-HasKey_new n k v d same = (v, rw (← list_eq_sound k n same) (lookup_key-set_key k v d))

-- What a comprehension over names makes of a dict.
Extends : {A : Type 0} → List Text → List (Text × A) → List (Text × A) → Type 0
Extends names out m = HasKeys names m × ((n : Text) → HasKey n out → HasKey n m)

Extends-cons :
    {A : Type 0} (k : Text) (names : List Text) (v : A) (out m : List (Text × A))
    → Extends names (set_key k v out) m
    → Extends (k ∷ names) out m
unfolding Extends
Extends-cons k names v out m h = (
  λ n c. elim (Bool-cases (list_eq k n)) [
    | inl same ↦ h.1 n (set_key-HasKey_new n k v out same)
    | inr other ↦ h.0 n (rw other at c)
  ],
  λ n g. h.1 n (set_key-HasKey n k v out g),
)

or_raise-ok : {A : Type 0} (o : Option A) (x : Error) {a : A} → or_raise o x ≡ ok a → o ≡ some a
or_raise-ok none x e = cc
or_raise-ok (some b) x e = cc

-- `select` finds every name, or raises.
select-HasKeys :
    {A : Type 0} (d : List (Text × A)) (names : List Text) (out m : List (Text × A))
    → select d names out ≡ ok m
    → HasKeys names d × Extends names out m
unfolding Extends
select-HasKeys d [] out m e = (λ n c. cc, ((λ n c. cc), λ n h. subst (HasKey n) (ok_inj e) h))
select-HasKeys d (k ∷ names) out m e =
    let (v, found, f) =
      result-eq-ok (or_raise (lookup_key k d) key_error) (λ a. select d names (set_key k a out))
        e in
    let there = or_raise-ok (lookup_key k d) key_error found in
    let (a, b) = select-HasKeys d names (set_key k v out) m f in
    (
      λ n c. elim (Bool-cases (list_eq k n)) [
        | inl same ↦ (v, rw (← list_eq_sound k n same) there)
        | inr other ↦ a n (rw other at c)
      ],
      Extends-cons k names v out m b,
    )

-- A dict that has all the keys misses none.
HasKeys-missing :
    {A : Type 0} (d : List (Text × A)) (names : List Text) → HasKeys names d → missing d names ≡ []
HasKeys-missing d [] h = refl
HasKeys-missing d (k ∷ names) h =
    let (v, found) = h k (if_same k names) in
    ap (λ o. unless_there o k (missing d names)) found
    ∙ HasKeys-missing d names (λ n c. h n (if_or k n names c))
  where
    if_same : (k : Text) (names : List Text) → contains k (k ∷ names) ≡ true
    if_same k names = rw (list_eq_refl k) refl

    if_or :
        (k n : Text) (names : List Text) → contains n names ≡ true → contains n (k ∷ names) ≡ true
    if_or k n names c = elim (Bool-cases (list_eq k n)) [
      | inl same ↦ rw same refl
      | inr other ↦ rw other c
    ]

module _ {D I V : Type 0} (calls : SumCalls D I V) where
  request_symbols-Extends :
      (names : List Text) (out : List (Text × I)) (d : D) (m : List (Text × I))
      → (request_symbols calls names out d).0 ≡ ok m
      → Extends names out m
  unfolding request_symbols pure Extends
  request_symbols-Extends [] out d m e = (λ n c. cc, λ n h. subst (HasKey n) (ok_inj e) h)
  request_symbols-Extends (k ∷ names) out d m e =
      let (i, a, f) =
        >>=-eq-ok (calls.get_symbol_info k) (λ i. request_symbols calls names (set_key k i out)) d
          e in
      Extends-cons k names i out m
        (request_symbols-Extends names (set_key k i out) (calls.get_symbol_info k d).1 m f)

  -- what is left of the look-up with a cache, behind the requests
  unfoldable pub cached_symbols :
      List Text → List (Text × I) → Exec (Connection D I) (List (Text × I))
  unfolding ◌>>=◌
  cached_symbols names new_cache = update_cache new_cache >>= λ _.
      gets (λ c. c.symbol_info_cache) >>= λ cache. lift (select cache names [])

  cached_symbols-HasKeys :
      (names : List Text) (new_cache : List (Text × I)) (c : Connection D I) (m : List (Text × I))
      → (cached_symbols names new_cache c).0 ≡ ok m
      → HasKeys names (cached_symbols names new_cache c).1.symbol_info_cache
        × HasKeys names m
        × (select (cached_symbols names new_cache c).1.symbol_info_cache names [] ≡ ok m)
  unfolding cached_symbols ◌>>=◌ lift gets
  cached_symbols-HasKeys names new_cache c m e =
      let cache = update_all c.symbol_info_cache new_cache in
      let (a, b) = select-HasKeys cache names [] m e in (a, (unfold Extends in b.0), e)

  unfoldable pub request_missing :
      List Text → Connection D I → Exec (Connection D I) (List (Text × I))
  request_missing names c = on_device (request_symbols calls (missing c.symbol_info_cache names) [])

  pub symbols_for-cached :
      (names : List Text) (c : Connection D I)
      → symbols_for calls true names c ≡ (request_missing names c >>= cached_symbols names) c
  unfolding symbols_for cached_symbols request_missing ◌>>=◌ gets
  symbols_for-cached names c = refl

  -- What a look-up with a cache leaves: the names are in the cache, and give these symbols.
  cached-HasKeys :
      (names : List Text) (c : Connection D I) (m : List (Text × I))
      → (symbols_for calls true names c).0 ≡ ok m
      → HasKeys names (symbols_for calls true names c).1.symbol_info_cache
        × HasKeys names m
        × (select (symbols_for calls true names c).1.symbol_info_cache names [] ≡ ok m)
  cached-HasKeys names c m e =
      let same = symbols_for-cached names c in
      let (new, a, f) =
        >>=-eq-ok (request_missing names c) (cached_symbols names) c
          (ap (λ p. p.0) (sym same) ∙ e) in
      let ends = same ∙ >>=-ok (request_missing names c) (cached_symbols names) c a in
      subst
        (λ p.
          HasKeys names p.1.symbol_info_cache
          × HasKeys names m
          × (select p.1.symbol_info_cache names [] ≡ ok m))
        (sym ends) (cached_symbols-HasKeys names new (request_missing names c c).1 m f)

  pub symbols_for-HasKeys :
      (cached : Bool) (names : List Text) (c : Connection D I) (m : List (Text × I))
      → (symbols_for calls cached names c).0 ≡ ok m
      → HasKeys names m
  unfolding symbols_for Extends
  symbols_for-HasKeys false names c m e = (request_symbols-Extends names [] c.device m e).0
  symbols_for-HasKeys true names c m e = (cached-HasKeys names c m e).1

  known_symbols :
      (names : List Text) (c : Connection D I) (m : List (Text × I))
      → missing c.symbol_info_cache names ≡ []
      → select c.symbol_info_cache names [] ≡ ok m
      → symbols_for calls true names c ≡ (ok m, c)
  unfolding symbols_for request_symbols ◌>>=◌ gets pure lift
  known_symbols names c m e f = rw (e, f) refl

  -- When the symbols of names were found with the cache, looking them up again asks the device for
  -- nothing, changes nothing, and finds the same symbols.
  pub symbols_for-again :
      (names : List Text) (c : Connection D I) (m : List (Text × I))
      → (symbols_for calls true names c).0 ≡ ok m
      → symbols_for calls true names (symbols_for calls true names c).1
        ≡ (ok m, (symbols_for calls true names c).1)
  symbols_for-again names c m e =
      let after = (symbols_for calls true names c).1 in
      let (a, b, f) = cached-HasKeys names c m e in
      known_symbols names after m (HasKeys-missing after.symbol_info_cache names a) f
