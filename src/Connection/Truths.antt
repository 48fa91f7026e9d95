-- ===== src/Connection/Truths.antt =====
-- The symbols that the list functions of src/pyads/connection.py find are those of the device, also where
-- they come from the cache.
use pyads_agile.Prelude.{
  ◌≡◌, refl, sym, ap, ◌∙◌, subst, List, [], ◌∷◌, Bool, true, false, list_eq, list_eq_sound,
  Bool-cases, inl, inr, Option, none, some, ok, Error, or_raise, key_error, ok_inj, All,
}
use pyads_agile.Prelude.{>>=-eq-ok as result-eq-ok}
use pyads_agile.Python.Dict.{set_key, lookup_key, update_all}
use pyads_agile.Python.Exec.{◌>>=◌, pure, lift, gets, >>=-ok, >>=-eq-ok}
use pyads_agile.Python.Utf8.{Text}
use pyads_agile.Connection.{Connection, request_symbols, symbols_for}
use pyads_agile.Connection.Calls.{SumCalls, missing, select}
use pyads_agile.Connection.Symbols.{cached_symbols, request_missing, symbols_for-cached}

-- Every name in the dict has the symbol that the device has for it.
abbrev pub IsTrue : {I : Type 0} → (Text → Option I) → List (Text × I) → Type 0
IsTrue info d = All (λ p. info p.0 ≡ some p.1) d

-- A device that is up, where a symbol that it answers is the one of the name that was asked for. One
-- that is not up may answer whatever it likes.
pub record Symbolic {D I V : Type 0} (calls : SumCalls D I V) (info : Text → Option I)
    : Type 1 where
  pub IsUp : D → Type 0
  pub finds :
      (n : Text) (d : D) {i : I}
      → IsUp d
      → (calls.get_symbol_info n d).0 ≡ ok i
      → (info n ≡ some i) × IsUp (calls.get_symbol_info n d).1

module _ {I : Type 0} (info : Text → Option I) where
  set_key-IsTrue :
      (k : Text) (v : I) (d : List (Text × I))
      → info k ≡ some v
      → IsTrue info d
      → IsTrue info (set_key k v d)
  set_key-IsTrue k v [] e h = (e, tt)
  set_key-IsTrue k v ((l, w) ∷ d) e h = elim (Bool-cases (list_eq l k)) [
    | inl same ↦ rw same (ap info (list_eq_sound l k same) ∙ e, h.1)
    | inr other ↦ rw other (h.0, set_key-IsTrue k v d e h.1)
  ]

  update_all-IsTrue :
      (d new : List (Text × I)) → IsTrue info d → IsTrue info new → IsTrue info (update_all d new)
  update_all-IsTrue d [] h n = h
  update_all-IsTrue d ((k, v) ∷ new) h n =
      update_all-IsTrue (set_key k v d) new (set_key-IsTrue k v d n.0 h) n.1

  pub lookup-IsTrue :
      (k : Text) (v : I) (d : List (Text × I))
      → IsTrue info d
      → lookup_key k d ≡ some v
      → info k ≡ some v
  lookup-IsTrue k v [] h e = cc
  lookup-IsTrue k v ((l, w) ∷ d) h e = elim (Bool-cases (list_eq l k)) [
    | inl same ↦ ap info (sym (list_eq_sound l k same)) ∙ h.0 ∙ (rw same at e)
    | inr other ↦ lookup-IsTrue k v d h.1 (rw other at e)
  ]

  or_raise-ok : (o : Option I) (x : Error) {a : I} → or_raise o x ≡ ok a → o ≡ some a
  or_raise-ok none x e = cc
  or_raise-ok (some b) x e = cc

  select-IsTrue :
      (d : List (Text × I)) (names : List Text) (out m : List (Text × I))
      → IsTrue info d
      → IsTrue info out
      → select d names out ≡ ok m
      → IsTrue info m
  select-IsTrue d [] out m h o e = subst (IsTrue info) (ok_inj e) o
  select-IsTrue d (k ∷ names) out m h o e =
      let (v, found, f) =
        result-eq-ok (or_raise (lookup_key k d) key_error) (λ a. select d names (set_key k a out))
          e in
      let there = lookup-IsTrue k v d h (or_raise-ok (lookup_key k d) key_error found) in
      select-IsTrue d names (set_key k v out) m h (set_key-IsTrue k v out there o) f

module _ {D I V : Type 0} (calls : SumCalls D I V) (info : Text → Option I)
    (device : Symbolic calls info) where
  request_symbols-IsTrue :
      (names : List Text) (out : List (Text × I)) (d : D) (m : List (Text × I))
      → device.IsUp d
      → IsTrue info out
      → (request_symbols calls names out d).0 ≡ ok m
      → IsTrue info m × device.IsUp (request_symbols calls names out d).1
  unfolding request_symbols pure
  request_symbols-IsTrue [] out d m up h e = (subst (IsTrue info) (ok_inj e) h, up)
  request_symbols-IsTrue (k ∷ names) out d m up h e =
      let rest = λ (i : I). request_symbols calls names (set_key k i out) in
      let (i, a, f) = >>=-eq-ok (calls.get_symbol_info k) rest d e in
      let (is, up') = device.finds k d up a in
      let (t, last) =
        request_symbols-IsTrue names (set_key k i out) (calls.get_symbol_info k d).1 m up'
          (set_key-IsTrue info k i out is h) f in
      (t, subst (λ p. device.IsUp p.1) (sym (>>=-ok (calls.get_symbol_info k) rest d a)) last)

  request_missing-IsTrue :
      (names : List Text) (c : Connection D I) (m : List (Text × I))
      → device.IsUp c.device
      → (request_missing calls names c c).0 ≡ ok m
      → IsTrue info m
        × device.IsUp (request_missing calls names c c).1.device
        × ((request_missing calls names c c).1.symbol_info_cache ≡ c.symbol_info_cache)
  unfolding request_missing
  request_missing-IsTrue names c m up e =
      let (t, last) =
        request_symbols-IsTrue (missing c.symbol_info_cache names) [] c.device m up tt e in
      (t, last, refl)

  cached_symbols-IsTrue :
      (names : List Text) (new : List (Text × I)) (c : Connection D I) (m : List (Text × I))
      → device.IsUp c.device
      → IsTrue info c.symbol_info_cache
      → IsTrue info new
      → (cached_symbols calls names new c).0 ≡ ok m
      → IsTrue info m
        × device.IsUp (cached_symbols calls names new c).1.device
        × IsTrue info (cached_symbols calls names new c).1.symbol_info_cache
  unfolding cached_symbols ◌>>=◌ gets lift
  cached_symbols-IsTrue names new c m up h n e =
      let cache = update_all c.symbol_info_cache new in
      let t = update_all-IsTrue info c.symbol_info_cache new h n in
      (select-IsTrue info cache names [] m t tt e, up, t)

  -- Where a symbol look-up with a right cache at a device that is up returns symbols, they are those of the
  -- device, the cache is right after it, and the device is up.
  pub symbols_for-IsTrue :
      (cached : Bool) (names : List Text) (c : Connection D I) (m : List (Text × I))
      → device.IsUp c.device
      → IsTrue info c.symbol_info_cache
      → (symbols_for calls cached names c).0 ≡ ok m
      → IsTrue info m
        × device.IsUp (symbols_for calls cached names c).1.device
        × IsTrue info (symbols_for calls cached names c).1.symbol_info_cache
  unfolding symbols_for
  symbols_for-IsTrue false names c m up h e =
      let (t, last) = request_symbols-IsTrue names [] c.device m up tt e in (t, last, h)
  symbols_for-IsTrue true names c m up h e =
      let request = request_missing calls names c in
      let rest = cached_symbols calls names in
      let same = symbols_for-cached calls names c in
      let (new, a, f) = >>=-eq-ok request rest c (ap (λ p. p.0) (sym same) ∙ e) in
      let (t, up', kept) = request_missing-IsTrue names c new up a in
      subst (λ p. IsTrue info m × device.IsUp p.1.device × IsTrue info p.1.symbol_info_cache)
        (sym (same ∙ >>=-ok request rest c a))
        (cached_symbols-IsTrue names new (request c).1 m up' (subst (IsTrue info) (sym kept) h) t f)
