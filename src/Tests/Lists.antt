-- ===== src/Tests/Lists.antt =====
-- Lists of variables at a device that keeps the value of a variable under the address in its symbol, counts
-- the requests for symbols, and answers nothing while it is down.
use pyads_agile.Prelude.{
  Option, ap, ◌∙◌, list_eq_refl, err, ads_error, Bool, false, if◌then◌else◌, ◌*◌, ℕ, ◌+◌, ◌≡◌, refl,
  arith, List, [], ◌∷◌, true, list_eq, length, ok, Bool-cases, inl, inr, some, none,
}
use pyads_agile.Python.Exec.{◌>>=◌, pure, lift, gets}
use pyads_agile.Python.Utf8.{Text}
use pyads_agile.Python.Dict.{contains, lookup_key}
use pyads_agile.Connection.{Connection, request_symbols, symbols_for, read_list_by_name}
use pyads_agile.Connection.Calls.{SumCalls}
use pyads_agile.Connection.Symbols.{HasKeys, symbols_for-again}
use pyads_agile.Connection.Truths.{IsTrue, Symbolic, lookup-IsTrue}
use pyads_agile.Connection.Lists.{HoldsOf, SumReads, read_list_by_name-values}

-- whether it is up, and how many symbols were asked for
abbrev Device : Type 0
Device = Bool × ℕ

abbrev address_of : Text → Option ℕ
address_of n = some (length n)

abbrev memory : ℕ → ℕ
memory a = a * 10

abbrev value_of : Text → ℕ
value_of n = memory (length n)

abbrev read_at : Option ℕ → ℕ
read_at none = 0
read_at (some a) = memory a

abbrev answers : List (Text × ℕ) → List Text → List (Text × ℕ)
answers symbols [] = []
answers symbols (n ∷ ns) = (n, read_at (lookup_key n symbols)) ∷ answers symbols ns

abbrev calls : SumCalls Device ℕ ℕ
calls = record {
  get_symbol_info = λ n d. (if d.0 then ok (length n) else err (ads_error 1861), (d.0, d.1 + 1));
  sum_read = λ names symbols structured d.
      (if d.0 then ok (answers symbols names) else err (ads_error 1861), d);
  sum_write = λ items symbols structured d. (ok items, d);
  from_bytes = λ def v. ok v;
  to_bytes = λ def v. ok v;
}

answers-HoldsOf :
    (symbols : List (Text × ℕ)) (names : List Text)
    → HasKeys names symbols
    → IsTrue address_of symbols
    → HoldsOf value_of (answers symbols names)
answers-HoldsOf symbols [] h t = tt
answers-HoldsOf symbols (n ∷ ns) h t =
    let (a, e) = h n (rw (list_eq_refl n) refl) in
    let at : a ≡ length n = let f = lookup-IsTrue address_of n a symbols t e in cc in
    (ap read_at e ∙ ap memory at, answers-HoldsOf symbols ns (λ m c. h m (later m n ns c)) t)
  where
    later : (m n : Text) (ns : List Text) → contains m ns ≡ true → contains m (n ∷ ns) ≡ true
    later m n ns c = elim (Bool-cases (list_eq n m)) [
      | inl same ↦ rw same refl
      | inr other ↦ rw other c
    ]

answers-HasKeys :
    (symbols : List (Text × ℕ)) (names : List Text) → HasKeys names (answers symbols names)
answers-HasKeys symbols [] t c = cc
answers-HasKeys symbols (n ∷ ns) t c = elim (Bool-cases (list_eq n t)) [
  | inl same ↦ (read_at (lookup_key n symbols), rw same refl)
  | inr other ↦ let (v, e) = answers-HasKeys symbols ns t (rw other at c) in (v, rw other e)
]

symbolic : Symbolic calls address_of
symbolic = record { IsUp = λ d. d.0 ≡ true; finds = finds }
  where
    finds :
        (n : Text) (d : Device) {i : ℕ}
        → d.0 ≡ true
        → (if d.0 then ok (length n) else err (ads_error 1861)) ≡ ok i
        → (address_of n ≡ some i) × (d.0 ≡ true)
    finds n (true, k) up e = (cc, refl)
    finds n (false, k) up e = cc

law : SumReads calls address_of value_of
unfolding symbolic
law = record {
  symbolic = symbolic;
  answer = λ names symbols d. answers symbols names;
  reads = λ names symbols d up h t.
      (rw up refl, answers-HoldsOf symbols names h t, answers-HasKeys symbols names);
}

abbrev three_names : List Text
three_names = (97 ∷ []) ∷ (98 ∷ 98 ∷ []) ∷ (99 ∷ []) ∷ []

abbrev fresh : Connection Device ℕ
fresh = record { device = (true, 0); symbol_info_cache = [] }

abbrev three_symbols : List (Text × ℕ)
three_symbols = (97 ∷ [], 1) ∷ (98 ∷ 98 ∷ [], 2) ∷ (99 ∷ [], 1) ∷ []

finds_three : (symbols_for calls true three_names fresh).0 ≡ ok three_symbols
unfolding symbols_for request_symbols ◌>>=◌ pure lift gets
finds_three = refl

symbols_for-again_example :
    symbols_for calls true three_names (symbols_for calls true three_names fresh).1
    ≡ (ok three_symbols, (symbols_for calls true three_names fresh).1)
symbols_for-again_example = symbols_for-again calls three_names fresh three_symbols finds_three

read_list_by_name-values_example :
    (result : List (Text × ℕ)) × (read_list_by_name calls three_names true 2 [] fresh
      ≡ (ok result, (symbols_for calls true three_names fresh).1))
    × ((n : Text) → contains n three_names ≡ true → lookup_key n result ≡ some (value_of n))
    × IsTrue address_of (symbols_for calls true three_names fresh).1.symbol_info_cache
unfolding law symbolic
read_list_by_name-values_example =
    read_list_by_name-values calls address_of value_of law three_names true 2 fresh three_symbols
      (omega arith) refl tt finds_three
