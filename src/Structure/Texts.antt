-- ===== src/Structure/Texts.antt =====
-- STRING and WSTRING elements in `bytes_from_dict` and `dict_from_bytes` of src/pyads/ads.py, and
-- `find_wstring_null_terminator` of src/pyads/utils.py.
use pyads_agile.Prelude.{
  ℕ, suc, ◌+◌, ◌-◌, ◌*◌, ◌/◌, ◌%◌, ◌≤◌, ◌<◌, ◌≡◌, ◌≢◌, refl, ap, ◌∙◌, [], ◌∷◌, ◌++◌, append_assoc,
  arith, true, false, ◌&&◌, ltb, ◌==◌, if◌then◌else◌, All, length, take, replicate, length-append,
  length-replicate, Option, none, some, Result, ok, ◌>>=◌, Bool-cases, inl, inr, ne→==, lt→ltb,
  ok_inj, >>=-eq-ok, take-append_left,
}
use pyads_agile.Python.Bytes.{Bytes}
use pyads_agile.Python.Utf8.{Text, is_scalar}
use pyads_agile.Python.Utf8
use pyads_agile.Python.Utf16

-- the number of characters of a STRING: `PLC_DEFAULT_STRING_SIZE` where the definition has none
abbrev pub string_size : Option ℕ → ℕ
string_size none = 80
string_size (some n) = n

-- the text, and zeros for the bytes that `str_len + 1 - len(var)` says are left
unfoldable pub encode_string : ℕ → Text → Result Bytes
encode_string n t = Utf8.encode t >>= λ bs. ok (bs ++ replicate (n + 1 - length t) 0)

unfoldable pub encode_wstring : ℕ → Text → Result Bytes
encode_wstring n t = Utf16.encode t >>= λ bs. ok (bs ++ replicate (2 * (n + 1) - length bs) 0)

-- `bs.partition(b"\0")[0]`
unfoldable pub before_null : Bytes → Bytes
before_null [] = []
before_null (b ∷ bs) = let rest = before_null bs in if b == 0 then [] else b ∷ rest

unfoldable pub decode_string : Bytes → Result Text
unfolding before_null
decode_string bs = Utf8.decode (before_null bs)

-- from the position `ix` on
unfoldable pub find_null_from : ℕ → Bytes → Option ℕ
find_null_from ix [] = none
find_null_from ix (a ∷ []) = none
find_null_from ix (a ∷ b ∷ bs) =
    let rest = find_null_from (ix + 2) bs in if a == 0 && b == 0 then some ix else rest

unfoldable pub find_wstring_null_terminator : Bytes → Option ℕ
unfolding find_null_from
find_wstring_null_terminator bs = find_null_from 0 bs

-- `a[:null_idx]`, which is all of `a` for `None`
abbrev pub cut : Option ℕ → Bytes → Bytes
cut none bs = bs
cut (some i) bs = take i bs

unfoldable pub decode_wstring : Bytes → Result Text
unfolding find_wstring_null_terminator
decode_wstring bs = Utf16.decode (cut (find_wstring_null_terminator bs) bs)

-- An ASCII text without a null.
abbrev pub IsPlainText : Text → Type 0
IsPlainText = All (λ c. (c ≢ 0) × (c < 128))

encode_plain : (t : Text) → IsPlainText t → Utf8.encode t ≡ ok t
unfolding Utf8.encode Utf8.encode_char
encode_plain [] h = refl
encode_plain (c ∷ cs) h =
    let s : is_scalar c ≡ true = ground arith in rw (encode_plain cs h.1, s, lt→ltb c 128 h.0.1)

before_null-append : (t : Text) (n : ℕ) → IsPlainText t → before_null (t ++ replicate (suc n) 0) ≡ t
unfolding before_null
before_null-append [] n h = refl
before_null-append (c ∷ cs) n h =
    rw (ne→== c 0 h.0.0) (ap (λ t. c ∷ t) (before_null-append cs n h.1))

-- A plain text that is short enough comes back from the bytes of its STRING, which are one more than
-- the characters that fit.
pub decode_string-encode_string :
    (n : ℕ) (t : Text)
    → IsPlainText t
    → length t ≤ n
    → (bs : Bytes) × (encode_string n t ≡ ok bs) × (length bs ≡ n + 1) × (decode_string bs ≡ ok t)
unfolding encode_string decode_string
decode_string-encode_string n t h l =
    let some_left : n + 1 - length t ≡ suc (n - length t) = omega arith in
    (
      t ++ replicate (n + 1 - length t) 0,
      rw (encode_plain t h),
      omega (
        arith,
        length-append t (replicate (n + 1 - length t) 0),
        length-replicate {A = ℕ} (n + 1 - length t) 0,
      ),
      rw (some_left, before_null-append t (n - length t) h)
          (Utf8.decode-encode t t (encode_plain t h)),
    )

-- A text without a null that UTF-16 can carry.
abbrev pub IsWideText : Text → Type 0
IsWideText = All (λ c. (c ≢ 0) × (is_scalar c ≡ true))

find_null_unit :
    (u ix : ℕ) (bs : Bytes)
    → u ≢ 0
    → find_null_from ix (Utf16.unit u ++ bs) ≡ find_null_from (ix + 2) bs
unfolding find_null_from
find_null_unit u ix bs h =
    let no : ((u % 256 == 0) && (u / 256 == 0)) ≡ false = ground arith in rw no

find_null-encode_char :
    (c ix : ℕ) (bs : Bytes)
    → c ≢ 0
    → find_null_from ix (Utf16.encode_char c ++ bs)
      ≡ find_null_from (ix + length (Utf16.encode_char c)) bs
unfolding Utf16.encode_char
find_null-encode_char c ix bs h = elim (Bool-cases (ltb c 0x10000)) [
  | inl small ↦ rw small (find_null_unit c ix bs h)
  | inr large ↦ rw large (
      find_null_unit (0xd800 + (c - 0x10000) / 1024) ix
        (Utf16.unit (0xdc00 + (c - 0x10000) % 1024) ++ bs) (λ e. omega (arith, e))
      ∙ find_null_unit (0xdc00 + (c - 0x10000) % 1024) (ix + 2) bs (λ e. omega (arith, e))
      ∙ ap (λ i. find_null_from i bs) (omega arith))
]

find_null-encode :
    (t : Text) (ix n : ℕ) {bs : Bytes}
    → IsWideText t
    → Utf16.encode t ≡ ok bs
    → find_null_from ix (bs ++ replicate (suc (suc n)) 0) ≡ some (ix + length bs)
unfolding Utf16.encode
find_null-encode [] ix n h e = rw (← ok_inj e) (unfold find_null_from in ap some (omega arith))
find_null-encode (c ∷ cs) ix n h e =
    let (rest, e', joined) = >>=-eq-ok (Utf16.encode cs) _ (rw h.0.1 at e) in
    rw (← ok_inj joined, append_assoc (Utf16.encode_char c) rest (replicate (suc (suc n)) 0))
      (find_null-encode_char c ix (rest ++ replicate (suc (suc n)) 0) h.0.0
        ∙ find_null-encode cs (ix + length (Utf16.encode_char c)) n h.1 e'
        ∙ ap some (omega (arith, length-append (Utf16.encode_char c) rest)))

-- Such a text whose encoding is short enough comes back from the bytes of its WSTRING, which are two
-- for each character that fits and two more.
pub decode_wstring-encode_wstring :
    (n : ℕ) (t : Text) {e : Bytes}
    → IsWideText t
    → Utf16.encode t ≡ ok e
    → length e ≤ 2 * n
    → (bs : Bytes) × (encode_wstring n t ≡ ok bs)
      × (length bs ≡ 2 * (n + 1))
      × (decode_wstring bs ≡ ok t)
unfolding encode_wstring decode_wstring
decode_wstring-encode_wstring n t {e} h encoded l =
    let some_left : 2 * (n + 1) - length e ≡ suc (suc (2 * n - length e)) = omega arith in
    let found : find_null_from 0 (e ++ replicate (suc (suc (2 * n - length e))) 0)
        ≡ some (length e) =
      find_null-encode t 0 (2 * n - length e) h encoded ∙ ap some (omega arith) in
    (
      e ++ replicate (2 * (n + 1) - length e) 0,
      rw encoded,
      omega (
        arith,
        length-append e (replicate (2 * (n + 1) - length e) 0),
        length-replicate {A = ℕ} (2 * (n + 1) - length e) 0,
      ),
      rw
          (
            some_left,
            found,
            take-append_left (length e) e (replicate (suc (suc (2 * n - length e))) 0) refl,
          )
          (Utf16.decode-encode t e encoded),
    )
