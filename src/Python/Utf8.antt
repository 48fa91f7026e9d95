-- ===== src/Python/Utf8.antt =====
-- `str.encode("utf-8")` and `bytes.decode("utf-8")` in Python's strict mode. A text is the list of
-- its code points; both raise `UnicodeError` on surrogates, and decoding on ill-formed input.
use pyads_agile.Prelude.{
  ℕ, zero, suc, ◌+◌, ◌-◌, ◌*◌, ◌/◌, ◌%◌, ◌≤◌, ◌<◌, ◌≡◌, Bool, true, false, ◌&&◌, ◌||◌, List, [],
  ◌∷◌, ◌++◌, arith, ltb, leb, if◌then◌else◌, All, Result, ok, err, unicode_error, ◌>>=◌, Bool-cases,
  inl, inr, ltb→lt, ◌∙◌, ap, ok_inj, not_ok, >>=-eq-ok,
}
use pyads_agile.Python.Bytes.{Bytes, IsBytes}

abbrev pub Text : Type 0
Text = List ℕ

-- A code point that UTF-8 can carry.
abbrev pub is_scalar : ℕ → Bool
is_scalar c = ltb c 0xd800 || (leb 0xe000 c && ltb c 0x110000)

abbrev pub IsText : Text → Type 0
IsText = All (λ c. is_scalar c ≡ true)

unfoldable pub encode_char : ℕ → Bytes
encode_char c =
    if ltb c 0x80
    then c ∷ []
    else if ltb c 0x800
    then (0xc0 + c / 64) ∷ (0x80 + c % 64) ∷ []
    else if ltb c 0x10000
    then (0xe0 + c / 4096) ∷ (0x80 + c / 64 % 64) ∷ (0x80 + c % 64) ∷ []
    else (0xf0 + c / 262144) ∷ (0x80 + c / 4096 % 64) ∷ (0x80 + c / 64 % 64) ∷ (0x80 + c % 64) ∷ []

unfoldable pub encode : Text → Result Bytes
unfolding encode_char
encode [] = ok []
encode (c ∷ cs) =
    let rest = encode cs in
    if is_scalar c then (rest >>= λ bs. ok (encode_char c ++ bs)) else err unicode_error

abbrev emit : ℕ → Result Text → Result Text
emit c r = r >>= λ cs. ok (c ∷ cs)

-- `need` continuation bytes are still to come for the character whose bits so far are `acc`, and
-- which must be at least `low`.
unfoldable pub decode_from : ℕ → ℕ → ℕ → Bytes → Result Text
decode_from zero acc low [] = ok []
decode_from (suc need) acc low [] = err unicode_error
decode_from zero acc low (b ∷ bs) = elim (ltb b 0x80) [
  | true ↦ emit b (decode_from zero 0 0 bs)
  | false ↦ elim (leb 0xc2 b && ltb b 0xe0) [
    | true ↦ decode_from 1 (b - 0xc0) 0x80 bs
    | false ↦ elim (leb 0xe0 b && ltb b 0xf0) [
      | true ↦ decode_from 2 (b - 0xe0) 0x800 bs
      | false ↦ elim (leb 0xf0 b && ltb b 0xf5) [
        | true ↦ decode_from 3 (b - 0xf0) 0x10000 bs
        | false ↦ err unicode_error
      ]
    ]
  ]
]
decode_from (suc zero) acc low (b ∷ bs) =
    let c = acc * 64 + (b - 0x80) in
    elim (leb 0x80 b && ltb b 0xc0 && leb low c && is_scalar c) [
      | true ↦ emit c (decode_from zero 0 0 bs)
      | false ↦ err unicode_error
    ]
decode_from (suc (suc need)) acc low (b ∷ bs) = elim (leb 0x80 b && ltb b 0xc0) [
  | true ↦ decode_from (suc need) (acc * 64 + (b - 0x80)) low bs
  | false ↦ err unicode_error
]

unfoldable pub decode : Bytes → Result Text
unfolding decode_from
decode bs = decode_from 0 0 0 bs

module _ (a l b : ℕ) (bs : Bytes) where
  lead_ascii : b < 0x80 → decode_from 0 a l (b ∷ bs) ≡ emit b (decode_from 0 0 0 bs)
  unfolding decode_from
  lead_ascii h = ground arith

  lead_two : 0xc2 ≤ b → b < 0xe0 → decode_from 0 a l (b ∷ bs) ≡ decode_from 1 (b - 0xc0) 0x80 bs
  unfolding decode_from
  lead_two h k = ground arith

  lead_three : 0xe0 ≤ b → b < 0xf0 → decode_from 0 a l (b ∷ bs) ≡ decode_from 2 (b - 0xe0) 0x800 bs
  unfolding decode_from
  lead_three h k = ground arith

  lead_four : 0xf0 ≤ b → b < 0xf5 → decode_from 0 a l (b ∷ bs) ≡ decode_from 3 (b - 0xf0) 0x10000 bs
  unfolding decode_from
  lead_four h k = ground arith

  continue_last :
      (c : ℕ)
      → 0x80 ≤ b
      → b < 0xc0
      → a * 64 + (b - 0x80) ≡ c
      → l ≤ c
      → is_scalar c ≡ true
      → decode_from 1 a l (b ∷ bs) ≡ emit c (decode_from 0 0 0 bs)
  unfolding decode_from
  continue_last c h k e low s = ground arith

  continue_more :
      (n : ℕ)
      → 0x80 ≤ b
      → b < 0xc0
      → decode_from (suc (suc n)) a l (b ∷ bs) ≡ decode_from (suc n) (a * 64 + (b - 0x80)) l bs
  unfolding decode_from
  continue_more n h k = ground arith

module _ (c : ℕ) (bs : Bytes) (h : is_scalar c ≡ true) where
  two_bytes :
      0x80 ≤ c
      → c < 0x800
      → decode_from 0 0 0 ((0xc0 + c / 64) ∷ (0x80 + c % 64) ∷ bs) ≡ emit c (decode_from 0 0 0 bs)
  two_bytes low high =
      lead_two 0 0 _ _ (omega arith) (omega arith)
      ∙ continue_last _ 0x80 _ bs c (omega arith) (omega arith) (omega arith) low h

  three_bytes :
      0x800 ≤ c
      → c < 0x10000
      → decode_from 0 0 0 ((0xe0 + c / 4096) ∷ (0x80 + c / 64 % 64) ∷ (0x80 + c % 64) ∷ bs)
        ≡ emit c (decode_from 0 0 0 bs)
  three_bytes low high =
      lead_three 0 0 _ _ (omega arith) (omega arith)
      ∙ continue_more _ _ _ _ 0 (omega arith) (omega arith)
      ∙ continue_last _ 0x800 _ bs c (omega arith) (omega arith) (omega arith) low h

  four_bytes :
      0x10000 ≤ c
      → decode_from 0 0 0 (
          (0xf0 + c / 262144)
          ∷ (0x80 + c / 4096 % 64)
          ∷ (0x80 + c / 64 % 64)
          ∷ (0x80 + c % 64)
          ∷ bs)
        ≡ emit c (decode_from 0 0 0 bs)
  four_bytes low =
      let high : c < 0x110000 = ground arith in
      lead_four 0 0 _ _ (omega arith) (omega arith)
      ∙ continue_more _ _ _ _ 1 (omega arith) (omega arith)
      ∙ continue_more _ _ _ _ 0 (omega arith) (omega arith)
      ∙ continue_last _ 0x10000 _ bs c (omega arith) (omega arith) (omega arith) low h

decode_from-encode_char :
    (c : ℕ) (bs : Bytes)
    → is_scalar c ≡ true
    → decode_from 0 0 0 (encode_char c ++ bs) ≡ emit c (decode_from 0 0 0 bs)
unfolding encode_char
decode_from-encode_char c bs h = elim (Bool-cases (ltb c 0x80)) [
  | inl one ↦ rw one (lead_ascii 0 0 c bs (ltb→lt c 0x80 one))
  | inr big ↦ elim (Bool-cases (ltb c 0x800)) [
    | inl two ↦ rw (big, two) (two_bytes c bs h (geb big) (ltb→lt c _ two))
    | inr bigger ↦ elim (Bool-cases (ltb c 0x10000)) [
      | inl three ↦ rw (big, bigger, three) (three_bytes c bs h (geb bigger) (ltb→lt c _ three))
      | inr biggest ↦ rw (big, bigger, biggest) (four_bytes c bs h (geb biggest))
    ]
  ]
]
  where
    geb : {k : ℕ} → ltb c k ≡ false → k ≤ c
    geb {k} e = ground arith

-- What was encoded is decoded.
pub decode-encode : (cs : Text) (bs : Bytes) → encode cs ≡ ok bs → decode bs ≡ ok cs
unfolding encode decode
decode-encode [] bs h = rw (← ok_inj h)
decode-encode (c ∷ cs) bs h = elim (Bool-cases (is_scalar c)) [
  | inl s ↦
      let (rest, e, joined) = >>=-eq-ok (encode cs) _ (rw s at h) in
      rw (← ok_inj joined)
        (decode_from-encode_char c rest s ∙ ap (emit c) (decode-encode cs rest e))
  | inr s ↦ absurd (not_ok (rw s at h))
]

encode_char-IsBytes :
    (c : ℕ) (bs : Bytes) → is_scalar c ≡ true → IsBytes bs → IsBytes (encode_char c ++ bs)
unfolding encode_char
encode_char-IsBytes c bs h k = ground arith

pub encode-IsBytes : (cs : Text) (bs : Bytes) → encode cs ≡ ok bs → IsBytes bs
unfolding encode
encode-IsBytes [] bs h = rw (← ok_inj h) tt
encode-IsBytes (c ∷ cs) bs h = elim (Bool-cases (is_scalar c)) [
  | inl s ↦
      let (rest, e, joined) = >>=-eq-ok (encode cs) _ (rw s at h) in
      rw (← ok_inj joined) (encode_char-IsBytes c rest s (encode-IsBytes cs rest e))
  | inr s ↦ absurd (not_ok (rw s at h))
]
