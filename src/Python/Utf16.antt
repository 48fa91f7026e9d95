-- ===== src/Python/Utf16.antt =====
-- `str.encode("utf-16-le")` and `bytes.decode("utf-16-le")` in Python's strict mode.
use pyads_agile.Prelude.{
  ℕ, ◌+◌, ◌-◌, ◌*◌, ◌/◌, ◌%◌, ◌≤◌, ◌<◌, ◌≡◌, true, false, ◌&&◌, [], ◌∷◌, ◌++◌, arith, ltb, leb,
  if◌then◌else◌, Option, none, some, Result, ok, err, unicode_error, ◌>>=◌, Bool-cases, inl, inr,
  ◌∙◌, ap, ok_inj, not_ok, >>=-eq-ok,
}
use pyads_agile.Python.Bytes.{Bytes}
use pyads_agile.Python.Utf8.{Text, is_scalar}

-- a unit of two bytes
abbrev pub unit : ℕ → Bytes
unit u = u % 256 ∷ u / 256 ∷ []

unfoldable pub encode_char : ℕ → Bytes
encode_char c =
    if ltb c 0x10000
    then unit c
    else unit (0xd800 + (c - 0x10000) / 1024) ++ unit (0xdc00 + (c - 0x10000) % 1024)

unfoldable pub encode : Text → Result Bytes
unfolding encode_char
encode [] = ok []
encode (c ∷ cs) =
    let rest = encode cs in
    if is_scalar c then (rest >>= λ bs. ok (encode_char c ++ bs)) else err unicode_error

abbrev emit : ℕ → Result Text → Result Text
emit c r = r >>= λ cs. ok (c ∷ cs)

-- after a high surrogate, or at the start of a character
unfoldable pub decode_units : Option ℕ → Bytes → Result Text
decode_units none [] = ok []
decode_units (some high) [] = err unicode_error
decode_units p (a ∷ []) = err unicode_error
decode_units none (a ∷ b ∷ bs) =
    let u = a + 256 * b in
    elim (is_scalar u) [
      | true ↦ emit u (decode_units none bs)
      | false ↦ elim (leb 0xd800 u && ltb u 0xdc00) [
        | true ↦ decode_units (some u) bs
        | false ↦ err unicode_error
      ]
    ]
decode_units (some high) (a ∷ b ∷ bs) =
    let u = a + 256 * b in
    elim (leb 0xdc00 u && ltb u 0xe000) [
      | true ↦ emit (0x10000 + (high - 0xd800) * 1024 + (u - 0xdc00)) (decode_units none bs)
      | false ↦ err unicode_error
    ]

unfoldable pub decode : Bytes → Result Text
unfolding decode_units
decode bs = decode_units none bs

-- one step on the unit `a + 256 * b`
module _ (a b : ℕ) (bs : Bytes) where
  step_plain :
      is_scalar (a + 256 * b) ≡ true
      → decode_units none (a ∷ b ∷ bs) ≡ emit (a + 256 * b) (decode_units none bs)
  unfolding decode_units
  step_plain h = ground arith

  step_high :
      0xd800 ≤ a + 256 * b
      → a + 256 * b < 0xdc00
      → decode_units none (a ∷ b ∷ bs) ≡ decode_units (some (a + 256 * b)) bs
  unfolding decode_units
  step_high h k = ground arith

  step_low :
      (high : ℕ)
      → 0xdc00 ≤ a + 256 * b
      → a + 256 * b < 0xe000
      → decode_units (some high) (a ∷ b ∷ bs)
        ≡ emit (0x10000 + (high - 0xd800) * 1024 + (a + 256 * b - 0xdc00)) (decode_units none bs)
  unfolding decode_units
  step_low high h k = ground arith

module _ (u : ℕ) (bs : Bytes) where
  whole : u % 256 + 256 * (u / 256) ≡ u
  whole = omega arith

  decode_plain :
      is_scalar u ≡ true → decode_units none (unit u ++ bs) ≡ emit u (decode_units none bs)
  decode_plain h = rw whole at (step_plain (u % 256) (u / 256) bs (rw whole h))

  decode_high :
      0xd800 ≤ u → u < 0xdc00 → decode_units none (unit u ++ bs) ≡ decode_units (some u) bs
  decode_high h k = rw whole at (step_high (u % 256) (u / 256) bs (rw whole h) (rw whole k))

  decode_low :
      (high : ℕ)
      → 0xdc00 ≤ u
      → u < 0xe000
      → decode_units (some high) (unit u ++ bs)
        ≡ emit (0x10000 + (high - 0xd800) * 1024 + (u - 0xdc00)) (decode_units none bs)
  decode_low high h k = rw whole at (step_low (u % 256) (u / 256) bs high (rw whole h) (rw whole k))

decode-encode_char :
    (c : ℕ) (bs : Bytes)
    → is_scalar c ≡ true
    → decode_units none (encode_char c ++ bs) ≡ emit c (decode_units none bs)
unfolding encode_char
decode-encode_char c bs h = elim (Bool-cases (ltb c 0x10000)) [
  | inl small ↦ rw small (decode_plain c bs h)
  | inr large ↦
      let v = c - 0x10000 in
      let high : v / 1024 < 0x400 = ground arith in
      let whole : 0x10000 + (0xd800 + v / 1024 - 0xd800) * 1024 + (0xdc00 + v % 1024 - 0xdc00) ≡ c =
        ground arith in
      rw large (
        decode_high (0xd800 + v / 1024) (unit (0xdc00 + v % 1024) ++ bs) (omega arith) (omega arith)
        ∙ decode_low (0xdc00 + v % 1024) bs (0xd800 + v / 1024) (omega arith) (omega arith)
        ∙ ap (λ n. emit n (decode_units none bs)) whole)
]

-- What was encoded is decoded.
pub decode-encode : (cs : Text) (bs : Bytes) → encode cs ≡ ok bs → decode bs ≡ ok cs
unfolding encode decode decode_units
decode-encode [] bs h = rw (← ok_inj h)
decode-encode (c ∷ cs) bs h = elim (Bool-cases (is_scalar c)) [
  | inl s ↦
      let (rest, e, joined) = >>=-eq-ok (encode cs) _ (rw s at h) in
      rw (← ok_inj joined) (decode-encode_char c rest s ∙ ap (emit c) (decode-encode cs rest e))
  | inr s ↦ absurd (not_ok (rw s at h))
]
