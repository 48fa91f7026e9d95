-- ===== src/Python/Int.antt =====
-- Python's `int` beyond the natural numbers, and `struct.pack` and `struct.unpack` for the formats
-- "<b", "<h", "<i" and "<q": integers of `w` bytes in two's complement.
use pyads_agile.Prelude.{
  ℕ, ◌-◌, ◌/◌, ◌^◌, ◌<◌, ◌≡◌, refl, arith, ltb, if◌then◌else◌, length, Result, ok, err,
  struct_error, ◌>>=◌, Bool-cases, inl, inr, ltb→lt, ok_inj, not_ok,
}
use pyads_agile.Python.Bytes.{
  Bytes, to_le, pack, unpack, unpack-to_le, length-to_le, length-pack, pack-eq, pack_fits,
}

pub data ℤ : Type 0 where
  pos : ℕ → ℤ
  negsuc : ℕ → ℤ

unfoldable pub pack_unsigned : ℕ → ℤ → Result Bytes
pack_unsigned w (pos n) = pack w n
pack_unsigned w (negsuc n) = err struct_error

unfoldable pub pack_signed : ℕ → ℤ → Result Bytes
pack_signed w (pos n) = if ltb n (256 ^ w / 2) then ok (to_le w n) else err struct_error
pack_signed w (negsuc n) =
    if ltb n (256 ^ w / 2) then ok (to_le w (256 ^ w - 1 - n)) else err struct_error

-- the number that `n`, read without a sign, stands for
abbrev pub signed : ℕ → ℕ → ℤ
signed w n = if ltb n (256 ^ w / 2) then pos n else negsuc (256 ^ w - 1 - n)

unfoldable pub unpack_unsigned : ℕ → Bytes → Result ℤ
unpack_unsigned w bs = unpack w bs >>= λ n. ok (pos n)

unfoldable pub unpack_signed : ℕ → Bytes → Result ℤ
unpack_signed w bs = unpack w bs >>= λ n. ok (signed w n)

pub unpack-pack_unsigned :
    (w : ℕ) (z : ℤ) {bs : Bytes}
    → pack_unsigned w z ≡ ok bs
    → (unpack_unsigned w bs ≡ ok z) × (length bs ≡ w)
unfolding pack_unsigned unpack_unsigned
unpack-pack_unsigned w (pos n) e =
    (rw (pack-eq w n e, unpack-to_le w n (pack_fits w n e)), length-pack w n e)
unpack-pack_unsigned w (negsuc n) e = absurd (not_ok e)

pub unpack-pack_signed :
    (w : ℕ) (z : ℤ) {bs : Bytes}
    → pack_signed w z ≡ ok bs
    → (unpack_signed w bs ≡ ok z) × (length bs ≡ w)
unfolding pack_signed unpack_signed
unpack-pack_signed w (pos n) {bs} e = elim (Bool-cases (ltb n (256 ^ w / 2))) [
  | inl h ↦
      let b : to_le w n ≡ bs = ok_inj (rw h at e) in
      let small = ltb→lt n (256 ^ w / 2) h in
      rw (← b, length-to_le w n) (rw (unpack-to_le w n (omega arith), h), refl)
  | inr h ↦ absurd (not_ok (rw h at e))
]
unpack-pack_signed w (negsuc n) {bs} e = elim (Bool-cases (ltb n (256 ^ w / 2))) [
  | inl h ↦
      let b : to_le w (256 ^ w - 1 - n) ≡ bs = ok_inj (rw h at e) in
      let small = ltb→lt n (256 ^ w / 2) h in
      rw (← b, length-to_le w (256 ^ w - 1 - n))
        (rw (unpack-to_le w (256 ^ w - 1 - n) (omega arith)) (two_complement n small), refl)
  | inr h ↦ absurd (not_ok (rw h at e))
]
  where
    two_complement : (n : ℕ) → n < 256 ^ w / 2 → ok (signed w (256 ^ w - 1 - n)) ≡ ok (negsuc n)
    two_complement n small = ground arith
