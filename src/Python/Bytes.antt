-- ===== src/Python/Bytes.antt =====
-- `struct.pack` and `struct.unpack` for the formats "<B", "<H", "<I" and "<Q": little-endian
-- unsigned integers of `w` bytes. A byte is a number, below 256 where `IsBytes` says so.
use native.Mathlib.Nat.{pow-suc}
use pyads_agile.Prelude.{
  ℕ, zero, suc, ◌+◌, ◌*◌, ◌/◌, ◌%◌, ◌^◌, ◌<◌, ◌≡◌, refl, ap, List, [], ◌∷◌, arith, ltb, ◌==◌,
  if◌then◌else◌, length, All, Result, ok, err, struct_error, lt→ltb, eq→==,
}

abbrev pub Bytes : Type 0
Bytes = List ℕ

abbrev pub IsBytes : Bytes → Type 0
IsBytes = All (λ b. b < 256)

-- The `w` low bytes of `n`, the lowest first.
unfoldable pub to_le : ℕ → ℕ → Bytes
to_le zero n = []
to_le (suc w) n = n % 256 ∷ to_le w (n / 256)

unfoldable pub of_le : Bytes → ℕ
of_le [] = 0
of_le (b ∷ bs) = b + 256 * of_le bs

-- `struct.pack("<I", n)` is `pack 4 n`: it raises where `n` does not fit.
unfoldable pub pack : ℕ → ℕ → Result Bytes
pack w n = if ltb n (256 ^ w) then ok (to_le w n) else err struct_error

-- `struct.unpack("<I", bs)[0]` is `unpack 4 bs`: it raises unless there are exactly 4 bytes.
unfoldable pub unpack : ℕ → Bytes → Result ℕ
unpack w bs = if length bs == w then ok (of_le bs) else err struct_error

pub length-to_le : (w n : ℕ) → length (to_le w n) ≡ w
unfolding to_le
length-to_le zero n = refl
length-to_le (suc w) n = ap suc (length-to_le w (n / 256))

pub to_le-IsBytes : (w n : ℕ) → IsBytes (to_le w n)
unfolding to_le
to_le-IsBytes zero n = tt
to_le-IsBytes (suc w) n = (omega arith, to_le-IsBytes w (n / 256))

pub of_le-to_le : (w n : ℕ) → n < 256 ^ w → of_le (to_le w n) ≡ n
unfolding to_le of_le
of_le-to_le zero n h = omega arith
of_le-to_le (suc w) n h =
    let small : n / 256 < 256 ^ w = omega (arith, pow-suc 256 w) in
    omega (arith, of_le-to_le w (n / 256) small)

pub of_le-lt : (bs : Bytes) → IsBytes bs → of_le bs < 256 ^ length bs
unfolding of_le
of_le-lt [] h = omega arith
of_le-lt (b ∷ bs) h = omega (arith, pow-suc 256 (length bs), of_le-lt bs h.1)

pub to_le-of_le : (bs : Bytes) → IsBytes bs → to_le (length bs) (of_le bs) ≡ bs
unfolding to_le of_le
to_le-of_le [] h = refl
to_le-of_le (b ∷ bs) h =
    let low : (b + 256 * of_le bs) % 256 ≡ b = omega arith in
    let high : (b + 256 * of_le bs) / 256 ≡ of_le bs = omega arith in
    rw (low, high, to_le-of_le bs h.1)

-- What was packed is unpacked.
pub unpack-to_le : (w n : ℕ) → n < 256 ^ w → unpack w (to_le w n) ≡ ok n
unfolding unpack
unpack-to_le w n h = rw (length-to_le w n, eq→== w w refl, of_le-to_le w n h)

pub pack-eq-ok : (w n : ℕ) → n < 256 ^ w → pack w n ≡ ok (to_le w n)
unfolding pack
pack-eq-ok w n h = rw (lt→ltb n (256 ^ w) h)

-- What is packed fits its width.
pub pack_fits : (w n : ℕ) {bs : Bytes} → pack w n ≡ ok bs → n < 256 ^ w
unfolding pack
pack_fits w n h = ground arith

pub length-pack : (w n : ℕ) {bs : Bytes} → pack w n ≡ ok bs → length bs ≡ w
unfolding pack
length-pack w n h = ground (arith, length-to_le w n)

-- `unpack` and `pack` by what they returned.
pub unpack-eq : (w : ℕ) (bs : Bytes) {n : ℕ} → unpack w bs ≡ ok n → n ≡ of_le bs
unfolding unpack
unpack-eq w bs h = ground arith

pub pack-eq : (w n : ℕ) {bs : Bytes} → pack w n ≡ ok bs → bs ≡ to_le w n
unfolding pack
pack-eq w n h = ground arith
