-- ===== src/Structure/Scalar.antt =====
-- Scalars: `DATATYPE_MAP` of src/pyads/constants.py, and `struct.pack` and `struct.unpack` of one value
-- in its formats. How floats are converted is a parameter.
use pyads_agile.Prelude.{
  ℕ, ◌&&◌, ◌^◌, ◌<◌, ◌≡◌, refl, [], ◌∷◌, Bool, true, false, if◌then◌else◌, not, ◌==◌, length,
  Result, ok, err, struct_error, ◌>>=◌,
}
use pyads_agile.Python.Bytes.{
  Bytes, to_le, of_le, pack, unpack, unpack-to_le, length-to_le, pack-eq-ok,
}
use pyads_agile.Python.Int.{
  ℤ, pos, negsuc, pack_unsigned, pack_signed, unpack_unsigned, unpack_signed, unpack-pack_unsigned,
  unpack-pack_signed,
}
use pyads_agile.Structure.Value.{
  Value, bool_value, int_value, float_value, text_value, dict_value, list_value, no_fields, field,
  no_values, value, ScalarType, plc_bool, plc_byte, plc_dint, plc_dword, plc_int, plc_lreal,
  plc_real, plc_sint, plc_udint, plc_uint, plc_usint, plc_lint, plc_ulint, plc_word,
}

-- The conversions of the platform: an `int` to a `float`, a `float` to the 32 bits of single
-- precision, both of which may raise `OverflowError`, and single precision to a `float`.
pub record FloatOps : Type 0 where
  pub of_int : ℤ → Result ℕ
  pub narrow : ℕ → Result ℕ
  pub widen : ℕ → ℕ

-- the formats "<?", "<B" to "<Q", "<b" to "<q", "<f" and "<d"
pub data Format : Type 0 where
  boolean single double : Format
  unsigned_int signed_int : ℕ → Format

-- `DATATYPE_MAP`
abbrev pub format : ScalarType → Format
format plc_bool = boolean
format plc_byte = unsigned_int 1
format plc_dint = signed_int 4
format plc_dword = unsigned_int 4
format plc_int = signed_int 2
format plc_lreal = double
format plc_real = single
format plc_sint = signed_int 1
format plc_udint = unsigned_int 4
format plc_uint = unsigned_int 2
format plc_usint = unsigned_int 1
format plc_lint = signed_int 8
format plc_ulint = unsigned_int 8
format plc_word = unsigned_int 2

abbrev pub width : Format → ℕ
width boolean = 1
width single = 4
width double = 8
width (unsigned_int w) = w
width (signed_int w) = w

-- `sizeof` of the C type
abbrev pub sizeof : ScalarType → ℕ
sizeof s = width (format s)

-- `bool(v)`: zero and the empty are false; a float has two zeros
abbrev pub truth : Value → Bool
truth (bool_value b) = b
truth (int_value (pos n)) = not (n == 0)
truth (int_value (negsuc n)) = true
truth (float_value x) = not (x == 0) && not (x == 2 ^ 63)
truth (text_value []) = false
truth (text_value (c ∷ cs)) = true
truth (dict_value no_fields) = false
truth (dict_value (field n v fs)) = true
truth (list_value no_values) = false
truth (list_value (value v vs)) = true

abbrev pub int_of_bool : Bool → ℤ
int_of_bool b = if b then pos 1 else pos 0

-- what `struct.pack` takes for an integer: a `bool` is one too
abbrev pub as_int : Value → Result ℤ
as_int (int_value z) = ok z
as_int (bool_value b) = ok (int_of_bool b)
as_int v = err struct_error

module _ (ops : FloatOps) where
  abbrev pub as_float : Value → Result ℕ
  as_float (float_value x) = ok x
  as_float (int_value z) = ops.of_int z
  as_float (bool_value b) = ops.of_int (int_of_bool b)
  as_float v = err struct_error

  unfoldable pub pack_format : Format → Value → Result Bytes
  pack_format boolean v = ok (if truth v then 1 ∷ [] else 0 ∷ [])
  pack_format (unsigned_int w) v = as_int v >>= pack_unsigned w
  pack_format (signed_int w) v = as_int v >>= pack_signed w
  pack_format single v = as_float v >>= ops.narrow >>= pack 4
  pack_format double v = as_float v >>= pack 8

  unfoldable pub unpack_format : Format → Bytes → Result Value
  unpack_format boolean bs = unpack 1 bs >>= λ n. ok (bool_value (not (n == 0)))
  unpack_format (unsigned_int w) bs = unpack_unsigned w bs >>= λ z. ok (int_value z)
  unpack_format (signed_int w) bs = unpack_signed w bs >>= λ z. ok (int_value z)
  unpack_format single bs = unpack 4 bs >>= λ n. ok (float_value (ops.widen n))
  unpack_format double bs = unpack 8 bs >>= λ n. ok (float_value n)

  -- The values that a format carries without change: those of its own kind and in its range, and for
  -- single precision the floats that come back from it.
  abbrev pub Carries : Format → Value → Type 0
  Carries boolean (bool_value b) = Unit
  Carries (unsigned_int w) (int_value z) = (bs : Bytes) × (pack_unsigned w z ≡ ok bs)
  Carries (signed_int w) (int_value z) = (bs : Bytes) × (pack_signed w z ≡ ok bs)
  Carries single (float_value x) =
      (n : ℕ) × (ops.narrow x ≡ ok n) × (n < 2 ^ 32) × (ops.widen n ≡ x)
  Carries double (float_value x) = x < 2 ^ 64
  Carries f v = ⊥

  -- Such a value is packed to the width of its format, and unpacked again.
  pub unpack-pack_format :
      (f : Format) (v : Value)
      → Carries f v
      → (bs : Bytes) × (pack_format f v ≡ ok bs)
        × (length bs ≡ width f)
        × (unpack_format f bs ≡ ok v)
  unfolding pack_format unpack_format
  unpack-pack_format boolean (bool_value true) h =
      (1 ∷ [], refl, refl, unfold unpack in unfold of_le in refl)
  unpack-pack_format boolean (bool_value false) h =
      (0 ∷ [], refl, refl, unfold unpack in unfold of_le in refl)
  unpack-pack_format (unsigned_int w) (int_value z) (bs, e) =
      let (u, l) = unpack-pack_unsigned w z e in (bs, e, l, rw u)
  unpack-pack_format (signed_int w) (int_value z) (bs, e) =
      let (u, l) = unpack-pack_signed w z e in (bs, e, l, rw u)
  unpack-pack_format single (float_value x) (n, e, small, back) =
      (to_le 4 n, rw (e, pack-eq-ok 4 n small), length-to_le 4 n, rw (unpack-to_le 4 n small, back))
  unpack-pack_format double (float_value x) h =
      (to_le 8 x, rw (pack-eq-ok 8 x h), length-to_le 8 x, rw (unpack-to_le 8 x h))
  unpack-pack_format f v h = absurd h
