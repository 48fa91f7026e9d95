-- ===== src/Tests/Structures.antt =====
-- Structures on concrete definitions and dicts.
use pyads_agile.Prelude.{
  ℕ, ◌-◌, ◌≤◌, ◌≡◌, refl, [], ◌∷◌, true, ltb, ◌==◌, if◌then◌else◌, none, some, ok, err, inl, inr,
  length, arith, key_error, overflow_error,
}
use pyads_agile.Python.Bytes.{Bytes, pack, to_le, of_le, unpack}
use pyads_agile.Python.Int.{pos, negsuc, pack_unsigned, pack_signed, unpack_signed}
use pyads_agile.Python.Utf8
use pyads_agile.Python.Utf16
use pyads_agile.Structure.Value.{
  int_value, float_value, text_value, dict_value, list_value, Values, no_values, value, Fields,
  no_fields, field, scalar, structure, plc_string, plc_wstring, plc_uint, plc_sint, plc_real,
  StructureDef, no_items, item,
}
use pyads_agile.Structure.Scalar.{FloatOps, unpack_format}
use pyads_agile.Structure.Texts.{encode_string}
use pyads_agile.Structure.Codec.{
  size_of_structure, bytes_from_dict, dict_from_bytes, decode_structure, decode_items,
}
use pyads_agile.Structure.Fits.{Fits, IsFresh}
use pyads_agile.Structure.Structures.{
  dict_from_bytes-bytes_from_dict, list_from_bytes-bytes_from_dict,
}
use pyads_agile.Structure.Limits.{length-encode_string, nested_structure_raises}

-- conversions that know zero only
abbrev zero_floats : FloatOps
zero_floats = record {
  of_int = λ z. err overflow_error;
  narrow = λ x. if x == 0 then ok 0 else err overflow_error;
  widen = λ n. 0;
}

abbrev point_def : StructureDef
point_def = item (120 ∷ []) (scalar plc_sint) 1 none no_items

abbrev sample_def : StructureDef
sample_def = item (110 ∷ []) (scalar plc_uint) 1 none (
    item (115 ∷ []) plc_string 2 (some 3) (
      item (119 ∷ []) plc_wstring 1 (some 2) (
        item (114 ∷ []) (scalar plc_real) 1 none
          (item (112 ∷ []) (structure point_def) 2 none no_items))))

abbrev point : ℕ → Fields
point n = field (120 ∷ []) (int_value (negsuc n)) no_fields

abbrev sample : Fields
sample = field (110 ∷ []) (int_value (pos 513)) (
    field (115 ∷ [])
      (list_value (value (text_value (97 ∷ 98 ∷ [])) (value (text_value []) no_values)))
      (field (119 ∷ []) (text_value (233 ∷ [])) (
        field (114 ∷ []) (float_value 0) (
          field (112 ∷ [])
            (list_value (value (dict_value (point 0)) (value (dict_value (point 127)) no_values)))
            no_fields))))

point-Fits : (n : ℕ) → n ≤ 127 → Fits zero_floats point_def (point n)
unfolding pack_signed size_of_structure
point-Fits n h = (refl, (1, refl), inl (refl, tt, (to_le 1 (255 - n), packed)), tt)
  where
    packed : pack_signed 1 (negsuc n) ≡ ok (to_le 1 (255 - n))
    packed = ground arith

sample-Fits : Fits zero_floats sample_def sample
unfolding pack_unsigned pack size_of_structure Utf16.encode
sample-Fits = (
  refl,
  (2, refl),
  inl (refl, tt, (to_le 2 513, refl)),
  (
    refl,
    (4, refl),
    inr (
      (λ e. omega (arith, e)),
      (
        _,
        refl,
        refl,
        (
          (
            (((λ e. omega (arith, e)), omega arith), (((λ e. omega (arith, e)), omega arith), tt)),
            omega arith,
          ),
          ((tt, omega arith), tt),
        ),
      ),
    ),
    (
      refl,
      (6, refl),
      inl (refl, tt, ((((λ e. omega (arith, e)), refl), tt), (233 ∷ 0 ∷ [], refl, omega arith))),
      (
        refl,
        (4, refl),
        inl (refl, tt, (0, refl, omega arith, refl)),
        (
          refl,
          (1, refl),
          inr (
            (λ e. omega (arith, e)),
            (
              _,
              refl,
              refl,
              (
                (point-Fits 0 (omega arith), (refl, tt)),
                ((point-Fits 127 (omega arith), (refl, tt)), tt),
              ),
            ),
          ),
          tt,
        ),
      ),
    ),
  ),
)

sample-IsFresh : IsFresh no_fields sample
sample-IsFresh = (refl, (refl, (refl, (refl, (refl, tt)))))

dict_from_bytes-bytes_from_dict_example :
    (bs : Bytes) × (bytes_from_dict zero_floats (dict_value sample) sample_def ≡ ok bs)
    × (size_of_structure sample_def ≡ ok (length bs))
    × (dict_from_bytes zero_floats bs sample_def 1 ≡ ok (dict_value sample))
dict_from_bytes-bytes_from_dict_example =
    dict_from_bytes-bytes_from_dict zero_floats sample_def sample sample-Fits sample-IsFresh

abbrev points : Values
points = value (dict_value (point 3)) (value (dict_value (point 0)) no_values)

one_byte : size_of_structure point_def ≡ ok 1
unfolding size_of_structure
one_byte = refl

list_from_bytes-bytes_from_dict_example :
    (bs : Bytes) × (bytes_from_dict zero_floats (list_value points) point_def ≡ ok bs)
    × (length bs ≡ 2)
    × (dict_from_bytes zero_floats bs point_def 2 ≡ ok (list_value points))
list_from_bytes-bytes_from_dict_example =
    list_from_bytes-bytes_from_dict zero_floats point_def points 1
      ((point-Fits 3 (omega arith), (refl, tt)), ((point-Fits 0 (omega arith), (refl, tt)), tt))
      (λ e. omega (arith, e)) one_byte

-- one character of two bytes in a STRING of 3
wide_string : encode_string 3 (233 ∷ []) ≡ ok (195 ∷ 169 ∷ 0 ∷ 0 ∷ 0 ∷ [])
unfolding encode_string Utf8.encode
wide_string = refl

length-encode_string_example : (4 ≤ 5) × (ltb 4 5 ≡ true)
length-encode_string_example = length-encode_string 3 (233 ∷ []) (omega arith) wide_string

nested_read :
    dict_from_bytes zero_floats (255 ∷ []) (item (112 ∷ []) (structure point_def) 1 none no_items) 1
    ≡ ok (dict_value (field (112 ∷ []) (dict_value (point 0)) no_fields))
unfolding dict_from_bytes decode_structure decode_items size_of_structure unpack_format
    unpack_signed unpack of_le
nested_read = refl

nested_structure_raises_example :
    bytes_from_dict zero_floats
      (dict_value (field (112 ∷ []) (dict_value (point 0)) no_fields))
      (item (112 ∷ []) (structure point_def) 1 none no_items)
    ≡ err key_error
nested_structure_raises_example =
    nested_structure_raises zero_floats (255 ∷ []) (112 ∷ []) point_def none nested_read
