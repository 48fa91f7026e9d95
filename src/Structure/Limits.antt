-- ===== src/Structure/Limits.antt =====
-- Where reading and writing structures do not agree.
use pyads_agile.Prelude.{
  ℕ, ◌+◌, ◌-◌, ◌≤◌, ◌≡◌, [], ◌∷◌, arith, Bool, false, ◌||◌, ltb, leb, Option, ok, err, key_error,
  ok_inj, not_ok, >>=-eq-ok, length, length-append, length-replicate, replicate, list_eq_refl,
  Bool-cases, Result-cases, inl, inr, slice,
}
use pyads_agile.Python.Bytes.{Bytes}
use pyads_agile.Python.Utf8.{Text, is_scalar}
use pyads_agile.Python.Utf8
use pyads_agile.Structure.Value.{
  Value, dict_value, no_fields, field, structure, StructureDef, no_items, item, get_key, get_index,
}
use pyads_agile.Structure.Scalar.{FloatOps}
use pyads_agile.Structure.Texts.{encode_string}
use pyads_agile.Structure.Codec.{
  size_of_structure, decode_items, decode_element, decode_structure, encode_element, encode_dict,
  bytes_from_dict, dict_from_bytes,
}

-- Not all characters of a text are ASCII.
abbrev pub has_wide : Text → Bool
has_wide [] = false
has_wide (c ∷ cs) = leb 128 c || has_wide cs

length-encode_char :
    (c : ℕ) → (1 ≤ length (Utf8.encode_char c)) × (ltb 1 (length (Utf8.encode_char c)) ≡ leb 128 c)
unfolding Utf8.encode_char
length-encode_char c = ground arith

length-encode :
    (t : Text) {bs : Bytes}
    → Utf8.encode t ≡ ok bs
    → (length t ≤ length bs) × (ltb (length t) (length bs) ≡ has_wide t)
unfolding Utf8.encode
length-encode [] e = rw (← ok_inj e) (ground arith)
length-encode (c ∷ cs) e = elim (Bool-cases (is_scalar c)) [
  | inl s ↦
      let (rest, e', joined) = >>=-eq-ok (Utf8.encode cs) _ (rw s at e) in
      rw (← ok_inj joined) (
        ground (
          arith,
          length-append (Utf8.encode_char c) rest,
          length-encode cs e',
          length-encode_char c,
        ))
  | inr s ↦ absurd (not_ok (rw s at e))
]

-- The text of a STRING that fits its characters fills the bytes that `size_of_structure` counts for
-- it exactly where it is ASCII; any other text makes more bytes of it.
pub length-encode_string :
    (n : ℕ) (t : Text) {bs : Bytes}
    → length t ≤ n
    → encode_string n t ≡ ok bs
    → (n + 1 ≤ length bs) × (ltb (n + 1) (length bs) ≡ has_wide t)
unfolding encode_string
length-encode_string n t l e =
    let (enc, e', joined) = >>=-eq-ok (Utf8.encode t) _ e in
    rw (← ok_inj joined) (
      ground (
        arith,
        length-append enc (replicate (n + 1 - length t) 0),
        length-replicate {A = ℕ} (n + 1 - length t) 0,
        length-encode t e',
      ))

-- What `dict_from_bytes` reads for a definition that nests one structure, `bytes_from_dict` refuses
-- with KeyError for the same definition, whatever the bytes.
pub nested_structure_raises :
    (ops : FloatOps) (bl : Bytes) (name : Text) (d : StructureDef) (str_len : Option ℕ) {v : Value}
    → dict_from_bytes ops bl (item name (structure d) 1 str_len no_items) 1 ≡ ok v
    → bytes_from_dict ops v (item name (structure d) 1 str_len no_items) ≡ err key_error
unfolding bytes_from_dict dict_from_bytes decode_structure decode_items decode_element encode_dict
    encode_element get_key get_index
nested_structure_raises ops bl name d str_len {v} e = elim (Result-cases (size_of_structure d)) [
  | inr (x, failed) ↦ absurd (not_ok (rw failed at e))
  | inl (n, known) ↦ elim (Result-cases (decode_items ops d (slice 0 (0 + n) bl) 0 no_fields)) [
    | inr (x, failed) ↦ absurd (not_ok (rw (known, failed) at e))
    | inl (r, read) ↦
        let w : dict_value (field name (dict_value r.0) no_fields) ≡ v =
          ok_inj (rw (known, read) at e) in
        rw (← w, list_eq_refl name)
  ]
]
