-- ===== src/Structure/Structures.antt =====
-- Round trips of whole structures and of arrays of them.
use pyads_agile.Prelude.{
  ℕ, ◌+◌, ◌*◌, ◌≡◌, ◌≢◌, refl, ◌∙◌, ap, sym, [], ◌++◌, append-nil, arith, ok, ok_inj, length,
  length-append,
}
use pyads_agile.Python.Bytes.{Bytes}
use pyads_agile.Structure.Value.{
  Value, dict_value, list_value, Values, no_values, value, Fields, no_fields, StructureDef, count,
}
use pyads_agile.Structure.Scalar.{FloatOps}
use pyads_agile.Structure.Codec.{
  size_of_structure, for_values, read_values, encode_dict, decode_structure, bytes_from_dict,
  dict_from_bytes,
}
use pyads_agile.Structure.Fits.{Fits, AllValues, IsFresh, IsFresh-Answers}
use pyads_agile.Structure.Positions.{IsAt, IsAt-left, IsAt-right, IsAt-whole, unwrap_list}
use pyads_agile.Structure.RoundTrip.{CodesFields, fields_Codes}

-- Every value is a dict of different names that fits the definition.
abbrev pub IsDictOf : FloatOps → StructureDef → Value → Type 0
IsDictOf ops d (dict_value fs) = Fits ops d fs × IsFresh no_fields fs
IsDictOf ops d v = ⊥

module _ (ops : FloatOps) (d : StructureDef) where
  record CodesDicts (vs : Values) : Type 0 where
    bs : Bytes
    sized : (k : ℕ) → size_of_structure d ≡ ok k → length bs ≡ k * count vs
    encoded : for_values vs (encode_dict ops d) ≡ ok bs
    decoded :
        (bl : Bytes) (index : ℕ)
        → IsAt bs bl index
        → read_values (count vs) index (decode_structure ops d bl) ≡ ok (vs, index + length bs)

  add_dict :
      (fs : Fields) (vs : Values)
      → CodesFields ops d fs
      → IsFresh no_fields fs
      → CodesDicts vs
      → CodesDicts (value (dict_value fs) vs)
  unfolding decode_structure
  add_dict fs vs c fresh cs = record {
    bs = c.bs ++ cs.bs;
    sized = λ k e.
        let n : length c.bs ≡ k = ok_inj (sym c.sized ∙ e) in
        omega (arith, length-append c.bs cs.bs, cs.sized k e, n);
    encoded = rw (c.encoded (dict_value fs) (IsFresh-Answers no_fields fs fresh), cs.encoded);
    decoded = λ bl index a.
        rw
          (
            c.decoded bl index no_fields (IsAt-left c.bs cs.bs bl index a) fresh,
            cs.decoded bl (index + length c.bs) (IsAt-right c.bs cs.bs bl index a),
          )
          (ap (λ n. ok (value (dict_value fs) vs, n)) (omega (arith, length-append c.bs cs.bs)));
  }

  dicts_Codes : (vs : Values) → AllValues (IsDictOf ops d) vs → CodesDicts vs
  dicts_Codes no_values h = record {
    bs = [];
    sized = λ k e. omega arith;
    encoded = refl;
    decoded = λ bl index a. ap (λ n. ok (no_values, n)) (omega arith);
  }
  dicts_Codes (value (dict_value fs) vs) h =
      add_dict fs vs (fields_Codes ops d fs h.0.0) h.0.1 (dicts_Codes vs h.1)
  dicts_Codes (value v vs) h = absurd h.0

  -- A dict of different names that fits a definition is written to bytes, they are as many as the
  -- size of the structure says, and reading one structure from them gives the dict again.
  pub dict_from_bytes-bytes_from_dict :
      (fs : Fields)
      → Fits ops d fs
      → IsFresh no_fields fs
      → (bs : Bytes) × (bytes_from_dict ops (dict_value fs) d ≡ ok bs)
        × (size_of_structure d ≡ ok (length bs))
        × (dict_from_bytes ops bs d 1 ≡ ok (dict_value fs))
  unfolding bytes_from_dict dict_from_bytes
  dict_from_bytes-bytes_from_dict fs fits fresh =
      let c = fields_Codes ops d fs fits in
      (
        c.bs,
        rw (c.encoded (dict_value fs) (IsFresh-Answers no_fields fs fresh), append-nil),
        c.sized,
        rw (c.decoded c.bs 0 no_fields (IsAt-whole c.bs) fresh),
      )

  -- Any number of dicts but one that fit a definition are written to bytes, which are as many as that
  -- number times the size of the structure, and reading that number of structures from them gives
  -- the list of dicts again.
  pub list_from_bytes-bytes_from_dict :
      (vs : Values) (n : ℕ)
      → AllValues (IsDictOf ops d) vs
      → count vs ≢ 1
      → size_of_structure d ≡ ok n
      → (bs : Bytes) × (bytes_from_dict ops (list_value vs) d ≡ ok bs)
        × (length bs ≡ n * count vs)
        × (dict_from_bytes ops bs d (count vs) ≡ ok (list_value vs))
  unfolding bytes_from_dict dict_from_bytes
  list_from_bytes-bytes_from_dict vs n fit several known =
      let cs = dicts_Codes vs fit in
      (
        cs.bs,
        cs.encoded,
        cs.sized n known,
        rw (cs.decoded cs.bs 0 (IsAt-whole cs.bs)) (ap ok (unwrap_list vs several)),
      )
