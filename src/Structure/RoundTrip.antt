-- ===== src/Structure/RoundTrip.antt =====
-- What `bytes_from_dict` writes has the size of the structure and is read back by `dict_from_bytes`.
use pyads_agile.Prelude.{
  ℕ, suc, ◌+◌, ◌*◌, ◌≡◌, ◌≢◌, refl, ◌∙◌, ap, sym, subst, [], ◌++◌, append-nil, arith, Option, ok,
  ok_inj, length, length-append, inl, inr, Bool, false, ltb,
}
use pyads_agile.Python.Bytes.{Bytes}
use pyads_agile.Python.Utf8.{Text}
use pyads_agile.Structure.Value.{
  Value, text_value, dict_value, list_value, Values, no_values, value, Fields, no_fields, field,
  PlcType, plc_string, plc_wstring, unknown, scalar, structure, StructureDef, no_items, item, count,
  nth, ScalarType,
}
use pyads_agile.Structure.Scalar.{FloatOps, format, sizeof, unpack-pack_format}
use pyads_agile.Structure.Texts.{
  string_size, decode_string-encode_string, decode_wstring-encode_wstring,
}
use pyads_agile.Structure.Codec.{
  size_of_element, size_of_structure, for_range, read_values, unwrap, encode_element, encode_dict,
  decode_element, decode_items,
}
use pyads_agile.Structure.Fits.{
  FitsElement, Fits, AllValues, append_fields, append_fields-nil, append_fields-snoc, IsFresh,
  IsNoStructure, set_field-fresh, Answers, IsFresh-Answers,
}
use pyads_agile.Structure.Positions.{
  IsAt, IsAt-slice, IsAt-left, IsAt-right, IsAt-whole, taken, taken_single, taken_list, unwrap_list,
}

module _ (ops : FloatOps) where
  -- the bytes of one element, and what writing and reading them does
  pub record Codes (t : PlcType) (str_len : Option ℕ) (v : Value) : Type 0 where
    pub bs : Bytes
    pub sized : size_of_element t str_len ≡ ok (length bs)
    pub encoded :
        (many : Bool) (var : Value) (i : ℕ)
        → taken t many var i ≡ ok v
        → encode_element ops t str_len many var i ≡ ok bs
    pub decoded :
        (bl : Bytes) (index : ℕ)
        → IsAt bs bl index
        → decode_element ops t str_len bl index ≡ ok (v, index + length bs)

  -- likewise for the elements of an array
  pub record CodesValues (t : PlcType) (str_len : Option ℕ) (vs : Values) : Type 0 where
    pub bs : Bytes
    pub sized : (k : ℕ) → size_of_element t str_len ≡ ok k → length bs ≡ k * count vs
    pub encoded :
        (many : Bool) (var : Value) (i : ℕ)
        → ((j k : ℕ) (v : Value) → j ≡ i + k → nth vs k ≡ ok v → taken t many var j ≡ ok v)
        → for_range (count vs) i (encode_element ops t str_len many var) ≡ ok bs
    pub decoded :
        (bl : Bytes) (index : ℕ)
        → IsAt bs bl index
        → read_values (count vs) index (decode_element ops t str_len bl)
          ≡ ok (vs, index + length bs)

  -- likewise for a structure
  pub record CodesFields (d : StructureDef) (fs : Fields) : Type 0 where
    pub bs : Bytes
    pub sized : size_of_structure d ≡ ok (length bs)
    pub encoded : (w : Value) → Answers w fs → encode_dict ops d w ≡ ok bs
    pub decoded :
        (bl : Bytes) (index : ℕ) (acc : Fields)
        → IsAt bs bl index
        → IsFresh acc fs
        → decode_items ops d bl index acc ≡ ok (append_fields acc fs, index + length bs)

  string_Codes :
      (str_len : Option ℕ) (v : Value)
      → FitsElement ops plc_string str_len v
      → Codes plc_string str_len v
  unfolding encode_element decode_element size_of_element
  string_Codes str_len (text_value t) (plain, short) =
      let n = string_size str_len in
      let (bs, e, l, d) = decode_string-encode_string n t plain short in
      record {
        bs = bs;
        sized = rw l;
        encoded = λ many var i p. rw (p, e);
        decoded = λ bl index a. rw (IsAt-slice bs bl index (n + 1) a l, d, l);
      }
  string_Codes str_len v h = absurd h

  wstring_Codes :
      (str_len : Option ℕ) (v : Value)
      → FitsElement ops plc_wstring str_len v
      → Codes plc_wstring str_len v
  unfolding encode_element decode_element size_of_element
  wstring_Codes str_len (text_value t) (wide, (enc, encoded, short)) =
      let n = string_size str_len in
      let (bs, e, l, d) = decode_wstring-encode_wstring n t wide encoded short in
      record {
        bs = bs;
        sized = rw l;
        encoded = λ many var i p. rw (p, e);
        decoded = λ bl index a. rw (IsAt-slice bs bl index (2 * (n + 1)) a l, d, l);
      }
  wstring_Codes str_len v h = absurd h

  scalar_Codes :
      (s : ScalarType) (str_len : Option ℕ) (v : Value)
      → FitsElement ops (scalar s) str_len v
      → Codes (scalar s) str_len v
  unfolding encode_element decode_element size_of_element
  scalar_Codes s str_len v h =
      let (bs, e, l, d) = unpack-pack_format ops (format s) v h in
      record {
        bs = bs;
        sized = rw l;
        encoded = λ many var i p. rw (p, e);
        decoded = λ bl index a. rw (IsAt-slice bs bl index (sizeof s) a l, d, l);
      }

  structure_Codes :
      (d : StructureDef) (str_len : Option ℕ) (fs : Fields)
      → CodesFields d fs
      → IsFresh no_fields fs
      → Codes (structure d) str_len (dict_value fs)
  unfolding encode_element decode_element size_of_element
  structure_Codes d str_len fs c fresh = record {
    bs = c.bs;
    sized = c.sized;
    encoded = λ many var i p.
        rw (p, c.encoded (dict_value fs) (IsFresh-Answers no_fields fs fresh), append-nil);
    decoded = λ bl index a. rw (
      c.sized,
      IsAt-slice c.bs bl index (length c.bs) a refl,
      c.decoded c.bs 0 no_fields (IsAt-whole c.bs) fresh,
    );
  }

  no_Codes : (t : PlcType) (str_len : Option ℕ) → CodesValues t str_len no_values
  no_Codes t str_len = record {
    bs = [];
    sized = λ k e. omega arith;
    encoded = λ many var i p. refl;
    decoded = λ bl index a. ap (λ n. ok (no_values, n)) (omega arith);
  }

  more_Codes :
      (t : PlcType) (str_len : Option ℕ) (v : Value) (vs : Values)
      → Codes t str_len v
      → CodesValues t str_len vs
      → CodesValues t str_len (value v vs)
  more_Codes t str_len v vs c cs = record {
    bs = c.bs ++ cs.bs;
    sized = λ k e.
        let n : length c.bs ≡ k = ok_inj (sym c.sized ∙ e) in
        omega (arith, length-append c.bs cs.bs, cs.sized k e, n);
    encoded = λ many var i p. rw (
      c.encoded many var i (p i 0 v (omega arith) refl),
      cs.encoded many var (suc i) (λ j k w e at. p j (suc k) w (omega (arith, e)) at),
    );
    decoded = λ bl index a.
        rw
          (
            c.decoded bl index (IsAt-left c.bs cs.bs bl index a),
            cs.decoded bl (index + length c.bs) (IsAt-right c.bs cs.bs bl index a),
          )
          (ap (λ n. ok (value v vs, n)) (omega (arith, length-append c.bs cs.bs)));
  }

  end_Codes : CodesFields no_items no_fields
  unfolding encode_dict decode_items size_of_structure
  end_Codes = record {
    bs = [];
    sized = refl;
    encoded = λ w a. refl;
    decoded = λ bl index acc a f. rw (append_fields-nil acc) (ap (λ n. ok (acc, n)) (omega arith));
  }

  item_Codes :
      (name : Text) (t : PlcType) (str_len : Option ℕ) (d : StructureDef) (v : Value) (fs : Fields)
      (k : ℕ) (vs : Values) (many : Bool)
      → size_of_element t str_len ≡ ok k
      → CodesValues t str_len vs
      → CodesFields d fs
      → ltb 1 (count vs) ≡ many
      → ((i : ℕ) (x : Value) → nth vs i ≡ ok x → taken t many v i ≡ ok x)
      → unwrap (count vs) vs ≡ v
      → CodesFields (item name t (count vs) str_len d) (field name v fs)
  unfolding encode_dict decode_items size_of_structure
  item_Codes name t str_len d v fs k vs many known cs c several takes unwraps = record {
    bs = cs.bs ++ c.bs;
    sized = rw (known, c.sized) (ap ok (omega (arith, length-append cs.bs c.bs, cs.sized k known)));
    encoded = λ w a. rw (
      a.0,
      several,
      cs.encoded many v 0
          (λ j i x e at. subst (λ m. taken t many v m ≡ ok x) (index e) (takes i x at)),
      c.encoded w a.1,
    );
    decoded = λ bl index acc a f.
        rw
          (
            cs.decoded bl index (IsAt-left cs.bs c.bs bl index a),
            unwraps,
            set_field-fresh acc name v f.0,
            c.decoded bl (index + length cs.bs) (append_fields acc (field name v no_fields))
                (IsAt-right cs.bs c.bs bl index a) f.1,
            append_fields-snoc acc name v fs,
          )
          (ap (λ n. ok (append_fields acc (field name v fs), n))
            (omega (arith, length-append cs.bs c.bs)));
  }
    where
      index : {i j : ℕ} → j ≡ 0 + i → i ≡ j
      index e = omega (arith, e)

  all_Codes :
      (t : PlcType) (str_len : Option ℕ)
      → ((v : Value) → FitsElement ops t str_len v → Codes t str_len v)
      → (vs : Values) → AllValues (FitsElement ops t str_len) vs
      → CodesValues t str_len vs
  all_Codes t str_len f no_values h = no_Codes t str_len
  all_Codes t str_len f (value v vs) h =
      more_Codes t str_len v vs (f v h.0) (all_Codes t str_len f vs h.1)

  single_Codes :
      (name n : Text) (t : PlcType) (size : ℕ) (str_len : Option ℕ) (d : StructureDef) (v : Value)
      (fs : Fields) (k : ℕ)
      → n ≡ name
      → size ≡ 1
      → IsNoStructure t
      → size_of_element t str_len ≡ ok k
      → Codes t str_len v
      → CodesFields d fs
      → CodesFields (item name t size str_len d) (field n v fs)
  single_Codes name n t size str_len d v fs k named one plain known c rest =
      rw (one, named)
        (item_Codes name t str_len d v fs k (value v no_values) false known
          (more_Codes t str_len v no_values c (no_Codes t str_len)) rest refl
          (taken_single t v plain) refl)

  array_Codes :
      (name n : Text) (t : PlcType) (size : ℕ) (str_len : Option ℕ) (d : StructureDef) (v : Value)
      (fs : Fields) (k : ℕ) (vs : Values)
      → n ≡ name
      → size ≢ 1
      → v ≡ list_value vs
      → count vs ≡ size
      → size_of_element t str_len ≡ ok k
      → CodesValues t str_len vs
      → CodesFields d fs
      → CodesFields (item name t size str_len d) (field n v fs)
  array_Codes name n t size str_len d v fs k vs named several whole counted known cs rest =
      let many : count vs ≢ 1 = λ e. several (sym counted ∙ e) in
      rw (← counted, named, whole)
        (item_Codes name t str_len d (list_value vs) fs k vs (ltb 1 (count vs)) known cs rest refl
          (taken_list t vs many) (unwrap_list vs many))

  mutual
    element_Codes :
        (t : PlcType) (str_len : Option ℕ) (v : Value)
        → FitsElement ops t str_len v
        → Codes t str_len v
    element_Codes plc_string str_len v h = string_Codes str_len v h
    element_Codes plc_wstring str_len v h = wstring_Codes str_len v h
    element_Codes unknown str_len v h = absurd h
    element_Codes (scalar s) str_len v h = scalar_Codes s str_len v h
    element_Codes (structure d) str_len (dict_value fs) h =
        structure_Codes d str_len fs (fields_Codes d fs h.0) h.1
    element_Codes (structure d) str_len v h = absurd h

    pub fields_Codes : (d : StructureDef) (fs : Fields) → Fits ops d fs → CodesFields d fs
    fields_Codes no_items no_fields h = end_Codes
    fields_Codes (item name t size str_len d) (field n v fs)
          (named, (k, known), inl (one, plain, h), rest) =
        single_Codes name n t size str_len d v fs k named one plain known
          (element_Codes t str_len v h) (fields_Codes d fs rest)
    fields_Codes (item name t size str_len d) (field n v fs)
          (named, (k, known), inr (several, (vs, whole, counted, h)), rest) =
        array_Codes name n t size str_len d v fs k vs named several whole counted known
          (all_Codes t str_len (element_Codes t str_len) vs h) (fields_Codes d fs rest)
    fields_Codes d fs h = absurd h
