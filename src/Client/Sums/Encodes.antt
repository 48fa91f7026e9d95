-- ===== src/Client/Sums/Encodes.antt =====
-- What `adsSumWrite` of src/pyads/pyads_ex.py puts for one value, into the part of the buffer for its symbol.
use pyads_agile.Prelude.{
  ℕ, ◌+◌, ◌-◌, ◌*◌, ◌/◌, ◌≤◌, ◌<◌, ◌≡◌, sym, ap, ◌∙◌, arith, ◌++◌, ◌==◌, false, length, replicate,
  eq→==, lt→ltb, le→ltb, Option, none, some, Result, ok, append_assoc,
}
use pyads_agile.Python.Bytes.{Bytes}
use pyads_agile.Python.Utf8.{Text}
use pyads_agile.Python.Utf8
use pyads_agile.Python.Utf16
use pyads_agile.Structure.Value.{Value, text_value, Values, ScalarType}
use pyads_agile.Structure.Scalar.{FloatOps, format, sizeof, pack_format}
use pyads_agile.Client.Sums.{
  SymbolType, string_symbol, wstring_symbol, scalar_symbol, SymbolInfo, Written, structured, plain,
  elements, put_texts, put_string, pack_array, put_scalars, put_plain, put_value,
}
use pyads_agile.Client.Sums.Splices.{splice_all, pack_into_zeros, replicate-append}
use pyads_agile.Client.Sums.Texts.{
  IsWide, utf8-IsWide, utf16-IsWide, Lands, padded, length-padded, PaddedTexts, put_text-Lands,
  put_texts-Lands,
}

-- The symbol holds one text: the number of its characters is not known, or makes its size.
abbrev pub IsSingle : Option ℕ → ℕ → ℕ → Type 0
IsSingle none width size = Unit {0}
IsSingle (some n) width size = size ≡ n * width + width

-- What a text, or an array of texts, is in the memory of its symbol: each text has zeros behind it.
pub data EncodesText (encode : Text → Result Bytes) (width : ℕ)
    : Option ℕ → ℕ → Value → Bytes → Type 0 where
  single :
      (n : Option ℕ) (size : ℕ) (t : Text) (bs : Bytes)
      → IsSingle n width size
      → encode t ≡ ok bs
      → length bs ≤ size
      → EncodesText encode width n size (text_value t) (padded bs size)
  array :
      (n size : ℕ) (v : Value) (vs : Values) (bs : Bytes)
      → (size == (n * width + width)) ≡ false
      → elements v ≡ ok vs
      → PaddedTexts encode (n * width + width) vs bs
      → length bs ≤ size
      → EncodesText encode width (some n) size v (padded bs size)

-- What a value is in the memory of its symbol.
pub data Encodes (ops : FloatOps) (info : SymbolInfo) : Written → Bytes → Type 0 where
  structure_bytes : (bs : Bytes) → length bs ≡ info.size → Encodes ops info (structured bs) bs
  -- a text that fits, or texts that fit in the elements of an array, with zeros behind them
  string_bytes :
      (n : Option ℕ) (v : Value) (bs : Bytes)
      → info.data_type ≡ string_symbol n
      → EncodesText Utf8.encode 1 n info.size v bs
      → Encodes ops info (plain v) bs
  wstring_bytes :
      (n : Option ℕ) (v : Value) (bs : Bytes)
      → info.data_type ≡ wstring_symbol n
      → EncodesText Utf16.encode 2 n info.size v bs
      → Encodes ops info (plain v) bs
  scalar_bytes :
      (type : ScalarType) (v : Value) (bs : Bytes)
      → info.data_type ≡ scalar_symbol type
      → info.size ≤ sizeof type
      → pack_format ops (format type) v ≡ ok bs
      → length bs ≡ info.size
      → Encodes ops info (plain v) bs
  array_bytes :
      (type : ScalarType) (v : Value) (vs : Values) (bs : Bytes)
      → info.data_type ≡ scalar_symbol type
      → sizeof type < info.size
      → elements v ≡ ok vs
      → pack_array ops type (info.size / sizeof type) vs ≡ ok bs
      → length bs ≡ info.size
      → Encodes ops info (plain v) bs

-- a symbol and its value, with the bytes that stand for it
pub record Encoded (ops : FloatOps) : Type 0 where
  pub info : SymbolInfo
  pub value : Written
  pub bytes : Bytes
  pub encodes : Encodes ops info value bytes

length-EncodesText :
    (encode : Text → Result Bytes) (width : ℕ) (n : Option ℕ) (size : ℕ) (v : Value) (bs : Bytes)
    → EncodesText encode width n size v bs
    → length bs ≡ size
length-EncodesText encode width _ size _ _ (single n _ t bs s e h) = length-padded bs size h
length-EncodesText encode width _ size _ _ (array n _ v vs bs d e p h) = length-padded bs size h

-- texts that do not fill the memory, with the zeros of the memory behind them
Lands-padded :
    (r : Bytes → Result Bytes) (bs front : Bytes) (size rest : ℕ)
    → length bs ≤ size
    → Lands
        (r (front ++ replicate (length bs + (size - length bs + rest)) 0))
        front
        bs
        (size - length bs + rest)
    → Lands (r (front ++ replicate (size + rest) 0)) front (padded bs size) rest
Lands-padded r bs front size rest h (extra, e) =
    let m = size - length bs in
    let count : size + rest ≡ length bs + (m + rest) = omega arith in
    let more : m + rest + extra ≡ m + (rest + extra) = omega arith in
    (
      extra,
      ap (λ k. r (front ++ replicate k 0)) count
          ∙ e
          ∙ ap (λ k. ok (front ++ (bs ++ replicate k 0))) more
          ∙ ap (λ z. ok (front ++ (bs ++ z))) (replicate-append m (rest + extra) 0)
          ∙ ap (λ z. ok (front ++ z))
              (sym (append_assoc bs (replicate m 0) (replicate (rest + extra) 0))),
    )

put_string-Lands :
    (encode : Text → Result Bytes) (width : ℕ) (n : Option ℕ) (size : ℕ) (v : Value)
    (bs front : Bytes) (offset rest : ℕ)
    → IsWide encode width
    → EncodesText encode width n size v bs
    → length front ≡ offset
    → Lands
        (put_string encode width n size v offset (front ++ replicate (size + rest) 0))
        front
        bs
        rest
unfolding put_string
put_string-Lands encode width _ size _ _ front offset rest wide (single none _ t bs s e h) l =
    put_text-Lands encode width wide t bs front offset size rest l e h
put_string-Lands encode width _ size _ _ front offset rest wide (single (some n) _ t bs s e h) l =
    rw (eq→== size (n * width + width) s)
      (put_text-Lands encode width wide t bs front offset size rest l e h)
put_string-Lands encode width _ size _ _ front offset rest wide (array n _ v vs bs d e p h) l =
    rw (d, e)
      (Lands-padded (put_texts encode width (n * width + width) vs offset) bs front size rest h (
        put_texts-Lands encode width wide (n * width + width) vs bs front offset
          (size - length bs + rest) p l))

-- bytes that fill the memory of the symbol
Lands-whole :
    (r : Bytes → Result Bytes) (bs front : Bytes) (size rest : ℕ)
    → r (front ++ (replicate size 0 ++ replicate rest 0)) ≡ ok (front ++ (bs ++ replicate rest 0))
    → Lands (r (front ++ replicate (size + rest) 0)) front bs rest
Lands-whole r bs front size rest e =
    let none_more : rest ≡ rest + 0 = omega arith in
    (
      0,
      ap (λ z. r (front ++ z)) (replicate-append size rest 0)
          ∙ e
          ∙ ap (λ k. ok (front ++ (bs ++ replicate k 0))) none_more,
    )

module _ (ops : FloatOps) where
  pub length-Encodes :
      (info : SymbolInfo) (w : Written) (bs : Bytes) → Encodes ops info w bs → length bs ≡ info.size
  length-Encodes info _ _ (structure_bytes bs l) = l
  length-Encodes info _ _ (string_bytes n v bs k t) =
      length-EncodesText Utf8.encode 1 n info.size v bs t
  length-Encodes info _ _ (wstring_bytes n v bs k t) =
      length-EncodesText Utf16.encode 2 n info.size v bs t
  length-Encodes info _ _ (scalar_bytes type v bs k s e l) = l
  length-Encodes info _ _ (array_bytes type v vs bs k s e f l) = l

  -- a value by the type of its symbol
  put_plain-Lands :
      (info : SymbolInfo) (d : SymbolType) (v : Value) (bs front : Bytes) (offset rest : ℕ)
      → info.data_type ≡ d
      → Lands
          (put_plain ops d info.size v offset (front ++ replicate (info.size + rest) 0))
          front
          bs
          rest
      → Lands
          (put_plain ops info.data_type info.size v offset
            (front ++ replicate (info.size + rest) 0))
          front
          bs
          rest
  put_plain-Lands info d v bs front offset rest k (extra, e) = (
    extra,
    ap (λ d. put_plain ops d info.size v offset (front ++ replicate (info.size + rest) 0)) k ∙ e,
  )

  pub put_value-Encodes :
      (info : SymbolInfo) (w : Written) (bs front : Bytes) (offset rest : ℕ)
      → Encodes ops info w bs
      → length front ≡ offset
      → Lands (put_value ops info w offset (front ++ replicate (info.size + rest) 0)) front bs rest
  unfolding put_value put_plain put_scalars
  put_value-Encodes info _ _ front offset rest (structure_bytes bs m) l =
      Lands-whole (put_value ops info (structured bs) offset) bs front info.size rest
        (ap ok (splice_all front bs (replicate rest 0) offset info.size l))
  put_value-Encodes info _ _ front offset rest (string_bytes n v bs k t) l =
      put_plain-Lands info (string_symbol n) v bs front offset rest k
        (put_string-Lands Utf8.encode 1 n info.size v bs front offset rest utf8-IsWide t l)
  put_value-Encodes info _ _ front offset rest (wstring_bytes n v bs k t) l =
      put_plain-Lands info (wstring_symbol n) v bs front offset rest k
        (put_string-Lands Utf16.encode 2 n info.size v bs front offset rest utf16-IsWide t l)
  put_value-Encodes info _ _ front offset rest (scalar_bytes type v bs k s e m) l =
      put_plain-Lands info (scalar_symbol type) v bs front offset rest k (
        Lands-whole (put_scalars ops type info.size v offset) bs front info.size rest (
          rw (le→ltb (sizeof type) info.size s, e)
            (pack_into_zeros front bs (replicate rest 0) offset info.size l m)))
  put_value-Encodes info _ _ front offset rest (array_bytes type v vs bs k s e f m) l =
      put_plain-Lands info (scalar_symbol type) v bs front offset rest k (
        Lands-whole (put_scalars ops type info.size v offset) bs front info.size rest (
          rw (lt→ltb (sizeof type) info.size s, e, f)
            (pack_into_zeros front bs (replicate rest 0) offset info.size l m)))
