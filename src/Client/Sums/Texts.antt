-- ===== src/Client/Sums/Texts.antt =====
-- How texts land in the buffer of `adsSumWrite` of src/pyads/pyads_ex.py, whose end is still zero. A text
-- takes a slice as long as its characters, so one with longer characters makes the buffer longer.
use pyads_agile.Prelude.{
  ℕ, ◌+◌, ◌-◌, ◌*◌, ◌≤◌, ◌≡◌, sym, ap, ◌∙◌, arith, [], ◌∷◌, ◌++◌, append-nil, append_assoc, length,
  length-append, length-replicate, replicate, ltb, Bool-cases, inl, inr, Result, ok, ◌>>=◌,
  >>=-eq-ok, ok_inj, not_ok,
}
use pyads_agile.Python.Bytes.{Bytes}
use pyads_agile.Python.Utf8.{Text, is_scalar}
use pyads_agile.Python.Utf8
use pyads_agile.Python.Utf16
use pyads_agile.Structure.Value.{text_value, Values, no_values, value}
use pyads_agile.Client.Sums.{splice, put_text, put_texts}
use pyads_agile.Client.Sums.Splices.{splice_zeros, replicate-append}

-- A character takes at least this many bytes.
abbrev pub IsWide : (Text → Result Bytes) → ℕ → Type 0
IsWide encode width = (t : Text) (bs : Bytes) → encode t ≡ ok bs → width * length t ≤ length bs

char_utf8 : (c : ℕ) → 1 ≤ length (Utf8.encode_char c)
unfolding Utf8.encode_char
char_utf8 c = ground arith

pub utf8-IsWide : IsWide Utf8.encode 1
unfolding Utf8.encode
utf8-IsWide [] bs e = omega arith
utf8-IsWide (c ∷ cs) bs e = elim (Bool-cases (is_scalar c)) [
  | inl s ↦
      let (rest, e', joined) = >>=-eq-ok (Utf8.encode cs) _ (rw s at e) in
      let both = length-append (Utf8.encode_char c) rest in
      rw (← ok_inj joined) (omega (arith, both, utf8-IsWide cs rest e', char_utf8 c))
  | inr s ↦ absurd (not_ok (rw s at e))
]

char_utf16 : (c : ℕ) → 2 ≤ length (Utf16.encode_char c)
unfolding Utf16.encode_char
char_utf16 c = elim (Bool-cases (ltb c 0x10000)) [
  | inl small ↦ rw small (omega arith)
  | inr large ↦ rw large (omega arith)
]

pub utf16-IsWide : IsWide Utf16.encode 2
unfolding Utf16.encode
utf16-IsWide [] bs e = omega arith
utf16-IsWide (c ∷ cs) bs e = elim (Bool-cases (is_scalar c)) [
  | inl s ↦
      let (rest, e', joined) = >>=-eq-ok (Utf16.encode cs) _ (rw s at e) in
      let both = length-append (Utf16.encode_char c) rest in
      rw (← ok_inj joined) (omega (arith, both, utf16-IsWide cs rest e', char_utf16 c))
  | inr s ↦ absurd (not_ok (rw s at e))
]

-- The bytes stand behind the front, and at least so many zeros behind them.
abbrev pub Lands : Result Bytes → Bytes → Bytes → ℕ → Type 0
Lands r front bs rest = (extra : ℕ) × (r ≡ ok (front ++ (bs ++ replicate (rest + extra) 0)))

abbrev pub padded : Bytes → ℕ → Bytes
padded bs size = bs ++ replicate (size - length bs) 0

pub length-padded : (bs : Bytes) (size : ℕ) → length bs ≤ size → length (padded bs size) ≡ size
length-padded bs size h =
    let zeros : Bytes = replicate (size - length bs) 0 in
    let long : length zeros ≡ size - length bs = length-replicate (size - length bs) 0 in
    omega (arith, length-append bs zeros, long)

-- texts one after the other, each with zeros behind it up to the size of an element
pub data PaddedTexts (encode : Text → Result Bytes) (element_size : ℕ)
    : Values → Bytes → Type 0 where
  no_texts : PaddedTexts encode element_size no_values []
  one_text :
      (t : Text) (bs : Bytes) (vs : Values) (rest : Bytes)
      → encode t ≡ ok bs
      → length bs ≤ element_size
      → PaddedTexts encode element_size vs rest
      → PaddedTexts encode element_size (value (text_value t) vs) (padded bs element_size ++ rest)

module _ (encode : Text → Result Bytes) (width : ℕ) (wide : IsWide encode width) where
  pub put_text-Lands :
      (t : Text) (bs front : Bytes) (offset size rest : ℕ)
      → length front ≡ offset
      → encode t ≡ ok bs
      → length bs ≤ size
      → Lands
          (put_text encode width (text_value t) offset (front ++ replicate (size + rest) 0))
          front
          (padded bs size)
          rest
  unfolding put_text
  put_text-Lands t bs front offset size rest l e h =
      let n = width * length t in
      let m = size - length bs in
      let extra = length bs - n in
      let fits = wide t bs e in
      let fits_all : n ≤ size + rest = omega arith in
      let zeros : Bytes = replicate (size + rest) 0 in
      let sizes : size + rest - n ≡ m + (rest + extra) = omega arith in
      let tail : replicate (size + rest - n) 0 ≡ replicate m 0 ++ replicate (rest + extra) 0 =
        ap (λ k. replicate k 0) sizes ∙ replicate-append m (rest + extra) 0 in
      (
        extra,
        ap (λ r. r >>= λ bs. ok (splice offset n bs (front ++ zeros))) e
            ∙ ap (λ z. ok (splice offset n bs (front ++ z))) (sym (append-nil zeros))
            ∙ ap ok (
                splice_zeros front bs [] offset n (size + rest) l fits_all
                ∙ ap (λ z. front ++ z)
                    (append-nil (bs ++ replicate (size + rest - n) 0)
                      ∙ ap (λ z. bs ++ z) tail
                      ∙ sym (append_assoc bs (replicate m 0) (replicate (rest + extra) 0)))),
      )

  pub put_texts-Lands :
      (element_size : ℕ) (vs : Values) (bs front : Bytes) (offset rest : ℕ)
      → PaddedTexts encode element_size vs bs
      → length front ≡ offset
      → Lands
          (put_texts encode width element_size vs offset (front ++ replicate (length bs + rest) 0))
          front
          bs
          rest
  unfolding put_texts
  put_texts-Lands element_size _ _ front offset rest no_texts l =
      (0, ap (λ k. ok (front ++ replicate k 0)) (omega arith))
  put_texts-Lands element_size _ _ front offset rest (one_text t bs vs more e h texts) l =
      let one = padded bs element_size in
      let all_rest = put_texts encode width element_size vs (offset + element_size) in
      let long = length-padded bs element_size h in
      let count : length (one ++ more) + rest ≡ element_size + (length more + rest) =
        omega (arith, length-append one more, long) in
      let (extra, put) = put_text-Lands t bs front offset element_size (length more + rest) l e h in
      let moved : length more + rest + extra ≡ length more + (rest + extra) = omega arith in
      let (extra', next) =
        put_texts-Lands element_size vs more (front ++ one) (offset + element_size) (rest + extra)
          texts (omega (arith, length-append front one, long)) in
      (
        extra + extra',
        ap (λ k. put_text encode width (text_value t) offset (front ++ replicate k 0) >>= all_rest)
              count
            ∙ ap (λ r. r >>= all_rest) put
            ∙ ap (λ k. all_rest (front ++ (one ++ replicate k 0))) moved
            ∙ ap all_rest
                (sym (append_assoc front one (replicate (length more + (rest + extra)) 0)))
            ∙ next
            ∙ ap ok (
                append_assoc front one (more ++ replicate (rest + extra + extra') 0)
                ∙ ap (λ z. front ++ z)
                    (sym (append_assoc one more (replicate (rest + extra + extra') 0))
                      ∙ ap (λ k. (one ++ more) ++ replicate k 0) (omega arith))),
      )
