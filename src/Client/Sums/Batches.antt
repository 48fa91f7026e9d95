-- ===== src/Client/Sums/Batches.antt =====
-- The buffer of `adsSumWrite` of src/pyads/pyads_ex.py is the batch that the ADS protocol asks for, and
-- the test server stores it.
use pyads_agile.Prelude.{
  ℕ, suc, ◌+◌, ◌*◌, ◌^◌, ◌<◌, ◌≡◌, refl, sym, ap, ◌∙◌, subst, arith, List, [], ◌∷◌, ◌++◌,
  append_assoc, length, length-append, replicate, Result, ok, ◌>>=◌, >>=-eq-ok, ok_inj, or_raise,
  key_error, All,
}
use pyads_agile.Python.Utf8.{Text}
use pyads_agile.Python.Dict.{lookup_key}
use pyads_agile.Python.Bytes.{Bytes, pack-eq-ok, to_le, length-to_le}
use pyads_agile.Structure.Scalar.{FloatOps}
use pyads_agile.TestServer.Store.{find, SumRequest}
use pyads_agile.TestServer.Advanced.{Handler, read_write_value}
use pyads_agile.TestServer.Advanced.Sums.{
  Item, encode_request, encode_requests, length-encode_request, length-encode_requests, requests_of,
  request_of, values_of, Fits, AllStored, written, sum_write_batch_more,
}
use pyads_agile.Client.Sums.{
  SymbolInfo, Written, pack_into, put_values, put_requests, total_size, items_buffer, with_symbols,
  sum_write_buffer,
}
use pyads_agile.Client.Sums.Splices.{replicate-append, pack_into_zeros}
use pyads_agile.Client.Sums.Texts.{Lands}
use pyads_agile.Client.Sums.Encodes.{Encoded, length-Encodes, put_value-Encodes}

length-requests_of : (is : List Item) → length (requests_of is) ≡ length is
length-requests_of [] = refl
length-requests_of (i ∷ is) = ap suc (length-requests_of is)

length-with_symbols :
    (symbols : List (Text × SymbolInfo)) (values : List (Text × Written))
    (items : List (SymbolInfo × Written))
    → with_symbols symbols values ≡ ok items
    → length values ≡ length items
length-with_symbols symbols [] items e = ap length (ok_inj e)
length-with_symbols symbols ((n, w) ∷ values) items e =
    let (info, a, f) =
      >>=-eq-ok (or_raise (lookup_key n symbols) key_error)
        (λ info. with_symbols symbols values >>= λ items. ok ((info, w) ∷ items)) e in
    let (more, b, g) =
      >>=-eq-ok (with_symbols symbols values) (λ items. ok ((info, w) ∷ items)) f in
    ap suc (length-with_symbols symbols values more b) ∙ ap length (ok_inj g)

-- the three numbers of a request, and what comes after them
put_request :
    (g o s : ℕ) (front back : Bytes) (offset : ℕ) (after : Bytes → Result Bytes)
    → length front ≡ offset
    → (pack_into (to_le 4 g) offset (front ++ (replicate 12 0 ++ back)) >>= λ buf.
        pack_into (to_le 4 o) (offset + 4) buf >>= λ buf.
        pack_into (to_le 4 s) (offset + 8) buf >>= after)
      ≡ after (front ++ ((to_le 4 g ++ (to_le 4 o ++ to_le 4 s)) ++ back))
put_request g o s front back offset after l =
    let gs : Bytes = to_le 4 g in
    let os : Bytes = to_le 4 o in
    let ss : Bytes = to_le 4 s in
    let first = pack_into_zeros front gs (replicate 8 0 ++ back) offset 4 l (length-to_le 4 g) in
    let second =
      pack_into_zeros (front ++ gs) os (replicate 4 0 ++ back) (offset + 4) 4
        (omega (arith, length-append front gs, length-to_le 4 g)) (length-to_le 4 o) in
    let third =
      pack_into_zeros ((front ++ gs) ++ os) ss back (offset + 8) 4
        (omega (
          arith,
          length-append (front ++ gs) os,
          length-append front gs,
          length-to_le 4 g,
          length-to_le 4 o,
        ))
        (length-to_le 4 s) in
    let then_third = λ (buf : Bytes). pack_into ss (offset + 8) buf >>= after in
    let then_second = λ (buf : Bytes). pack_into os (offset + 4) buf >>= then_third in
    let joined : ((front ++ gs) ++ os) ++ (ss ++ back) ≡ front ++ ((gs ++ (os ++ ss)) ++ back) =
      simp append_assoc in
    ap (λ r. r >>= then_second) first
    ∙ ap then_second (sym (append_assoc front gs (replicate 8 0 ++ back)))
    ∙ ap (λ r. r >>= then_third) second
    ∙ ap then_third (sym (append_assoc (front ++ gs) os (replicate 4 0 ++ back)))
    ∙ ap (λ r. r >>= after) third
    ∙ ap after joined

module _ {ops : FloatOps} where
  -- the arguments of `adsSumWrite`
  abbrev pub items_of : List (Encoded ops) → List (SymbolInfo × Written)
  items_of [] = []
  items_of (e ∷ es) = (e.info, e.value) ∷ items_of es

  -- the writes that the server is asked for
  abbrev pub batch_of : List (Encoded ops) → List Item
  batch_of [] = []
  batch_of (e ∷ es) =
      record { group = e.info.group; offset = e.info.offset; value = e.bytes } ∷ batch_of es

  put_values-batch :
      (es : List (Encoded ops)) (front : Bytes) (offset rest : ℕ)
      → length front ≡ offset
      → Lands
          (put_values ops
            (items_of es)
            offset
            (front ++ replicate (total_size (items_of es) + rest) 0))
          front
          (values_of (batch_of es))
          rest
  unfolding put_values
  put_values-batch [] front offset rest l = (0, ap (λ k. ok (front ++ replicate k 0)) (omega arith))
  put_values-batch (e ∷ es) front offset rest l =
      let total = total_size (items_of es) in
      let values : Bytes = values_of (batch_of es) in
      let all_rest = put_values ops (items_of es) (offset + e.info.size) in
      let count : e.info.size + total + rest ≡ e.info.size + (total + rest) = omega arith in
      let (extra, put) =
        put_value-Encodes ops e.info e.value e.bytes front offset (total + rest) e.encodes l in
      let moved : total + rest + extra ≡ total + (rest + extra) = omega arith in
      let (extra', next) =
        put_values-batch es (front ++ e.bytes) (offset + e.info.size) (rest + extra) (
          omega (
            arith,
            length-append front e.bytes,
            length-Encodes ops e.info e.value e.bytes e.encodes,
          )) in
      (
        extra + extra',
        ap (λ k. put_values ops (items_of (e ∷ es)) offset (front ++ replicate k 0)) count
            ∙ ap (λ r. r >>= all_rest) put
            ∙ ap (λ k. all_rest (front ++ (e.bytes ++ replicate k 0))) moved
            ∙ ap all_rest (sym (append_assoc front e.bytes (replicate (total + (rest + extra)) 0)))
            ∙ next
            ∙ ap ok (
                append_assoc front e.bytes (values ++ replicate (rest + extra + extra') 0)
                ∙ ap (λ z. front ++ z)
                    (sym (append_assoc e.bytes values (replicate (rest + extra + extra') 0))
                      ∙ ap (λ k. (e.bytes ++ values) ++ replicate k 0) (omega arith))),
      )

  length-items_of : (es : List (Encoded ops)) → length (items_of es) ≡ length (batch_of es)
  length-items_of [] = refl
  length-items_of (e ∷ es) = ap suc (length-items_of es)

  put_requests-cons :
      (e : Encoded ops) (es : List (Encoded ops)) (front back : Bytes) (offset : ℕ)
      → Fits (request_of (record { group = e.info.group; offset = e.info.offset; value = e.bytes }))
      → length front ≡ offset
      → put_requests (items_of (e ∷ es)) offset (front ++ (replicate 12 0 ++ back))
        ≡ put_requests (items_of es) (offset + 12) (
            front
            ++ (encode_request (
                  request_of
                    (record { group = e.info.group; offset = e.info.offset; value = e.bytes }))
                ++ back))
  unfolding put_requests
  put_requests-cons e es front back offset f l =
      let size = length-Encodes ops e.info e.value e.bytes e.encodes in
      let small = subst (λ n. n < 2 ^ 32) size f.size in
      rw
        (
          pack-eq-ok 4 e.info.group f.group,
          pack-eq-ok 4 e.info.offset f.offset,
          pack-eq-ok 4 e.info.size small,
        )
        (put_request e.info.group e.info.offset e.info.size front back offset
            (put_requests (items_of es) (offset + 12)) l
          ∙ ap
              (λ n.
                put_requests (items_of es) (offset + 12) (
                  front
                  ++ ((to_le 4 e.info.group ++ (to_le 4 e.info.offset ++ to_le 4 n)) ++ back)))
              (sym size))

  put_requests-batch :
      (es : List (Encoded ops)) (front back : Bytes) (offset : ℕ)
      → All Fits (requests_of (batch_of es))
      → length front ≡ offset
      → put_requests
          (items_of es)
          offset
          (front ++ (replicate (length (items_of es) * 12) 0 ++ back))
        ≡ ok (front ++ (encode_requests (requests_of (batch_of es)) ++ back))
  unfolding put_requests
  put_requests-batch [] front back offset f l = refl
  put_requests-batch (e ∷ es) front back offset f l =
      let n = length (items_of es) in
      let r : SumRequest =
        request_of (record { group = e.info.group; offset = e.info.offset; value = e.bytes }) in
      let req : Bytes = encode_request r in
      let rest : Bytes = replicate (n * 12) 0 in
      let requests : Bytes = encode_requests (requests_of (batch_of es)) in
      let count : suc n * 12 ≡ 12 + n * 12 = omega arith in
      let zeros : replicate (suc n * 12) 0 ++ back ≡ replicate 12 0 ++ (rest ++ back) =
        ap (λ k. replicate k 0 ++ back) count
        ∙ ap (λ t. t ++ back) (replicate-append 12 (n * 12) 0)
        ∙ append_assoc (replicate 12 0) rest back in
      let long : length req ≡ 12 = length-encode_request r in
      let next : length (front ++ req) ≡ offset + 12 =
        omega (arith, length-append front req, long) in
      ap (λ t. put_requests (items_of (e ∷ es)) offset (front ++ t)) zeros
      ∙ put_requests-cons e es front (rest ++ back) offset f.0 l
      ∙ ap (put_requests (items_of es) (offset + 12)) (sym (append_assoc front req (rest ++ back)))
      ∙ put_requests-batch es (front ++ req) back (offset + 12) f.1 next
      ∙ ap ok (
          append_assoc front req (requests ++ back)
          ∙ ap (λ t. front ++ t) (sym (append_assoc req requests back)))

  items_buffer-batch :
      (es : List (Encoded ops))
      → All Fits (requests_of (batch_of es))
      → (extra : ℕ) × (items_buffer ops (items_of es)
          ≡ ok (
              encode_requests (requests_of (batch_of es))
              ++ (values_of (batch_of es) ++ replicate extra 0)))
  unfolding items_buffer
  items_buffer-batch es f =
      let plain_more : (extra : ℕ) → 0 + extra ≡ extra = λ extra. omega arith in
      let n = length (items_of es) in
      let total = total_size (items_of es) in
      let header : Bytes = encode_requests (requests_of (batch_of es)) in
      let count : n * 3 * 4 + total ≡ n * 12 + (total + 0) = omega arith in
      let zeros : replicate (n * 3 * 4 + total) 0
          ≡ replicate (n * 12) 0 ++ replicate (total + 0) 0 =
        ap (λ k. replicate k 0) count ∙ replicate-append (n * 12) (total + 0) 0 in
      let long : length header ≡ n * 12 =
        length-encode_requests (requests_of (batch_of es))
        ∙ ap (λ k. k * 12) (length-requests_of (batch_of es) ∙ sym (length-items_of es)) in
      let (extra, put) = put_values-batch es header (n * 12) 0 long in
      (
        extra,
        ap (λ t. put_requests (items_of es) 0 t >>= put_values ops (items_of es) (n * 12)) zeros
            ∙ ap (λ r. r >>= put_values ops (items_of es) (n * 12))
                (put_requests-batch es [] (replicate (total + 0) 0) 0 f refl)
            ∙ put
            ∙ ap (λ k. ok (header ++ (values_of (batch_of es) ++ replicate k 0)))
                (plain_more extra),
      )

  -- A sum write of values for names that have symbols, and that the symbols can hold: structures, numbers,
  -- texts, arrays of numbers and of texts. When the test server stores the variables, the buffer can be
  -- built, and the server answers it with a zero error code for each value, and holds under every key
  -- the bytes of the value that was written to it last, or what it held before.
  pub sum_write_buffer-stored :
      (symbols : List (Text × SymbolInfo)) (values : List (Text × Written))
      (es : List (Encoded ops)) (n : ℕ) (h : Handler)
      → with_symbols symbols values ≡ ok (items_of es)
      → All Fits (requests_of (batch_of es))
      → AllStored (batch_of es) h.store
      → (buf : Bytes) × (sum_write_buffer ops symbols values ≡ ok buf)
        × let (r, h') = read_write_value 0xF081 (length values) n buf h in
          (r ≡ ok (replicate (length values * 4) 0))
          × ((k p : ℕ) → find k p h'.store ≡ written (batch_of es) k p (find k p h.store))
  unfolding sum_write_buffer
  sum_write_buffer-stored symbols values es n h found f s =
      let (extra, built) = items_buffer-batch es f in
      let sent = length-with_symbols symbols values (items_of es) found ∙ length-items_of es in
      (
        encode_requests (requests_of (batch_of es))
            ++ (values_of (batch_of es) ++ replicate extra 0),
        ap (λ r. r >>= items_buffer ops) found ∙ built,
        rw sent (sum_write_batch_more (batch_of es) (replicate extra 0) n h f s),
      )
