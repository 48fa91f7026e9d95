-- ===== src/Client/Sums/Splices.antt =====
-- Writes into the part of a buffer that is still zero.
use pyads_agile.Prelude.{
  ℕ, zero, suc, ◌+◌, ◌-◌, ◌≤◌, ◌≡◌, refl, sym, ap, ◌∙◌, arith, ◌∷◌, ◌++◌, append-nil, append_assoc,
  length, length-append, length-replicate, drop, replicate, take-append_left, drop-append_left,
  drop-drop, true, leb, ok,
}
use pyads_agile.Python.Bytes.{Bytes}
use pyads_agile.Client.Sums.{splice, pack_into}

pub replicate-append : (m n : ℕ) (a : ℕ) → replicate (m + n) a ≡ replicate m a ++ replicate n a
replicate-append zero n a = let e : 0 + n ≡ n = omega arith in ap (λ k. replicate k a) e
replicate-append (suc m) n a =
    let e : suc m + n ≡ suc (m + n) = omega arith in
    ap (λ k. replicate k a) e ∙ ap (λ t. a ∷ t) (replicate-append m n a)

pub drop-replicate :
    (n size a : ℕ) (back : Bytes)
    → n ≤ size
    → drop n (replicate size a ++ back) ≡ replicate (size - n) a ++ back
drop-replicate zero size a back h = ap (λ k. replicate k a ++ back) (omega arith)
drop-replicate (suc n) zero a back h = absurd (omega arith)
drop-replicate (suc n) (suc size) a back h =
    drop-replicate n size a back (omega arith) ∙ ap (λ k. replicate k a ++ back) (omega arith)

-- bytes at the start of a zeroed part
pub splice_zeros :
    (front bs back : Bytes) (offset n size : ℕ)
    → length front ≡ offset
    → n ≤ size
    → splice offset n bs (front ++ (replicate size 0 ++ back))
      ≡ front ++ ((bs ++ replicate (size - n) 0) ++ back)
splice_zeros front bs back offset n size l h =
    let rest = replicate size 0 ++ back in
    let e =
      sym (drop-drop offset n (offset + n) (front ++ rest) refl)
      ∙ ap (drop n) (drop-append_left offset front rest l)
      ∙ drop-replicate n size 0 back h in
    ap (λ t. t ++ (bs ++ drop (offset + n) (front ++ rest))) (take-append_left offset front rest l)
    ∙ ap (λ t. front ++ (bs ++ t)) e
    ∙ ap (λ t. front ++ t) (sym (append_assoc bs (replicate (size - n) 0) back))

-- bytes that fill a zeroed part
pub splice_all :
    (front bs back : Bytes) (offset size : ℕ)
    → length front ≡ offset
    → splice offset size bs (front ++ (replicate size 0 ++ back)) ≡ front ++ (bs ++ back)
splice_all front bs back offset size l =
    let none_left : size - size ≡ 0 = omega arith in
    splice_zeros front bs back offset size size l (omega arith)
    ∙ ap (λ k. front ++ ((bs ++ replicate k 0) ++ back)) none_left
    ∙ ap (λ t. front ++ (t ++ back)) (append-nil bs)

pub pack_into_zeros :
    (front bs back : Bytes) (offset size : ℕ)
    → length front ≡ offset
    → length bs ≡ size
    → pack_into bs offset (front ++ (replicate size 0 ++ back)) ≡ ok (front ++ (bs ++ back))
unfolding pack_into
pack_into_zeros front bs back offset size l m =
    let zeros : Bytes = replicate size 0 in
    let long : length zeros ≡ size = length-replicate size 0 in
    let fits : leb (offset + length bs) (length (front ++ (replicate size 0 ++ back))) ≡ true =
      ground (arith, length-append front (zeros ++ back), length-append zeros back, long) in
    rw fits (
      ap (λ n. ok (splice offset n bs (front ++ (replicate size 0 ++ back)))) m
      ∙ ap ok (splice_all front bs back offset size l))
