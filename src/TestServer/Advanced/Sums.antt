-- ===== src/TestServer/Advanced/Sums.antt =====
-- Sum commands: many reads or writes in one request. A batch is laid out as the ADS protocol says:
-- 12 bytes for each request, and for a write then the values one after the other.
use pyads_agile.Prelude.{
  ℕ, suc, ◌+◌, ◌*◌, ◌^◌, ◌<◌, ◌≡◌, refl, sym, ◌∙◌, ap, List, [], ◌∷◌, ◌++◌, append-nil,
  append_assoc, Option, none, some, ok, arith, if◌then◌else◌, length, drop, take-append_left,
  drop-append_left, slice_at, length-append, replicate, All, Bool-cases, true, inl, inr,
}
use pyads_agile.Python.Bytes.{Bytes, to_le, unpack-to_le, length-to_le}
use pyads_agile.Python.Exec.{pure, ◌>>=◌}
use pyads_agile.TestServer.Variable.{Variable}
use pyads_agile.TestServer.Store.{Entry, find, SumRequest, rq_list}
use pyads_agile.TestServer.Store.Laws.{same_key}
use pyads_agile.TestServer.Advanced.{Handler, write_at, sum_write, read_write_value}
use pyads_agile.TestServer.Advanced.Values.{get_stored, store-write_at}

abbrev pub encode_request : SumRequest → Bytes
encode_request r = to_le 4 r.group ++ (to_le 4 r.offset ++ to_le 4 r.size)

abbrev pub encode_requests : List SumRequest → Bytes
encode_requests [] = []
encode_requests (r ∷ rs) = encode_request r ++ encode_requests rs

pub record Fits (r : SumRequest) : Type 0 where
  pub group : r.group < 2 ^ 32
  pub offset : r.offset < 2 ^ 32
  pub size : r.size < 2 ^ 32

pub length-encode_request : (r : SumRequest) → length (encode_request r) ≡ 12
length-encode_request r = simp (length-append, length-to_le)

pub length-encode_requests : (rs : List SumRequest) → length (encode_requests rs) ≡ length rs * 12
length-encode_requests [] = refl
length-encode_requests (r ∷ rs) = omega (
  arith,
  length-append (encode_request r) (encode_requests rs),
  length-encode_request r,
  length-encode_requests rs,
)

-- The handler reads the requests of a batch back, whatever stands before and behind them.
pub rq_list-encode_requests :
    (rs : List SumRequest) (i : ℕ) (bs p rest : Bytes)
    → All Fits rs
    → length p ≡ i
    → bs ≡ p ++ (encode_requests rs ++ rest)
    → rq_list (length rs) i bs ≡ ok rs
unfolding rq_list
rq_list-encode_requests [] i bs p rest f l e = refl
rq_list-encode_requests (r ∷ rs) i bs p rest f l e = rw (
  slice_at i (i + 4) bs p group _ e₁ l (omega (arith, length-to_le 4 r.group)),
  slice_at (i + 4) (i + 8) bs (p ++ group) offset _ e₂ l₂ (omega (arith, length-to_le 4 r.offset)),
  slice_at (i + 8) (i + 12) bs ((p ++ group) ++ offset) size _ e₃ l₃
      (omega (arith, length-to_le 4 r.size)),
  unpack-to_le 4 r.group f.0.group,
  unpack-to_le 4 r.offset f.0.offset,
  unpack-to_le 4 r.size f.0.size,
  rq_list-encode_requests rs (i + 12) bs (p ++ encode_request r) rest f.1 l₄ e₄,
)
  where
    group : Bytes
    group = to_le 4 r.group

    offset : Bytes
    offset = to_le 4 r.offset

    size : Bytes
    size = to_le 4 r.size

    e₁ : bs ≡ p ++ (group ++ (offset ++ (size ++ (encode_requests rs ++ rest))))
    e₁ = e ∙ simp append_assoc

    e₂ : bs ≡ (p ++ group) ++ (offset ++ (size ++ (encode_requests rs ++ rest)))
    e₂ = e₁ ∙ sym (append_assoc p group _)

    e₃ : bs ≡ ((p ++ group) ++ offset) ++ (size ++ (encode_requests rs ++ rest))
    e₃ = e₂ ∙ sym (append_assoc (p ++ group) offset _)

    e₄ : bs ≡ (p ++ encode_request r) ++ (encode_requests rs ++ rest)
    e₄ = e ∙ simp append_assoc

    l₂ : length (p ++ group) ≡ i + 4
    l₂ = omega (arith, length-append p group, length-to_le 4 r.group)

    l₃ : length ((p ++ group) ++ offset) ≡ i + 8
    l₃ = omega (arith, length-append (p ++ group) offset, l₂, length-to_le 4 r.offset)

    l₄ : length (p ++ encode_request r) ≡ i + 12
    l₄ = omega (arith, length-append p (encode_request r), length-encode_request r)

-- one write of a batch
pub record Item : Type 0 where
  pub group : ℕ
  pub offset : ℕ
  pub value : Bytes

abbrev pub request_of : Item → SumRequest
request_of i = record { group = i.group; offset = i.offset; size = length i.value }

abbrev pub requests_of : List Item → List SumRequest
requests_of [] = []
requests_of (i ∷ is) = request_of i ∷ requests_of is

abbrev pub values_of : List Item → Bytes
values_of [] = []
values_of (i ∷ is) = i.value ++ values_of is

abbrev pub with_value : Bytes → Option Variable → Option Variable
with_value value none = none
with_value value (some v) = some (record v { value = value })

-- What a key holds after the writes of a batch, one after the other: the last one counts.
abbrev pub written : List Item → ℕ → ℕ → Option Variable → Option Variable
written [] k p before = before
written (i ∷ is) k p before =
    written is k p (if same_key i.group i.offset k p then with_value i.value before else before)

-- Every key of the batch is stored.
abbrev pub AllStored : List Item → List Entry → Type 0
AllStored is es = All (λ i. (v : Variable) × (find i.group i.offset es ≡ some v)) is

AllStored-write_at :
    (is : List Item) (h : Handler) (g o : ℕ) (var : Variable) (value : Bytes)
    → find g o h.store ≡ some var
    → AllStored is h.store
    → AllStored is (write_at g o var value h).1.store
AllStored-write_at [] h g o var value stored all = tt
AllStored-write_at (i ∷ is) h g o var value stored all = (
  elim (Bool-cases (same_key g o i.group i.offset)) [
    | inl same ↦ (
      record var { value = value },
      store-write_at h g o var stored value i.group i.offset ∙ rw same,
    )
    | inr other ↦
        (all.0.0, store-write_at h g o var stored value i.group i.offset ∙ rw other all.0.1)
  ],
  AllStored-write_at is h g o var value stored all.1,
)

same_key→eq : (g o k p : ℕ) → same_key g o k p ≡ true → (g ≡ k) × (o ≡ p)
same_key→eq g o k p h = ground arith

-- what the first write of a batch leaves under a key
first_written :
    (h : Handler) (g o : ℕ) (var : Variable) (value : Bytes) (k p : ℕ)
    → find g o h.store ≡ some var
    → find k p (write_at g o var value h).1.store
      ≡ (if same_key g o k p then with_value value (find k p h.store) else find k p h.store)
first_written h g o var value k p stored = elim (Bool-cases (same_key g o k p)) [
  | inl same ↦
      let (eg, eo) = same_key→eq g o k p same in
      let there : find k p h.store ≡ some var = rw (← eg, ← eo) stored in
      store-write_at h g o var stored value k p ∙ rw (same, there)
  | inr other ↦ store-write_at h g o var stored value k p ∙ rw other
]

-- one round of the loop
sum_write_step :
    (i : Item) (is : List Item) (rest : Bytes) (h : Handler) (var : Variable)
    → find i.group i.offset h.store ≡ some var
    → sum_write (requests_of (i ∷ is)) (values_of (i ∷ is) ++ rest) h
      ≡ sum_write
          (requests_of is)
          (values_of is ++ rest)
          (write_at i.group i.offset var i.value h).1
unfolding sum_write ◌>>=◌ write_at
sum_write_step i is rest h var stored = rw (
  append_assoc i.value (values_of is) rest,
  get_stored h i.group i.offset var stored,
  take-append_left (length i.value) i.value (values_of is ++ rest) refl,
  drop-append_left (length i.value) i.value (values_of is ++ rest) refl,
)

-- The loop of a sum write over a batch whose keys are all stored: it succeeds, and every key then
-- holds the value that the batch wrote to it last, or what it held before.
pub sum_write-written :
    (is : List Item) (rest : Bytes) (h : Handler)
    → AllStored is h.store
    → ((sum_write (requests_of is) (values_of is ++ rest) h).0 ≡ ok tt)
      × ((k p : ℕ)
          → find k p (sum_write (requests_of is) (values_of is ++ rest) h).1.store
            ≡ written is k p (find k p h.store))
sum_write-written [] rest h all = unfold sum_write in unfold pure in (refl, λ k p. refl)
sum_write-written (i ∷ is) rest h all =
    let (var, stored) = all.0 in
    let h' = (write_at i.group i.offset var i.value h).1 in
    let (done, after) =
      sum_write-written is rest h'
        (AllStored-write_at is h i.group i.offset var i.value stored all.1) in
    rw (sum_write_step i is rest h var stored) (
      done,
      λ k p.
          after k p ∙ ap (written is k p) (first_written h i.group i.offset var i.value k p stored),
    )

length-requests_of : (is : List Item) → length (requests_of is) ≡ length is
length-requests_of [] = refl
length-requests_of (i ∷ is) = ap suc (length-requests_of is)

batch_requests :
    (is : List Item) (rest : Bytes)
    → All Fits (requests_of is)
    → rq_list (length is) 0 (encode_requests (requests_of is) ++ (values_of is ++ rest))
      ≡ ok (requests_of is)
batch_requests is rest fits =
    rw (← length-requests_of is)
      (rq_list-encode_requests (requests_of is) 0 _ [] (values_of is ++ rest) fits refl refl)

batch_values :
    (is : List Item) (rest : Bytes)
    → drop (length is * 12) (encode_requests (requests_of is) ++ (values_of is ++ rest))
      ≡ values_of is ++ rest
batch_values is rest =
    drop-append_left (length is * 12) (encode_requests (requests_of is)) (values_of is ++ rest)
      (omega (arith, length-encode_requests (requests_of is), length-requests_of is))

-- A whole sum write, where more bytes may stand behind the values: they change nothing.
pub sum_write_batch_more :
    (is : List Item) (rest : Bytes) (n : ℕ) (h : Handler)
    → All Fits (requests_of is)
    → AllStored is h.store
    → let (r, h') =
        read_write_value 0xF081
          (length is)
          n
          (encode_requests (requests_of is) ++ (values_of is ++ rest))
          h in
      (r ≡ ok (replicate (length is * 4) 0))
      × ((k p : ℕ) → find k p h'.store ≡ written is k p (find k p h.store))
unfolding read_write_value ◌>>=◌
sum_write_batch_more is rest n h fits all =
    let (done, after) = sum_write-written is rest h all in
    rw (batch_requests is rest fits, batch_values is rest, done) (refl, after)

-- A whole sum write: for a batch of values for stored variables, laid out as the protocol says, the
-- handler answers with one zero error code of four bytes for each request, and every key then holds
-- the value that the batch wrote to it last, or what it held before.
pub sum_write_batch :
    (is : List Item) (n : ℕ) (h : Handler)
    → All Fits (requests_of is)
    → AllStored is h.store
    → let (r, h') =
        read_write_value 0xF081
          (length is)
          n
          (encode_requests (requests_of is) ++ values_of is)
          h in
      (r ≡ ok (replicate (length is * 4) 0))
      × ((k p : ℕ) → find k p h'.store ≡ written is k p (find k p h.store))
sum_write_batch is n h fits all = rw append-nil at (sum_write_batch_more is [] n h fits all)
