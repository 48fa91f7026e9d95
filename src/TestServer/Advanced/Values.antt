-- ===== src/TestServer/Advanced/Values.antt =====
-- What a client reads back: requests as the ADS protocol lays them out, and the values that the
-- handler stores and returns for them.
use pyads_agile.Prelude.{
  ℕ, ◌+◌, ◌-◌, ◌^◌, ◌<◌, ◌≡◌, ◌≢◌, refl, sym, ◌∙◌, ap, [], ◌++◌, append-nil, append_assoc, some, ok,
  arith, if◌then◌else◌, length, take, drop, slice, take-append_left, drop-append_left, slice_at,
  length-append, take_all, ne→==, eq→==, length-take-le,
}
use pyads_agile.Python.Bytes.{Bytes, unpack, to_le, unpack-to_le, length-to_le, pack-eq-ok}
use pyads_agile.Python.Exec.{◌>>=◌}
use pyads_agile.TestServer.Variable.{Variable, write}
use pyads_agile.TestServer.Store.{find}
use pyads_agile.TestServer.Store.Laws.{same_key, find-insert}
use pyads_agile.TestServer.Advanced.{
  Handler, get_variable_by_indices, write_at, read_value, handle_read, write_value, handle_write,
}

-- The payloads of an ADS read, write and read-write request.
abbrev pub read_payload : ℕ → ℕ → ℕ → Bytes
read_payload g o n = to_le 4 g ++ (to_le 4 o ++ to_le 4 n)

abbrev pub write_payload : ℕ → ℕ → Bytes → Bytes
write_payload g o value = to_le 4 g ++ (to_le 4 o ++ (to_le 4 (length value) ++ value))

abbrev pub read_write_payload : ℕ → ℕ → ℕ → Bytes → Bytes
read_write_payload g o n value =
    to_le 4 g ++ (to_le 4 o ++ (to_le 4 n ++ (to_le 4 (length value) ++ value)))

-- Index groups that stand for storage, and not for a service of the symbol table.
pub record IsPlain (g : ℕ) : Type 0 where
  pub not_value_by_handle : g ≢ 0xF005
  pub not_release_handle : g ≢ 0xF006
  pub not_upload : g ≢ 0xF00B
  pub not_upload_info : g ≢ 0xF00F
  pub not_handle_by_name : g ≢ 0xF003
  pub not_info_by_name : g ≢ 0xF009
  pub not_sum_read : g ≢ 0xF080
  pub not_sum_write : g ≢ 0xF081

-- the three numbers at the front of a payload
module _ (g o n : ℕ) (rest : Bytes) (fg : g < 2 ^ 32) (fo : o < 2 ^ 32) (fn : n < 2 ^ 32) where
  abbrev front : Bytes
  front = to_le 4 g ++ (to_le 4 o ++ (to_le 4 n ++ rest))

  unpack_group : unpack 4 (take 4 front) ≡ ok g
  unpack_group = ap (unpack 4) (take-append_left 4 _ _ (length-to_le 4 g)) ∙ unpack-to_le 4 g fg

  unpack_offset : unpack 4 (slice 4 8 front) ≡ ok o
  unpack_offset =
      ap (unpack 4) (
        slice_at 4 8 front (to_le 4 g) (to_le 4 o) _ refl (length-to_le 4 g)
          (omega (arith, length-to_le 4 o)))
      ∙ unpack-to_le 4 o fo

  split_third : front ≡ (to_le 4 g ++ to_le 4 o) ++ (to_le 4 n ++ rest)
  split_third = sym (append_assoc (to_le 4 g) (to_le 4 o) _)

  length_two : length (to_le 4 g ++ to_le 4 o) ≡ 8
  length_two =
      omega (arith, length-append (to_le 4 g) (to_le 4 o), length-to_le 4 g, length-to_le 4 o)

  unpack_third : unpack 4 (slice 8 12 front) ≡ ok n
  unpack_third =
      ap (unpack 4) (
        slice_at 8 12 front _ (to_le 4 n) rest split_third length_two
          (omega (arith, length-to_le 4 n)))
      ∙ unpack-to_le 4 n fn

  behind_front : drop 12 front ≡ rest
  behind_front =
      ap (drop 12) (split_third ∙ sym (append_assoc (to_le 4 g ++ to_le 4 o) (to_le 4 n) rest))
      ∙ drop-append_left 12 _ rest (
          omega (
            arith,
            length-append (to_le 4 g ++ to_le 4 o) (to_le 4 n),
            length_two,
            length-to_le 4 n,
          ))

module _ (h : Handler) (g o : ℕ) (var : Variable) (stored : find g o h.store ≡ some var) where
  pub get_stored : get_variable_by_indices g o h ≡ (ok var, h)
  unfolding get_variable_by_indices
  get_stored = rw stored

  read_value_stored : (n : ℕ) → IsPlain g → read_value g o n h ≡ (ok (take n var.value), h)
  unfolding read_value ◌>>=◌
  read_value_stored n p = rw (
    ne→== g _ p.not_value_by_handle,
    ne→== g _ p.not_upload_info,
    ne→== g _ p.not_upload,
    get_stored,
  )

  write_value_stored :
      (value : Bytes) → IsPlain g → write_value g o value h ≡ (ok [], (write_at g o var value h).1)
  unfolding write_value ◌>>=◌ write_at
  write_value_stored value p =
      rw (ne→== g _ p.not_release_handle, ne→== g _ p.not_value_by_handle, get_stored)

  module _ (fg : g < 2 ^ 32) (fo : o < 2 ^ 32) (p : IsPlain g) where
    handle_read_stored :
        (n : ℕ)
        → n < 2 ^ 32
        → handle_read (read_payload g o n) h
          ≡ (ok (to_le 4 (length (take n var.value)) ++ take n var.value), h)
    unfolding handle_read ◌>>=◌
    handle_read_stored n fn = rw (
      ← append-nil (to_le 4 n),
      unpack_group g o n [] fg fo fn,
      unpack_offset g o n [] fg fo fn,
      unpack_third g o n [] fg fo fn,
      read_value_stored n p,
      pack-eq-ok 4 (length (take n var.value)) (omega (arith, length-take-le n var.value)),
    )

    handle_write_stored :
        (value : Bytes)
        → length value < 2 ^ 32
        → handle_write (write_payload g o value) h ≡ (ok [], (write_at g o var value h).1)
    unfolding handle_write ◌>>=◌
    handle_write_stored value fv = rw (
      unpack_group g o (length value) value fg fo fv,
      unpack_offset g o (length value) value fg fo fv,
      unpack_third g o (length value) value fg fo fv,
      behind_front g o (length value) value fg fo fv,
      take_all (12 + length value - 12) value (omega arith),
      write_value_stored value p,
    )

  pub store-write_at :
      (value : Bytes) (k p : ℕ)
      → find k p (write_at g o var value h).1.store
        ≡ (if same_key g o k p then some (record var { value = value }) else find k p h.store)
  unfolding write_at write
  store-write_at value k p = find-insert g o k p (record var { value = value }) h.store

-- A write of a stored variable succeeds, a read of any length then returns the front of what was
-- written with its length before it, the key holds the variable with the new value and nothing else
-- of it changed, and every other key holds what it held.
pub read_after_write :
    (h : Handler) (g o n : ℕ) (var : Variable) (value : Bytes)
    → find g o h.store ≡ some var
    → IsPlain g
    → g < 2 ^ 32
    → o < 2 ^ 32
    → n < 2 ^ 32
    → length value < 2 ^ 32
    → let (r, h') = handle_write (write_payload g o value) h in
      (r ≡ ok [])
      × ((handle_read (read_payload g o n) h').0
          ≡ ok (to_le 4 (length (take n value)) ++ take n value))
      × ((k p : ℕ)
          → find k p h'.store
            ≡ (if same_key g o k p then some (record var { value = value }) else find k p h.store))
read_after_write h g o n var value stored p fg fo fn fv =
    let w = handle_write_stored h g o var stored fg fo p value fv in
    let h' = (write_at g o var value h).1 in
    let here : (if same_key g o g o then some (record var { value = value }) else find g o h.store)
        ≡ some (record var { value = value }) =
      rw (eq→== g g refl, eq→== o o refl) in
    let now_stored = store-write_at h g o var stored value g o ∙ here in
    rw w (
      refl,
      ap (λ t. t.0)
          (handle_read_stored h' g o (record var { value = value }) now_stored fg fo p n fn),
      store-write_at h g o var stored value,
    )
