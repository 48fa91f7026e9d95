-- ===== src/Client/Handles/Balance.antt =====
-- Which calls of the library the functions by name make, and whether each handle is released.
use pyads_agile.Prelude.{
  ℕ, ◌≡◌, refl, ap, ◌∙◌, List, [], ◌∷◌, ◌++◌, append_assoc, Bool, none, Result, ok, err,
  Result-cases, inl, inr, not_ok,
}
use pyads_agile.Python.Bytes.{Bytes, to_le}
use pyads_agile.Python.Int.{pos, negsuc}
use pyads_agile.Python.Utf8.{Text}
use pyads_agile.Python.Exec
use pyads_agile.Structure.Value.{Value, int_value, plc_udint}
use pyads_agile.Structure.Scalar.{FloatOps}
use pyads_agile.Client.Request.{
  DataType, single_type, Library, Client, Call, read_call, write_call, read_write_call,
  buffer_length, data_bytes, c_value, ads_sync_read_req_ex2, ads_sync_write_req_ex,
  ads_sync_read_write_req_ex2, exchange, send,
}
use pyads_agile.Client.Handles.{
  ads_get_handle, ads_release_handle, ads_sync_read_by_name_ex, ads_sync_write_by_name_ex,
  as_handle,
}

-- the calls that get and release a handle, and the read and the write between them
abbrev pub get_call : Bytes → Call
get_call name_bytes = read_write_call 0xF003 0 4 name_bytes

abbrev pub release_call : ℕ → Call
release_call handle = write_call 0xF006 0 (to_le 4 handle)

three_calls :
    (before : List Call) (x y z : Call) {one two three : List Call}
    → one ≡ before ++ x ∷ []
    → two ≡ one ++ y ∷ []
    → three ≡ two ++ z ∷ []
    → three ≡ before ++ (x ∷ y ∷ z ∷ [])
three_calls before x y z p q r =
    r ∙ ap (λ t. t ++ z ∷ []) (q ∙ ap (λ t. t ++ y ∷ []) p) ∙ simp append_assoc

module _ (ops : FloatOps) (to_single : ℕ → ℕ) {D : Type 0} (library : Library D) where
  read_calls :
      (g o : ℕ) (t : DataType) (b : Bool) (c : Client D)
      → (ads_sync_read_req_ex2 ops to_single library g o t b c).1.calls
        ≡ c.calls ++ read_call g o (buffer_length t) ∷ []
  unfolding ads_sync_read_req_ex2
  read_calls g o t b c = refl

  write_calls :
      (g o : ℕ) (v : Value) (t : DataType) (c : Client D) {bs : Bytes}
      → data_bytes ops to_single t v ≡ ok bs
      → (ads_sync_write_req_ex ops to_single library g o v t c).1.calls
        ≡ c.calls ++ write_call g o bs ∷ []
  unfolding ads_sync_write_req_ex send
  write_calls g o v t c e = rw e

  release_calls :
      (handle : ℕ) (c : Client D)
      → (ads_release_handle ops to_single library handle c).1.calls
        ≡ c.calls ++ release_call handle ∷ []
  unfolding ads_release_handle
  release_calls handle c =
      write_calls 0xF006 0 _ (single_type plc_udint) c (unfold data_bytes in unfold c_value in refl)

  pub as_handle_state : (v : Value) (c : Client D) → (as_handle ops to_single library v c).1 ≡ c
  unfolding as_handle Exec.pure Exec.raise
  as_handle_state (int_value (pos n)) c = refl
  as_handle_state (int_value (negsuc n)) c = refl
  as_handle_state v c = refl

  exchange_calls :
      (g o : ℕ) (t : DataType) (r : Result Bytes) (c : Client D) {v : Value}
      → (exchange ops to_single library g o t r c).0 ≡ ok v
      → (bs : Bytes) × ((exchange ops to_single library g o t r c).1.calls
          ≡ c.calls ++ read_write_call g o (buffer_length t) bs ∷ [])
  unfolding exchange
  exchange_calls g o t (ok bs) c e = (bs, refl)
  exchange_calls g o t (err x) c e = absurd (not_ok e)

  get_calls :
      (name : Text) (c : Client D) {handle : ℕ}
      → (ads_get_handle ops to_single library name c).0 ≡ ok handle
      → (bs : Bytes) × ((ads_get_handle ops to_single library name c).1.calls
          ≡ c.calls ++ get_call bs ∷ [])
  unfolding ads_get_handle ads_sync_read_write_req_ex2
  get_calls name c e =
      let m =
        ads_sync_read_write_req_ex2 ops to_single library 0xF003 0 (single_type plc_udint) name in
      let (v, got, _) = Exec.>>=-eq-ok m (as_handle ops to_single library) c e in
      let (bs, calls) = exchange_calls 0xF003 0 (single_type plc_udint) _ c got in
      let state =
        ap (λ p. p.1) (Exec.>>=-ok m (as_handle ops to_single library) c got)
        ∙ as_handle_state v (m c).1 in
      (bs, ap (λ k. k.calls) state ∙ calls)

  write_encoded :
      (g o : ℕ) (v : Value) (t : DataType) (c : Client D) {u : Unit}
      → (ads_sync_write_req_ex ops to_single library g o v t c).0 ≡ ok u
      → (bs : Bytes) × (data_bytes ops to_single t v ≡ ok bs)
  unfolding ads_sync_write_req_ex send
  write_encoded g o v t c e = elim (Result-cases (data_bytes ops to_single t v)) [
    | inl (bs, encoded) ↦ (bs, encoded)
    | inr (x, failed) ↦ absurd (not_ok (rw failed at e))
  ]

  -- A read by name that returns has asked for a handle, read the value by the handle that it got, and
  -- released this handle, and made no other call.
  pub read_by_name_releases :
      (name : Text) (t : DataType) (check_length : Bool) (c : Client D) {v : Value}
      → (ads_sync_read_by_name_ex ops to_single library name t none check_length c).0 ≡ ok v
      → (handle : ℕ) × (bs : Bytes) × ((ads_get_handle ops to_single library name c).0 ≡ ok handle)
        × ((ads_sync_read_by_name_ex ops to_single library name t none check_length c).1.calls
            ≡ c.calls
              ++ (get_call bs
                  ∷ read_call 0xF005 handle (buffer_length t)
                  ∷ release_call handle
                  ∷ []))
  unfolding ads_sync_read_by_name_ex Exec.pure
  read_by_name_releases name t check_length c e =
      let get = ads_get_handle ops to_single library name in
      let c₁ = (get c).1 in
      let (handle, got, e₁) = Exec.>>=-eq-ok get _ c e in
      let read = ads_sync_read_req_ex2 ops to_single library 0xF005 handle t check_length in
      let c₂ = (read c₁).1 in
      let (w, found, e₂) = Exec.>>=-eq-ok read _ c₁ e₁ in
      let release = ads_release_handle ops to_single library handle in
      let (_, released, _) = Exec.>>=-eq-ok release _ c₂ e₂ in
      let whole =
        Exec.>>=-ok get _ c got ∙ Exec.>>=-ok read _ c₁ found ∙ Exec.>>=-ok release _ c₂ released in
      let (bs, first) = get_calls name c got in
      (
        handle,
        bs,
        got,
        ap (λ p. p.1.calls) whole
            ∙ three_calls c.calls _ _ _ first (read_calls 0xF005 handle t check_length c₁)
                (release_calls handle c₂),
      )

  -- A write by name that returns has asked for a handle, sent the bytes of the value by the handle that
  -- it got, and released this handle, and made no other call.
  pub write_by_name_releases :
      (name : Text) (v : Value) (t : DataType) (c : Client D) {u : Unit}
      → (ads_sync_write_by_name_ex ops to_single library name v t none c).0 ≡ ok u
      → (handle : ℕ) × (bs sent : Bytes) × ((ads_get_handle ops to_single library name c).0
          ≡ ok handle)
        × (data_bytes ops to_single t v ≡ ok sent)
        × ((ads_sync_write_by_name_ex ops to_single library name v t none c).1.calls
            ≡ c.calls ++ (get_call bs ∷ write_call 0xF005 handle sent ∷ release_call handle ∷ []))
  unfolding ads_sync_write_by_name_ex
  write_by_name_releases name v t c e =
      let get = ads_get_handle ops to_single library name in
      let c₁ = (get c).1 in
      let (handle, got, e₁) = Exec.>>=-eq-ok get _ c e in
      let write = ads_sync_write_req_ex ops to_single library 0xF005 handle v t in
      let c₂ = (write c₁).1 in
      let (_, done, e₂) = Exec.>>=-eq-ok write _ c₁ e₁ in
      let (sent, encoded) = write_encoded 0xF005 handle v t c₁ done in
      let whole = Exec.>>=-ok get _ c got ∙ Exec.>>=-ok write _ c₁ done in
      let (bs, first) = get_calls name c got in
      (
        handle,
        bs,
        sent,
        got,
        encoded,
        ap (λ p. p.1.calls) whole
            ∙ three_calls c.calls _ _ _ first (write_calls 0xF005 handle v t c₁ encoded)
                (release_calls handle c₂),
      )
