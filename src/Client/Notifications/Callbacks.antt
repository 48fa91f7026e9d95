-- ===== src/Client/Notifications/Callbacks.antt =====
-- Which callbacks are stored after notifications were added and deleted.
use pyads_agile.Prelude.{
  ℕ, ◌≡◌, refl, ap, ◌∙◌, List, [], ◌∷◌, ◌++◌, Bool, false, ◌&&◌, ◌||◌, ◌==◌, Option, none, some,
  Result, ok, err, key_error, Result-cases, Bool-cases, inl, inr, not_ok, ok_inj, arith,
}
use pyads_agile.Python.Bytes.{Bytes}
use pyads_agile.Python.Utf8.{Text}
use pyads_agile.Python.Exec
use pyads_agile.Structure.Value.{plc_udint}
use pyads_agile.Structure.Scalar.{FloatOps}
use pyads_agile.Client.Request.{
  DataType, single_type, Library, Client, Callback, delete_call, ads_sync_write_req_ex,
  ads_sync_read_write_req_ex2, exchange, send,
}
use pyads_agile.Client.Handles.{ads_get_handle, ads_release_handle, as_handle}
use pyads_agile.Client.Handles.Balance.{as_handle_state}
use pyads_agile.Client.Notifications.{
  Source, by_name, by_index, store_callback, drop_callback, resolve, register, unregister, forget,
  release_user, ads_sync_add_device_notification_req_ex, ads_sync_del_device_notification_req_ex,
}

abbrev pub is_stored : ℕ → ℕ → List Callback → Bool
is_stored a n [] = false
is_stored a n (k ∷ ks) = (k.address == a && k.notification == n) || is_stored a n ks

drop-store :
    (a n f : ℕ) (ks : List Callback)
    → is_stored a n ks ≡ false
    → drop_callback a n (store_callback a n f ks) ≡ some ks
drop-store a n f [] h = ground arith
drop-store a n f (k ∷ ks) h = elim (Bool-cases (k.address == a && k.notification == n)) [
  | inl same ↦ absurd (ground arith)
  | inr other ↦
      let rest : is_stored a n ks ≡ false = ground arith in
      rw (other, other, drop-store a n f ks rest)
]

drop_missing :
    (a n : ℕ) (ks : List Callback) → is_stored a n ks ≡ false → drop_callback a n ks ≡ none
drop_missing a n [] h = refl
drop_missing a n (k ∷ ks) h =
    let other : (k.address == a && k.notification == n) ≡ false = ground arith in
    let rest : is_stored a n ks ≡ false = ground arith in rw (other, drop_missing a n ks rest)

module _ (ops : FloatOps) (to_single : ℕ → ℕ) {D : Type 0} (library : Library D) where
  exchange_callbacks :
      (g o : ℕ) (t : DataType) (r : Result Bytes) (c : Client D)
      → (exchange ops to_single library g o t r c).1.callback_store ≡ c.callback_store
  unfolding exchange
  exchange_callbacks g o t (ok bs) c = refl
  exchange_callbacks g o t (err x) c = refl

  send_callbacks :
      (g o : ℕ) (r : Result Bytes) (c : Client D)
      → (send ops to_single library g o r c).1.callback_store ≡ c.callback_store
  unfolding send
  send_callbacks g o (ok bs) c = refl
  send_callbacks g o (err x) c = refl

  get_callbacks :
      (name : Text) (c : Client D) {handle : ℕ}
      → (ads_get_handle ops to_single library name c).0 ≡ ok handle
      → (ads_get_handle ops to_single library name c).1.callback_store ≡ c.callback_store
  unfolding ads_get_handle ads_sync_read_write_req_ex2
  get_callbacks name c e =
      let m =
        ads_sync_read_write_req_ex2 ops to_single library 0xF003 0 (single_type plc_udint) name in
      let (v, got, _) = Exec.>>=-eq-ok m (as_handle ops to_single library) c e in
      let state =
        ap (λ p. p.1) (Exec.>>=-ok m (as_handle ops to_single library) c got)
        ∙ as_handle_state ops to_single library v (m c).1 in
      ap (λ k. k.callback_store) state ∙ exchange_callbacks 0xF003 0 (single_type plc_udint) _ c

  resolve_callbacks :
      (source : Source) (c : Client D) {target : ℕ × ℕ × Option ℕ}
      → (resolve ops to_single library source c).0 ≡ ok target
      → (resolve ops to_single library source c).1.callback_store ≡ c.callback_store
  unfolding resolve Exec.pure
  resolve_callbacks (by_name name) c e =
      let m = ads_get_handle ops to_single library name in
      let (handle, got, _) = Exec.>>=-eq-ok m _ c e in
      ap (λ p. p.1.callback_store) (Exec.>>=-ok m _ c got) ∙ get_callbacks name c got
  resolve_callbacks (by_index g o) c e = refl

  release_callbacks :
      (user : Option ℕ) (c : Client D)
      → (release_user ops to_single library user c).1.callback_store ≡ c.callback_store
  unfolding release_user Exec.pure ads_release_handle ads_sync_write_req_ex
  release_callbacks none c = refl
  release_callbacks (some h) c = send_callbacks 0xF006 0 _ c

  register_callbacks :
      (adr callback : ℕ) (target : ℕ × ℕ × Option ℕ) (c : Client D) {n : ℕ} {user : Option ℕ}
      → (register ops to_single library adr callback target c).0 ≡ ok (n, user)
      → (register ops to_single library adr callback target c).1.callback_store
        ≡ store_callback adr n callback c.callback_store
  unfolding register
  register_callbacks adr callback target c e =
      let answer = library.add_notification target.0 target.1 c.device in
      elim (Bool-cases (answer.0.0 == 0)) [
        | inl good ↦
            let same = ap (λ p. p.0) (ok_inj (rw good at e)) in
            rw good (ap (λ m. store_callback adr m callback c.callback_store) same)
        | inr bad ↦ absurd (not_ok (rw bad at e))
      ]

  unregister_callbacks :
      (adr n : ℕ) (c : Client D) (ks : List Callback)
      → drop_callback adr n c.callback_store ≡ some ks
      → (unregister ops to_single library adr n c).1.callback_store ≡ ks
  unfolding unregister forget
  unregister_callbacks adr n c ks e = rw e

  -- Deleting ends with the callbacks that taking back the notification leaves.
  delete_callbacks :
      (adr n : ℕ) (user : Option ℕ) (c : Client D)
      → (ads_sync_del_device_notification_req_ex ops to_single library adr n user
          c).1.callback_store
        ≡ (unregister ops to_single library adr n c).1.callback_store
  unfolding ads_sync_del_device_notification_req_ex
  delete_callbacks adr n user c =
      let m = unregister ops to_single library adr n in
      elim (Result-cases (m c).0) [
        | inl (u, good) ↦
            ap (λ p. p.1.callback_store) (Exec.>>=-ok m _ c good) ∙ release_callbacks user (m c).1
        | inr (x, bad) ↦ ap (λ p. p.1.callback_store) (Exec.>>=-err m _ c bad)
      ]

  -- A notification that was added, and whose handle had no callback under the same address, is
  -- deleted without a trace among the callbacks, whatever the library answers to the deletion.
  pub delete_notification_undoes :
      (adr callback : ℕ) (source : Source) (c : Client D) {n : ℕ} {user : Option ℕ}
      → (ads_sync_add_device_notification_req_ex ops to_single library adr source callback c).0
        ≡ ok (n, user)
      → is_stored adr n c.callback_store ≡ false
      → (ads_sync_del_device_notification_req_ex ops to_single library adr n user
          (ads_sync_add_device_notification_req_ex ops to_single library adr source callback
            c).1).1.callback_store
        ≡ c.callback_store
  unfolding ads_sync_add_device_notification_req_ex
  delete_notification_undoes adr callback source c {n} {user} e fresh =
      let m = resolve ops to_single library source in
      let (target, found, e') =
        Exec.>>=-eq-ok m (register ops to_single library adr callback) c e in
      let stored =
        ap (λ p. p.1.callback_store)
          (Exec.>>=-ok m (register ops to_single library adr callback) c found)
        ∙ register_callbacks adr callback target (m c).1 e'
        ∙ ap (store_callback adr n callback) (resolve_callbacks source c found) in
      let dropped =
        ap (drop_callback adr n) stored ∙ drop-store adr n callback c.callback_store fresh in
      delete_callbacks adr n user _ ∙ unregister_callbacks adr n _ c.callback_store dropped

  -- Deleting a notification that has no callback under the address asks the library to delete it all
  -- the same, and then raises KeyError, whatever the library answers: no error of the library is
  -- reported, and the handle of the variable is not released.
  pub delete_unknown_raises :
      (adr n : ℕ) (user : Option ℕ) (c : Client D)
      → is_stored adr n c.callback_store ≡ false
      → ((ads_sync_del_device_notification_req_ex ops to_single library adr n user c).0
          ≡ err key_error)
        × ((ads_sync_del_device_notification_req_ex ops to_single library adr n user c).1.calls
            ≡ c.calls ++ delete_call n ∷ [])
  unfolding ads_sync_del_device_notification_req_ex unregister forget Exec.◌>>=◌
  delete_unknown_raises adr n user c h = rw (drop_missing adr n c.callback_store h) (refl, refl)
