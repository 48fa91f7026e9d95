-- ===== src/Client/Notifications.antt =====
-- `adsSyncAddDeviceNotificationReqEx` and `adsSyncDelDeviceNotificationReqEx` of
-- src/pyads/pyads_ex.py, with `callback_store`, which keeps the callbacks alive.
pub mod Callbacks
use pyads_agile.Prelude.{
  ℕ, List, [], ◌∷◌, ◌++◌, ◌&&◌, ◌==◌, if◌then◌else◌, Option, none, some, Option, Result, ok, err,
  ads_error, key_error,
}
use pyads_agile.Python.Utf8.{Text}
use pyads_agile.Python.Exec.{Exec, pure, ◌>>=◌, ◌>>◌}
use pyads_agile.Structure.Scalar.{FloatOps}
use pyads_agile.Client.Request.{Library, Client, Callback, add_call, delete_call}
use pyads_agile.Client.Handles.{ads_get_handle, ads_release_handle}

-- a variable by its name, or an index group and offset
pub data Source : Type 0 where
  by_name : Text → Source
  by_index : ℕ → ℕ → Source

-- `callback_store[(adr, notification)] = function`: a present key keeps its place
abbrev pub store_callback : ℕ → ℕ → ℕ → List Callback → List Callback
store_callback a n f [] = record { address = a; notification = n; function = f } ∷ []
store_callback a n f (k ∷ ks) =
    let rest = store_callback a n f ks in
    if k.address == a && k.notification == n then record k { function = f } ∷ ks else k ∷ rest

abbrev put_back : Callback → Option (List Callback) → Option (List Callback)
put_back k none = none
put_back k (some ks) = some (k ∷ ks)

-- `del callback_store[(adr, notification)]`; `none` for a missing key
abbrev pub drop_callback : ℕ → ℕ → List Callback → Option (List Callback)
drop_callback a n [] = none
drop_callback a n (k ∷ ks) =
    let rest = drop_callback a n ks in
    if k.address == a && k.notification == n then some ks else put_back k rest

module _ (ops : FloatOps) (to_single : ℕ → ℕ) {D : Type 0} (library : Library D) where
  -- index group and offset to watch, and the handle where the source asked for one
  unfoldable pub resolve : Source → Exec (Client D) (ℕ × ℕ × Option ℕ)
  resolve (by_name name) = do
    hnl ← ads_get_handle ops to_single library name
    pure (0xF005, hnl, some hnl)
  resolve (by_index group offset) = pure (group, offset, none)

  unfoldable pub register : ℕ → ℕ → (ℕ × ℕ × Option ℕ) → Exec (Client D) (ℕ × Option ℕ)
  register adr callback target c =
      let answer = library.add_notification target.0 target.1 c.device in
      let c' = record c { device = answer.1; calls = c.calls ++ add_call target.0 target.1 ∷ [] } in
      if answer.0.0 == 0
      then (
        ok (answer.0.1, target.2),
        record c' { callback_store = store_callback adr answer.0.1 callback c.callback_store },
      )
      else (err (ads_error answer.0.0), c')

  unfoldable pub ads_sync_add_device_notification_req_ex :
      ℕ → Source → ℕ → Exec (Client D) (ℕ × Option ℕ)
  ads_sync_add_device_notification_req_ex adr source callback =
      resolve source >>= register adr callback

  -- what follows the call of the library: first the callback goes, then an error code raises
  unfoldable pub forget : ℕ → Option (List Callback) → Exec (Client D) Unit
  forget error_code none c = (err key_error, c)
  forget error_code (some ks) c = (
    if error_code == 0 then ok tt else err (ads_error error_code),
    record c { callback_store = ks },
  )

  unfoldable pub unregister : ℕ → ℕ → Exec (Client D) Unit
  unfolding forget
  unregister adr notification_handle c =
      let answer = library.delete_notification notification_handle c.device in
      forget answer.0 (drop_callback adr notification_handle c.callback_store)
        (record c { device = answer.1; calls = c.calls ++ delete_call notification_handle ∷ [] })

  unfoldable pub release_user : Option ℕ → Exec (Client D) Unit
  release_user none = pure tt
  release_user (some user_handle) = ads_release_handle ops to_single library user_handle

  unfoldable pub ads_sync_del_device_notification_req_ex : ℕ → ℕ → Option ℕ → Exec (Client D) Unit
  ads_sync_del_device_notification_req_ex adr notification_handle user_handle = do
    unregister adr notification_handle
    release_user user_handle
