-- ===== src/Async/StepChain/Notify/Handles.antt =====
-- How a connection adds and deletes notifications: `add_device_notification` and `del_device_notification` of
-- src/pyads/connection.py, and `_add_notification_with_auto_attr` of src/pyads/async_connection.py.
use pyads_agile.Prelude.{
  ℕ, suc, ◌≡◌, refl, ap, ◌∙◌, Bool, true, false, Option, none, some, ok, err, Error, runtime_error,
  Result-cases, inl, inr,
}
use pyads_agile.Python.Exec.{Exec, ◌>>=◌, pure, raise}
use pyads_agile.Python.Utf8.{Text}
use pyads_agile.Async.StepChain.Notify.{Notifier}
use pyads_agile.Async.StepChain.Notify.Cleanup.{Counts, Deletions}

-- `adsGetSymbolInfo` with the size that it finds, `adsSyncAddDeviceNotificationReqEx` and
-- `adsSyncDelDeviceNotificationReqEx` of src/pyads/pyads_ex.py for an address
pub record NotificationCalls (C H : Type 0) : Type 0 where
  pub symbol_size : Text → Exec C ℕ
  pub add_request : Text → ℕ → Exec C H
  pub delete_request : H → Exec C (Unit {0})

-- `_port`, with what the calls change
pub record Ported (C : Type 0) : Type 0 where
  pub port : Option ℕ
  pub client : C

abbrev pub on_client : {C A : Type 0} → Exec C A → Exec (Ported C) A
on_client m s = let (r, c) = m s.client in (r, record s { client = c })

abbrev has_some : Option ℕ → Bool
has_some none = false
has_some (some n) = true

module _ {C H : Type 0} (calls : NotificationCalls C H) where
  abbrev pub some_handle : Exec (Ported C) H → Exec (Ported C) (Option H)
  some_handle m = m >>= λ h. pure (some h)

  abbrev pub add_at : Option ℕ → Text → ℕ → Exec (Ported C) (Option H)
  add_at none symbol size = pure none
  add_at (some port) symbol size = some_handle (on_client (calls.add_request symbol size))

  abbrev pub add_device_notification : Text → ℕ → Exec (Ported C) (Option H)
  add_device_notification symbol size s = add_at s.port symbol size s

  abbrev pub delete_at : Option ℕ → H → Exec (Ported C) (Unit {0})
  delete_at none h = pure tt
  delete_at (some port) h = on_client (calls.delete_request h)

  abbrev pub del_device_notification : H → Exec (Ported C) (Unit {0})
  del_device_notification h s = delete_at s.port h s

  abbrev pub or_failed : Option H → Exec (Ported C) H
  or_failed none = raise runtime_error
  or_failed (some h) = pure h

  abbrev pub auto_attr_at : Option ℕ → Text → Exec (Ported C) H
  auto_attr_at none symbol = raise runtime_error
  auto_attr_at (some port) symbol = on_client (calls.symbol_size symbol) >>= λ size.
      add_device_notification symbol size >>= or_failed

  abbrev pub add_notification_with_auto_attr : Text → Exec (Ported C) H
  add_notification_with_auto_attr symbol s = auto_attr_at s.port symbol s

  abbrev pub connection_notifier : Notifier (Ported C) H
  connection_notifier = record {
    add = add_notification_with_auto_attr;
    delete = del_device_notification;
  }

-- The number of notifications that the calls have registered, and how they change it.
pub record CallCounts {C H : Type 0} (calls : NotificationCalls C H) : Type 0 where
  pub count : C → ℕ
  pub size_keeps : (symbol : Text) (c : C) → count (calls.symbol_size symbol c).1 ≡ count c
  pub added :
      (symbol : Text) (size : ℕ) (c : C) {h : H}
      → (calls.add_request symbol size c).0 ≡ ok h
      → count (calls.add_request symbol size c).1 ≡ suc (count c)
  pub not_added :
      (symbol : Text) (size : ℕ) (c : C) {x : Error}
      → (calls.add_request symbol size c).0 ≡ err x
      → count (calls.add_request symbol size c).1 ≡ count c
  pub deleted :
      (h : H) (c : C)
      → (calls.delete_request h c).0 ≡ ok tt
      → suc (count (calls.delete_request h c).1) ≡ count c

module _ {C H : Type 0} (calls : NotificationCalls C H) (law : CallCounts calls) where
  pub auto_attr-count :
      (p : Option ℕ) (symbol : Text) (c : C)
      → let s : Ported C = record { port = p; client = c } in
        let (r, s') = add_notification_with_auto_attr calls symbol s in
        ((h : H) → r ≡ ok h → law.count s'.client ≡ suc (law.count c))
        × ((x : Error) → r ≡ err x → law.count s'.client ≡ law.count c)
  unfolding ◌>>=◌ pure raise
  auto_attr-count none symbol c = ((λ h e. cc), λ x e. refl)
  auto_attr-count (some p) symbol c =
      let kept = law.size_keeps symbol c in
      elim (Result-cases (calls.symbol_size symbol c).0) [
        | inr (y, e) ↦ rw e ((λ h f. cc), λ x f. kept)
        | inl (size, e) ↦
            let c' = (calls.symbol_size symbol c).1 in
            elim (Result-cases (calls.add_request symbol size c').0) [
              | inl (h, f) ↦
                  rw (e, f) ((λ h' g. law.added symbol size c' f ∙ ap suc kept), λ x g. cc)
              | inr (y, f) ↦ rw (e, f) ((λ h' g. cc), λ x g. law.not_added symbol size c' f ∙ kept)
            ]
      ]

  -- An asynchronous connection counts its notifications, and deletes them while it has a port, where the
  -- calls of src/pyads/pyads_ex.py do.
  abbrev pub connection_counts : Counts (connection_notifier calls)
  connection_counts = record {
    count = λ s. law.count s.client;
    added = λ symbol s {h} e. (auto_attr-count s.port symbol s.client).0 h e;
    not_added = λ symbol s {x} e. (auto_attr-count s.port symbol s.client).1 x e;
  }

  pub delete-count :
      (p : Option ℕ) (h : H) (c : C)
      → has_some p ≡ true
      → let s : Ported C = record { port = p; client = c } in
        let (r, s') = del_device_notification calls h s in
        r ≡ ok tt → (suc (law.count s'.client) ≡ law.count c) × (has_some s'.port ≡ true)
  delete-count none h c e f = cc
  delete-count (some p) h c e f = (law.deleted h c f, refl)

  abbrev pub connection_deletions : Deletions (connection_notifier calls) connection_counts
  connection_deletions = record {
    has_port = λ s. has_some s.port;
    deleted = λ h s e f. (delete-count s.port h s.client e f).0;
    keeps_port = λ h s e f. (delete-count s.port h s.client e f).1;
  }
