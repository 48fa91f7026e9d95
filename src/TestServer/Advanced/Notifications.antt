-- ===== src/TestServer/Advanced/Notifications.antt =====
-- The callbacks that a write makes, and the handles by which notifications are found again.
use pyads_agile.Prelude.{
  ℕ, ◌^◌, ◌<◌, ◌≡◌, refl, List, [], ◌∷◌, ◌++◌, Option, some, arith, ◌==◌, true, false, ◌&&◌,
  if◌then◌else◌, list_eq, take_all, eq→==, All, All-append, ◌+◌, ◌*◌, sym, ap, ◌∙◌, Bool-cases, inl,
  inr,
}
use pyads_agile.Python.Bytes.{Bytes, to_le, unpack-to_le, length-to_le}
use pyads_agile.Python.Exec.{◌>>=◌}
use pyads_agile.TestServer.Variable.{
  Variable, CallbackKey, Event, contains, remove, notify, notify_all, write, register_notification,
  new_variable, unregister_notification,
}
use pyads_agile.TestServer.Store.{Entry, find, find_by_notification}
use pyads_agile.TestServer.Store.Laws.{same_key, find-insert}
use pyads_agile.TestServer.Advanced.{
  Handler, handle_delete_devicenote, get_variable_by_notification_handle, unregister_at,
}

-- how often a handle stands in a list
abbrev pub handles_of : ℕ → List ℕ → ℕ
handles_of n [] = 0
handles_of n (h ∷ hs) = (if h == n then 1 else 0) + handles_of n hs

-- how many callbacks are stored under an address and a notification handle
abbrev pub callbacks_of : ℕ → ℕ → List CallbackKey → ℕ
callbacks_of a n [] = 0
callbacks_of a n (k ∷ ks) =
    (if k.address == a && k.notification == n then 1 else 0) + callbacks_of a n ks

-- how often a callback was called for an address and a notification handle, with whatever value
abbrev pub calls_of : ℕ → ℕ → List Event → ℕ
calls_of a n [] = 0
calls_of a n (e ∷ es) = (if e.address == a && e.notification == n then 1 else 0) + calls_of a n es

calls_of-append :
    (a n : ℕ) (xs ys : List Event) → calls_of a n (xs ++ ys) ≡ calls_of a n xs + calls_of a n ys
calls_of-append a n [] ys = omega arith
calls_of-append a n (x ∷ xs) ys = omega (arith, calls_of-append a n xs ys)

calls_of-notify :
    (a n t h : ℕ) (v : Bytes) (ks : List CallbackKey)
    → calls_of a n (notify t h v ks) ≡ (if h == n then callbacks_of a n ks else 0)
unfolding notify
calls_of-notify a n t h v [] = ground arith
calls_of-notify a n t h v (k ∷ ks) = ground (arith, calls_of-notify a n t h v ks)

one_more : (x c : ℕ) → (1 + x) * c ≡ c + x * c
one_more x c = omega arith

zero_more : (x c : ℕ) → 0 + x * c ≡ (0 + x) * c
zero_more x c = omega arith

calls_of-notify_all :
    (a n t : ℕ) (v : Bytes) (hs : List ℕ) (ks : List CallbackKey)
    → calls_of a n (notify_all t hs v ks) ≡ handles_of n hs * callbacks_of a n ks
unfolding notify_all
calls_of-notify_all a n t v [] ks = omega arith
calls_of-notify_all a n t v (h ∷ hs) ks =
    let one = calls_of-notify a n t h v ks in
    let more = calls_of-notify_all a n t v hs ks in
    let both = calls_of-append a n (notify t h v ks) (notify_all t hs v ks) in
    elim (Bool-cases (h == n)) [
      | inl same ↦
          both
          ∙ rw (same, more)
              (ap (λ c. c + handles_of n hs * callbacks_of a n ks) (one ∙ rw same refl)
                ∙ sym (one_more (handles_of n hs) (callbacks_of a n ks)))
      | inr other ↦
          let called : calls_of a n (notify t h v ks) ≡ 0 = one ∙ rw other refl in
          both ∙ rw (other, more, called) (zero_more (handles_of n hs) (callbacks_of a n ks))
    ]

notify-samples :
    (t h : ℕ) (v : Bytes) (ks : List CallbackKey) → All (λ e. e.sample ≡ v) (notify t h v ks)
unfolding notify
notify-samples t h v [] = tt
notify-samples t h v (k ∷ ks) = elim (Bool-cases (k.notification == h)) [
  | inl same ↦ rw same (refl, notify-samples t h v ks)
  | inr other ↦ rw other (notify-samples t h v ks)
]

notify_all-samples :
    (t : ℕ) (hs : List ℕ) (v : Bytes) (ks : List CallbackKey)
    → All (λ e. e.sample ≡ v) (notify_all t hs v ks)
unfolding notify_all
notify_all-samples t [] v ks = tt
notify_all-samples t (h ∷ hs) v ks =
    All-append (λ e. e.sample ≡ v) (notify t h v ks) (notify_all t hs v ks)
      (notify-samples t h v ks) (notify_all-samples t hs v ks)

-- A write of the value that is there already calls nothing, whatever the value of the call. A write of
-- another value calls, with the new value only, each callback of an address and a notification handle
-- once for every time that the handle is registered with the variable.
pub calls_of-write :
    (t a n : ℕ) (keys : List CallbackKey) (value : Bytes) (var : Variable)
    → All (λ e. e.sample ≡ value) (write t keys value var).1
      × (calls_of a n (write t keys value var).1 ≡ (
          if list_eq var.value value
          then 0
          else handles_of n var.notifications * callbacks_of a n keys))
unfolding write
calls_of-write t a n keys value var = elim (Bool-cases (list_eq var.value value)) [
  | inl same ↦ rw same (tt, refl)
  | inr other ↦ rw other (
    notify_all-samples t var.notifications value keys,
    calls_of-notify_all a n t value var.notifications keys,
  )
]

-- Handles are counted for each variable by itself: any two variables that were never registered
-- with, whoever they are, give out the same first handle.
pub first_handles_collide :
    (c c' : ℕ) (name name' : List ℕ) (value value' : Bytes) (ty ty' : ℕ) (st st' : List ℕ)
    (g g' o o' : Option ℕ)
    → (register_notification (new_variable c name value ty st g o).0).1
      ≡ (register_notification (new_variable c' name' value' ty' st' g' o').0).1
unfolding register_notification new_variable
first_handles_collide c c' name name' value value' ty ty' st st' g g' o o' = refl

-- So when a later variable holds the same handle as the first one, deleting that notification takes
-- it from the first variable, and the later one goes on being notified.
pub delete_takes_first :
    (h : Handler) (first : Entry) (es : List Entry) (k p n : ℕ) (later : Variable)
    → h.store ≡ first ∷ es
    → n < 2 ^ 32
    → contains n first.var.notifications ≡ true
    → same_key first.group first.offset k p ≡ false
    → find k p es ≡ some later
    → let h' = (handle_delete_devicenote (to_le 4 n) h).1 in
      (find first.group first.offset h'.store
        ≡ some (record first.var { notifications = remove n first.var.notifications }))
      × (find k p h'.store ≡ some later)
unfolding handle_delete_devicenote ◌>>=◌ get_variable_by_notification_handle unregister_at
    unregister_notification
delete_takes_first h first es k p n later e fn has other f =
    rw
      (
        take_all 4 (to_le 4 n) (omega (arith, length-to_le 4 n)),
        unpack-to_le 4 n fn,
        found,
        has,
        find-insert first.group first.offset first.group first.offset _ h.store,
        find-insert first.group first.offset k p _ h.store,
        eq→== first.group first.group refl,
        eq→== first.offset first.offset refl,
        other,
        e,
      )
      (refl, elsewhere)
  where
    found : find_by_notification n h.store ≡ some first
    found = rw e (unfold find_by_notification in rw has)

    elsewhere : find k p (first ∷ es) ≡ some later
    elsewhere = unfold find in rw other f
