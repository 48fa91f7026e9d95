-- ===== src/TestServer/Advanced/Keeps.antt =====
-- What an action of `AdvancedHandler` leaves as it was, with a rule for each way to build an action.
use pyads_agile.Prelude.{
  ℕ, ◌≡◌, refl, sym, ◌∙◌, ap, List, [], ◌++◌, append-nil, append_assoc, Option, none, some, Result,
  ok, err, or_raise, Error, key_error, arith, if◌then◌else◌, Bool, true, false,
}
use pyads_agile.Python.Bytes.{Bytes}
use pyads_agile.Python.Utf8.{Text}
use pyads_agile.Python.Exec.{pure, raise, lift, gets, resume, ◌>>=◌, ◌>>◌}
use pyads_agile.TestServer.Variable.{Variable, Event, unregister_notification}
use pyads_agile.TestServer.Store.{Entry, find, insert, find_by_handle, find_by_notification}
use pyads_agile.TestServer.Store.Laws.{
  IsDict, insert-IsDict, identity, identities, identities-insert, find_by_handle-IsStored,
  find_by_notification-IsStored,
}
use pyads_agile.TestServer.Advanced.{
  Handler, Action, get_variable_by_handle, get_variable_by_indices, get_variable_by_name,
  get_variable_by_notification_handle, write_at, register_at, unregister_at,
}

-- `h'` holds the same variables as `h` under the same keys and in the same order, with the same
-- names, types and handles, and its log of callbacks goes on from that of `h`.
pub record Evolves (h h' : Handler) : Type 0 where
  pub dict : IsDict h'.store
  pub identities : identities h'.store ≡ identities h.store
  pub callbacks : h'.callbacks ≡ h.callbacks
  pub events : (new : List Event) × (h'.events ≡ h.events ++ new)

Evolves-refl : (h : Handler) → IsDict h.store → Evolves h h
Evolves-refl h d = record {
  dict = d;
  identities = refl;
  callbacks = refl;
  events = ([], sym (append-nil h.events));
}

Evolves-trans : {a b c : Handler} → Evolves a b → Evolves b c → Evolves a c
Evolves-trans {a} p q = record {
  dict = q.dict;
  identities = q.identities ∙ p.identities;
  callbacks = q.callbacks ∙ p.callbacks;
  events = (
    p.events.0 ++ q.events.0,
    q.events.1 ∙ ap (λ t. t ++ q.events.0) p.events.1 ∙ append_assoc a.events p.events.0 q.events.0,
  );
}

-- From a dict, an action goes on to a handler that has evolved, whether or not it raises.
pub record Keeps {A : Type 0} (m : Action A) : Type 0 where
  pub at : (h : Handler) → IsDict h.store → Evolves h (m h).1

pub resume-Evolves :
    {A B : Type 0} (f : A → Action B) (r : Result A) (h : Handler)
    → IsDict h.store
    → ((a : A) → r ≡ ok a → Evolves h (f a h).1)
    → Evolves h (resume r f h).1
resume-Evolves f (ok a) h d k = k a refl
resume-Evolves f (err e) h d k = Evolves-refl h d

module _ {A : Type 0} where
  pub Keeps-pure : (a : A) → Keeps (pure a)
  unfolding pure
  Keeps-pure a = record { at = Evolves-refl }

  pub Keeps-raise : (e : Error) → Keeps (raise {A = A} e)
  unfolding raise
  Keeps-raise e = record { at = Evolves-refl }

  pub Keeps-lift : (r : Result A) → Keeps (lift r)
  unfolding lift
  Keeps-lift r = record { at = Evolves-refl }

  pub Keeps-gets : (f : Handler → A) → Keeps (gets f)
  unfolding gets
  Keeps-gets f = record { at = Evolves-refl }

  pub Keeps-if : (b : Bool) (m n : Action A) → Keeps m → Keeps n → Keeps (if b then m else n)
  Keeps-if true m n km kn = km
  Keeps-if false m n km kn = kn

pub Keeps-bind :
    {A B : Type 0} (m : Action A) (f : A → Action B)
    → Keeps m
    → ((a : A) → Keeps (f a))
    → Keeps (m >>= f)
unfolding ◌>>=◌
Keeps-bind m f km kf = record {
  at = λ h d.
      let first = km.at h d in
      Evolves-trans first
        (resume-Evolves f (m h).0 (m h).1 first.dict (λ a _. (kf a).at (m h).1 first.dict));
}

or_raise-eq-ok : {A : Type 0} (e : Error) (o : Option A) {a : A} → or_raise o e ≡ ok a → o ≡ some a
or_raise-eq-ok e none h = cc
or_raise-eq-ok e (some a) h = cc

identity-unregister :
    (g o : ℕ) (var : Variable) (handle : Option ℕ)
    → identity g o (unregister_notification handle var) ≡ identity g o var
unfolding unregister_notification
identity-unregister g o var none = refl
identity-unregister g o var (some handle) = ground arith

-- a variable with the same identity takes the place of the one that is stored
insert-Evolves :
    (h : Handler) (g o : ℕ) (old new : Variable) (all called : List Event)
    → IsDict h.store
    → find g o h.store ≡ some old
    → identity g o new ≡ identity g o old
    → all ≡ h.events ++ called
    → Evolves h (record h { store = insert g o new h.store; events = all })
insert-Evolves h g o old new all called d f e extended = record {
  dict = insert-IsDict g o new h.store d;
  identities = identities-insert g o old new h.store f e;
  callbacks = refl;
  events = (called, extended);
}

module _ (h : Handler) (g o : ℕ) (var : Variable) (d : IsDict h.store)
    (f : find g o h.store ≡ some var) where
  pub write_at-Evolves : (value : Bytes) → Evolves h (write_at g o var value h).1
  unfolding write_at
  write_at-Evolves value = insert-Evolves h g o var _ _ _ d f refl refl

  register_at-Evolves : Evolves h (register_at g o var h).1
  unfolding register_at
  register_at-Evolves = insert-Evolves h g o var _ h.events [] d f refl (sym (append-nil h.events))

  unregister_at-Evolves : (handle : ℕ) → Evolves h (unregister_at g o var handle h).1
  unfolding unregister_at
  unregister_at-Evolves handle =
      insert-Evolves h g o var _ h.events [] d f (identity-unregister g o var (some handle))
        (sym (append-nil h.events))

-- What follows a search starts in the handler that was searched.
module _ {A B : Type 0} (search_for : List Entry → Option A) (f : A → Action B) where
  pub Keeps-search :
      ((a : A) (h : Handler) → IsDict h.store → search_for h.store ≡ some a → Evolves h (f a h).1)
      → Keeps ((λ h. (or_raise (search_for h.store) key_error, h)) >>= f)
  unfolding ◌>>=◌
  Keeps-search k = record {
    at = λ h d.
        resume-Evolves f (or_raise (search_for h.store) key_error) h d
          (λ a r. k a h d (or_raise-eq-ok key_error (search_for h.store) r));
  }

-- A change at the start of a block, and the rest of the block.
pub then_Evolves :
    {A B : Type 0} (h : Handler) (m : Action A) (f : A → Action B)
    → Evolves h (m h).1
    → ((a : A) → Keeps (f a))
    → Evolves h ((m >>= f) h).1
unfolding ◌>>=◌
then_Evolves h m f first kf =
    Evolves-trans first
      (resume-Evolves f (m h).0 (m h).1 first.dict (λ a _. (kf a).at (m h).1 first.dict))

pub get_variable_by_handle-Keeps : (n : ℕ) → Keeps (get_variable_by_handle n)
unfolding get_variable_by_handle
get_variable_by_handle-Keeps n = record { at = Evolves-refl }

pub get_variable_by_indices-Keeps : (g o : ℕ) → Keeps (get_variable_by_indices g o)
unfolding get_variable_by_indices
get_variable_by_indices-Keeps g o = record { at = Evolves-refl }

pub get_variable_by_name-Keeps : (n : Text) → Keeps (get_variable_by_name n)
unfolding get_variable_by_name
get_variable_by_name-Keeps n = record { at = Evolves-refl }

pub ruleset keeps_rules = (
  Keeps-pure, Keeps-raise, Keeps-lift, Keeps-gets, Keeps-if, Keeps-bind,
  get_variable_by_handle-Keeps, get_variable_by_indices-Keeps, get_variable_by_name-Keeps,
)

-- `write`, `register_notification` and `unregister_notification` on what a search returned
module _ {B : Type 0} (k : Action B) (rest : Keeps k) where
  pub write_indices-Keeps :
      (g o : ℕ) (value : Bytes)
      → Keeps (do var ← get_variable_by_indices g o; write_at g o var value; k)
  unfolding get_variable_by_indices
  write_indices-Keeps g o value =
      Keeps-search (find g o) _
        λ var h d f. then_Evolves h _ _ (write_at-Evolves h g o var d f value) (λ _. rest)

  pub write_handle-Keeps :
      (n : ℕ) (value : Bytes)
      → Keeps (do e ← get_variable_by_handle n; write_at e.group e.offset e.var value; k)
  unfolding get_variable_by_handle
  write_handle-Keeps n value = Keeps-search (find_by_handle n) _ λ e h d f.
      then_Evolves h _ _
        (write_at-Evolves h e.group e.offset e.var d (find_by_handle-IsStored n h.store e d f).0
          value)
        (λ _. rest)

  pub unregister_handle-Keeps :
      (n : ℕ)
      → Keeps
          (do e ← get_variable_by_notification_handle n; unregister_at e.group e.offset e.var n; k)
  unfolding get_variable_by_notification_handle
  unregister_handle-Keeps n = Keeps-search (find_by_notification n) _ λ e h d f.
      then_Evolves h _ _
        (unregister_at-Evolves h e.group e.offset e.var d
          (find_by_notification-IsStored n h.store e d f).0 n)
        (λ _. rest)

pub register_indices-Keeps :
    {B : Type 0} (k : ℕ → Action B) (g o : ℕ)
    → ((n : ℕ) → Keeps (k n))
    → Keeps (do var ← get_variable_by_indices g o; n ← register_at g o var; k n)
unfolding get_variable_by_indices
register_indices-Keeps k g o rest =
    Keeps-search (find g o) _
      λ var h d f. then_Evolves h _ _ (register_at-Evolves h g o var d f) rest
