-- ===== src/TestServer/Store/Laws.antt =====
-- How reads and writes of the dict of variables fit together.
use pyads_agile.Prelude.{
  ℕ, ◌≡◌, refl, List, [], ◌∷◌, none, some, ◌&&◌, ◌==◌, if◌then◌else◌, arith, Bool, true, inl, inr,
  Bool-cases,
}
use pyads_agile.Python.Utf8.{Text}
use pyads_agile.TestServer.Variable.{Variable, contains}
use pyads_agile.TestServer.Store.{Entry, find, insert, find_by_handle, find_by_notification}

-- two keys are the same
abbrev pub same_key : ℕ → ℕ → ℕ → ℕ → Bool
same_key g o k p = g == k && o == p

pub find-insert :
    (g o k p : ℕ) (v : Variable) (es : List Entry)
    → find k p (insert g o v es) ≡ (if same_key g o k p then some v else find k p es)
unfolding find insert
find-insert g o k p v [] = refl
find-insert g o k p v (e ∷ es) = ground (arith, find-insert g o k p v es)

-- No key stands twice, as in every dict.
abbrev pub IsDict : List Entry → Type 0
IsDict [] = Unit
IsDict (e ∷ es) = (find e.group e.offset es ≡ none) × IsDict es

pub insert-IsDict :
    (g o : ℕ) (v : Variable) (es : List Entry) → IsDict es → IsDict (insert g o v es)
unfolding find insert
insert-IsDict g o v [] h = (refl, tt)
insert-IsDict g o v (e ∷ es) h =
    ground (arith, insert-IsDict g o v es h.1, find-insert g o e.group e.offset v es)

-- What a variable is, apart from its value and its notifications, and where it is stored.
pub record Identity : Type 0 where
  pub group : ℕ
  pub offset : ℕ
  pub name : Text
  pub ads_type : ℕ
  pub symbol_type : Text
  pub handle : ℕ
  pub comment : Text

abbrev pub identity : ℕ → ℕ → Variable → Identity
identity g o v = record {
  group = g;
  offset = o;
  name = v.name;
  ads_type = v.ads_type;
  symbol_type = v.symbol_type;
  handle = v.handle;
  comment = v.comment;
}

abbrev pub identities : List Entry → List Identity
identities [] = []
identities (e ∷ es) = identity e.group e.offset e.var ∷ identities es

-- A new version of a variable, under its key, leaves every identity and the order as they were.
pub identities-insert :
    (g o : ℕ) (old new : Variable) (es : List Entry)
    → find g o es ≡ some old
    → identity g o new ≡ identity g o old
    → identities (insert g o new es) ≡ identities es
unfolding find insert
identities-insert g o old new [] h e = cc
identities-insert g o old new (x ∷ es) h e = ground (arith, identities-insert g o old new es)

-- In a dict, an entry that a search returns is what its key gives.
abbrev pub IsStored : List Entry → Entry → Type 0
IsStored es e = find e.group e.offset es ≡ some e.var

find_later :
    (x : Entry) (es : List Entry) (e : Entry)
    → find x.group x.offset es ≡ none
    → IsStored es e
    → IsStored (x ∷ es) e
unfolding find
find_later x es e new stored = ground arith

pub find_by_handle-IsStored :
    (h : ℕ) (es : List Entry) (e : Entry)
    → IsDict es
    → find_by_handle h es ≡ some e
    → IsStored es e × (e.var.handle ≡ h)
unfolding find find_by_handle
find_by_handle-IsStored h [] e d f = cc
find_by_handle-IsStored h (x ∷ es) e d f = elim (Bool-cases (x.var.handle == h)) [
  | inl here ↦ ground arith
  | inr there ↦
      let (stored, found) = find_by_handle-IsStored h es e d.1 (ground arith) in
      (find_later x es e d.0 stored, found)
]

pub find_by_notification-IsStored :
    (h : ℕ) (es : List Entry) (e : Entry)
    → IsDict es
    → find_by_notification h es ≡ some e
    → IsStored es e × (contains h e.var.notifications ≡ true)
unfolding find find_by_notification
find_by_notification-IsStored h [] e d f = cc
find_by_notification-IsStored h (x ∷ es) e d f =
    elim (Bool-cases (contains h x.var.notifications)) [
      | inl here ↦ ground arith
      | inr there ↦
          let (stored, found) = find_by_notification-IsStored h es e d.1 (ground arith) in
          (find_later x es e d.0 stored, found)
    ]
