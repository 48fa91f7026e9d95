-- ===== src/Python/Exec.antt =====
-- Methods that change an object and may raise. What was written before a raise stays written, so
-- the state comes back beside the error too.
use pyads_agile.Prelude.{◌≡◌, refl, ap, Error, Result, ok, err}

abbrev pub Exec {ℓ} : Type ℓ → Type ℓ → Type ℓ
Exec S A = S → Result A × S

module _ {ℓ} {S A : Type ℓ} where
  unfoldable pub pure : A → Exec S A
  pure a s = (ok a, s)

  unfoldable pub raise : Error → Exec S A
  raise e s = (err e, s)

  unfoldable pub lift : Result A → Exec S A
  lift r s = (r, s)

  unfoldable pub gets : (S → A) → Exec S A
  gets f s = (ok (f s), s)

module _ {ℓ} {S A B : Type ℓ} where
  -- the rest of a method after a call that returned or raised
  abbrev pub resume : Result A → (A → Exec S B) → Exec S B
  resume (ok a) f s = f a s
  resume (err e) f s = (err e, s)

  infixl 5 ◌>>=◌ ◌>>◌
  -- opening this opens `pure`, `raise`, `lift` and `gets` too
  unfoldable pub ◌>>=◌ : Exec S A → (A → Exec S B) → Exec S B
  unfolding pure raise lift gets
  ◌>>=◌ m f s = let (r, s') = m s in resume r f s'

  abbrev pub ◌>>◌ : Exec S A → Exec S B → Exec S B
  m >> k = m >>= λ _. k

-- What a block that returned went through.
pub >>=-eq-ok {ℓ} :
    {S A B : Type ℓ} (m : Exec S A) (f : A → Exec S B) (s : S) {b : B}
    → ((m >>= f) s).0 ≡ ok b
    → (a : A) × ((m s).0 ≡ ok a) × ((f a (m s).1).0 ≡ ok b)
unfolding ◌>>=◌
>>=-eq-ok {S} {A} {B} m f s {b} h = go (m s).0 (m s).1 refl h
  where
    go :
        (r : Result A) (s' : S)
        → (m s).0 ≡ r
        → (resume r f s').0 ≡ ok b
        → (a : A) × ((m s).0 ≡ ok a) × ((f a s').0 ≡ ok b)
    go (ok a) s' e k = (a, e, k)
    go (err x) s' e k = cc

pub lift->>=-eq-ok {ℓ} :
    {S A B : Type ℓ} (r : Result A) (f : A → Exec S B) (s : S) {b : B}
    → ((lift r >>= f) s).0 ≡ ok b
    → (a : A) × (r ≡ ok a) × ((f a s).0 ≡ ok b)
unfolding ◌>>=◌
lift->>=-eq-ok (ok a) f s h = (a, refl, h)
lift->>=-eq-ok (err x) f s h = cc

-- A block goes on where its first call returned, and ends where it raised.
pub >>=-ok {ℓ} :
    {S A B : Type ℓ} (m : Exec S A) (f : A → Exec S B) (s : S) {a : A}
    → (m s).0 ≡ ok a
    → (m >>= f) s ≡ f a (m s).1
unfolding ◌>>=◌
>>=-ok m f s e = ap (λ r. resume r f (m s).1) e

pub >>=-err {ℓ} :
    {S A B : Type ℓ} (m : Exec S A) (f : A → Exec S B) (s : S) {x : Error}
    → (m s).0 ≡ err x
    → (m >>= f) s ≡ (err x, (m s).1)
unfolding ◌>>=◌
>>=-err m f s e = ap (λ r. resume r f (m s).1) e
