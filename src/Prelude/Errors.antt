-- ===== src/Prelude/Errors.antt =====
-- What a call returns or raises. An `Error` is the class of the exception, with the code where the
-- source reads one; message texts are not modelled.
use Prim.Native.Nat.{ℕ}
use mathlib.Core.Path.{◌≡◌, refl}
use mathlib.Core.Logic.{◌⊎◌, inl, inr}
use mathlib.Core.Option.{Option, none, some}

pub data Error : Type 0 where
  value_error key_error type_error runtime_error struct_error unicode_error : Error
  attribute_error index_error timeout_error overflow_error : Error
  ads_error : ℕ → Error

pub data Result {ℓ} (A : Type ℓ) : Type ℓ where
  ok : A → Result A
  err : Error → Result A

abbrev pub or_raise {ℓ} : {A : Type ℓ} → Option A → Error → Result A
or_raise none e = err e
or_raise (some a) e = ok a

infixl 5 ◌>>=◌
abbrev pub ◌>>=◌ {ℓ κ} : {A : Type ℓ} {B : Type κ} → Result A → (A → Result B) → Result B
err x >>= rest = err x
ok a >>= rest = rest a

-- A block that returned got something from its first call, and its rest returned.
pub >>=-eq-ok {ℓ κ} :
    {A : Type ℓ} {B : Type κ} (call : Result A) (rest : A → Result B) {final : B}
    → (call >>= rest) ≡ ok final
    → (first : A) × (call ≡ ok first) × (rest first ≡ ok final)
>>=-eq-ok (err x) rest returned = cc
>>=-eq-ok (ok first) rest returned = (first, refl, returned)

pub ok_inj {ℓ} : {A : Type ℓ} {a b : A} → ok a ≡ ok b → a ≡ b
ok_inj h = cc

pub not_ok {ℓ} : {A : Type ℓ} {e : Error} {a : A} → err e ≡ ok a → ⊥
not_ok h = cc

pub Result-cases {ℓ} :
    {A : Type ℓ} (r : Result A) → ((a : A) × (r ≡ ok a)) ⊎ ((x : Error) × (r ≡ err x))
Result-cases (ok a) = inl (a, refl)
Result-cases (err x) = inr (x, refl)
