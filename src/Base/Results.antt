-- ===== src/Base/Results.antt =====
-- `Result<T, E>`, and the errors of the HTTP handlers (crates/pier-core/src/error.rs).
use Prim.Native.String.{String}
use mathlib.Core.Path.{◌≡◌, refl}
use mathlib.Core.Logic.{◌⊎◌, inl, inr}
use mathlib.Core.Bool.{Bool, true, false}
use mathlib.Core.Option.{Option, none, some}

pub data Result {ℓ κ} (E : Type κ) (A : Type ℓ) : Type (ℓ ⊔ κ) where
  ok : A → Result E A
  err : E → Result E A

-- `?` on a result.
infixl 10 ◌>>=◌
abbrev pub ◌>>=◌ {ℓ κ μ} :
    {E : Type κ} {A : Type ℓ} {B : Type μ} (m : Result E A) (next : A → Result E B) → Result E B
err e >>= next = err e
ok a >>= next = next a

-- A chain that ends well has passed through its first step.
pub >>=-eq-ok {ℓ κ μ} :
    {E : Type κ} {A : Type ℓ} {B : Type μ} (first : Result E A) (next : A → Result E B) {last : B}
    → (first >>= next) ≡ ok last
    → (x : A) × (first ≡ ok x) × (next x ≡ ok last)
>>=-eq-ok (err e) next passed = cc
>>=-eq-ok (ok x) next passed = (x, refl, passed)

pub Result-cases {ℓ κ} :
    {E : Type κ} {A : Type ℓ} (r : Result E A) → ((a : A) × (r ≡ ok a)) ⊎ ((e : E) × (r ≡ err e))
Result-cases (ok a) = inl (a, refl)
Result-cases (err e) = inr (e, refl)

abbrev pub is_ok {ℓ κ} : {E : Type κ} {A : Type ℓ} → Result E A → Bool
is_ok (ok a) = true
is_ok (err e) = false

-- `ok_or_else` of the standard library.
abbrev pub ok_or {ℓ κ} : {E : Type κ} {A : Type ℓ} → Option A → E → Result E A
ok_or none e = err e
ok_or (some a) e = ok a

-- The kinds of `AppError` that the modelled handlers return, with the key of the message.
pub data AppError : Type 0 where
  unauthorized : AppError
  not_found forbidden bad_request conflict : String → AppError
  database internal : AppError
