-- ===== src/Errors.antt =====
-- src/shared/errors: exceptions, results that may be one, and the calls that return such results.
mod Kinds
pub mod DomainErrors
pub mod Codes
use nestjs_modular_monolith.Common.{Bool, true, false, ◌≡◌, refl, ◌⊎◌, inl, inr}
pub use Kinds.*

-- A settled promise, or the outcome of a synchronous call.
pub data Result {ℓ} (A : Type ℓ) : Type ℓ where
  ok : A → Result A
  throw : Thrown → Result A

-- An asynchronous call over a state `S`. What it wrote before it threw stays written.
abbrev pub M : Type 0 → Type 0 → Type 0
M S A = S → Result A × S

abbrev pub continue : {S A B : Type 0} → Result A × S → (A → M S B) → Result B × S
continue (ok a, s) f = f a s
continue (throw e, s) f = (throw e, s)

infixl 5 ◌>>=◌ ◌>>◌
abbrev pub ◌>>=◌ : {S A B : Type 0} → M S A → (A → M S B) → M S B
◌>>=◌ m f s = continue (m s) f

abbrev pub ◌>>◌ : {S A B : Type 0} → M S A → M S B → M S B
◌>>◌ m k s = continue (m s) (λ _. k)

abbrev pub return : {S A : Type 0} → A → M S A
return a s = (ok a, s)

abbrev pub raise : {S A : Type 0} → Thrown → M S A
raise e s = (throw e, s)

abbrev pub get : {S : Type 0} → M S S
get s = (ok s, s)

pub Result-cases : (r : Result (Unit {0})) → (r ≡ ok tt) ⊎ ((e : Thrown) × (r ≡ throw e))
Result-cases (ok tt) = inl refl
Result-cases (throw e) = inr (e, refl)

abbrev pub is_ok {ℓ} : {A : Type ℓ} → Result A → Bool
is_ok (ok _) = true
is_ok (throw _) = false
