-- ===== src/Errors.antt =====
-- Go errors and results. An error keeps the format and the arguments of the `fmt.Errorf` that made
-- it, and the error that it wraps by a last `: %w`; one that comes from outside the repository is
-- its text.
use Prim.Native.String.{String}
use purenet.Base.{Str, List, ◌≡◌, ◌⊎◌, inl, inr, refl}

pub data GoError : Type 0 where
  external : Str → GoError
  errorf : String → List Str → GoError
  wrapf : String → List Str → GoError → GoError

-- A Go function's value and error, of which one is nil.
pub data Result {ℓ} (A : Type ℓ) : Type ℓ where
  ok : A → Result A
  err : GoError → Result A

pub Result-cases {ℓ} :
    {A : Type ℓ} (r : Result A) → ((a : A) × (r ≡ ok a)) ⊎ ((e : GoError) × (r ≡ err e))
Result-cases (ok a) = inl (a, refl)
Result-cases (err e) = inr (e, refl)
