-- ===== src/Network/Action.antt =====
-- Go code that acts on the kernel and may return an error: what was done before an error stays.
use Prim.Native.String.{String}
use purenet.Base.{Bool, false, Option, none, some, List, Str, if◌then◌else◌}
use purenet.Errors.{GoError, external, wrapf, Result, ok, err}
use purenet.Network.Kernel.{Reply, got, refused}

abbrev pub Action : Type 0 → Type 0 → Type 0
Action S A = S → Result A × S

module _ {S A : Type 0} where
  abbrev pub pure : A → Action S A
  pure a s = (ok a, s)

  abbrev pub fail : GoError → Action S A
  fail e s = (err e, s)

  -- A query whose error is wrapped and returned.
  abbrev pub query : (S → Reply A) → String → List Str → Action S A
  query f format args s = elim (f s) [
    | got a ↦ (ok a, s)
    | refused e ↦ (err (wrapf format args (external e)), s)
  ]

infixl 5 ◌>>=◌ ◌>>◌
abbrev pub ◌>>=◌ : {S A B : Type 0} → Action S A → (A → Action S B) → Action S B
◌>>=◌ m f s = let (r, s') = m s in elim r [ ok a ↦ f a s' | err e ↦ (err e, s') ]

abbrev pub ◌>>◌ : {S A B : Type 0} → Action S A → Action S B → Action S B
m >> k = m >>= λ _. k

-- A call whose error, unless it is one of those tolerated, is wrapped and returned.
abbrev pub exec_unless :
    {S : Type 0} → (Str → Bool) → (S → Option Str × S) → String → List Str → Action S (Unit {0})
exec_unless tolerated f format args s =
    let (r, s') = f s in
    elim r [
      | none ↦ (ok tt, s')
      | some e ↦ if tolerated e then (ok tt, s') else (err (wrapf format args (external e)), s')
    ]

abbrev pub exec : {S : Type 0} → (S → Option Str × S) → String → List Str → Action S (Unit {0})
exec = exec_unless (λ e. false)
