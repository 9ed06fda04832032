-- ===== src/Network/Keeps.antt =====
-- What code that acts on the kernel leaves as it is, whether it succeeds or not.
use Prim.Native.String.{String}
use purenet.Base.{
  Bool, false, ◌≡◌, sym, subst, inl, inr, Option, List, Str, arith, Option-cases, Bool-cases,
}
use purenet.Errors.{Result-cases}
use purenet.Network.Kernel.{Reply, Reply-cases}
use purenet.Network.Action.{Action, query, exec, exec_unless, ◌>>=◌, ◌>>◌}

module _ {S : Type 0} (Q : S → Type 0) where
  unfoldable pub Keeps : {A : Type 0} → Action S A → Type 0
  Keeps m = (s : S) → Q s → Q (m s).1

  pub query-Keeps :
      {A : Type 0} (f : S → Reply A) (format : String) (args : List Str)
      → Keeps (query f format args)
  unfolding Keeps
  query-Keeps f format args s q =
      let same : (query f format args s).1 ≡ s = ground (arith, Reply-cases (f s)) in
      subst Q (sym same) q

  pub exec_unless-Keeps :
      (tolerated : Str → Bool) (f : S → Option Str × S) (format : String) (args : List Str)
      → ((s : S) → Q s → Q (f s).1)
      → Keeps (exec_unless tolerated f format args)
  unfolding Keeps
  exec_unless-Keeps tolerated f format args keep s q =
      let same : (exec_unless tolerated f format args s).1 ≡ (f s).1 =
        ground (arith, Option-cases (f s).0, λ (e : Str). Bool-cases (tolerated e)) in
      subst Q (sym same) (keep s q)

  pub exec-Keeps :
      (f : S → Option Str × S) (format : String) (args : List Str)
      → ((s : S) → Q s → Q (f s).1)
      → Keeps (exec f format args)
  exec-Keeps = exec_unless-Keeps (λ e. false)

  pub bind-Keeps :
      {A B : Type 0} (m : Action S A) (f : A → Action S B)
      → Keeps m
      → ((a : A) → Keeps (f a))
      → Keeps (m >>= f)
  unfolding Keeps
  bind-Keeps m f keep rest s q = elim (Result-cases (m s).0) [
    | inl (a, e) ↦
        let step : ((m >>= f) s).1 ≡ (f a (m s).1).1 = ground (arith, e) in
        subst Q (sym step) (rest a (m s).1 (keep s q))
    | inr (t, e) ↦
        let step : ((m >>= f) s).1 ≡ (m s).1 = ground (arith, e) in subst Q (sym step) (keep s q)
  ]

  pub then-Keeps :
      {A B : Type 0} (m : Action S A) (k : Action S B) → Keeps m → Keeps k → Keeps (m >> k)
  then-Keeps m k keep rest = bind-Keeps m (λ _. k) keep (λ _. rest)
