-- ===== src/Network/Yields.antt =====
-- What code that acts on the kernel has done when it returns no error.
use Prim.Native.String.{String}
use purenet.Base.{◌≡◌, ◌∙◌, sym, ap, subst, inl, inr, none, Option, List, Str, arith, Option-cases}
use purenet.Errors.{ok, Result-cases}
use purenet.Network.Kernel.{Reply, got, Reply-cases}
use purenet.Network.Keeps.{Keeps}
use purenet.Network.Action.{Action, pure, query, exec, ◌>>=◌, ◌>>◌}

-- From `P`, a run of `m` that returns `a` ends in `Q a`.
pub record Yields {S A : Type 0} (P : S → Type 0) (m : Action S A) (Q : A → S → Type 0)
    : Type 0 where
  pub at : (s : S) (a : A) → P s → (m s).0 ≡ ok a → Q a (m s).1

module _ {S : Type 0} {P : S → Type 0} where
  pub Yields-pure : {A : Type 0} (a : A) → Yields P (pure a) (λ b s. (a ≡ b) × P s)
  Yields-pure a = record { at = λ s b p h. (ground (arith, h), p) }

  pub Yields-query :
      {A : Type 0} (f : S → Reply A) (format : String) (args : List Str)
      → Yields P (query f format args) (λ a s. P s × (f s ≡ got a))
  Yields-query f format args = record {
    at = λ s a p h. elim (Reply-cases (f s)) [
      | inl (b, e) ↦
          let step : query f format args s ≡ (ok b, s) = ground (arith, e) in
          let same : b ≡ a = ground (arith, step, h) in
          subst (λ t. P t × (f t ≡ got a)) (sym (ap (λ r. r.1) step)) (p, e ∙ ap got same)
      | inr (t, e) ↦ ground (arith, e, h)
    ];
  }

  pub Yields-exec :
      (Q : S → Type 0) (f : S → Option Str × S) (format : String) (args : List Str)
      → ((s : S) → P s → (f s).0 ≡ none → Q (f s).1)
      → Yields P (exec f format args) (λ _. Q)
  Yields-exec Q f format args step = record {
    at = λ s a p h. elim (Option-cases (f s).0) [
      | inl e ↦
          let same : (exec f format args s).1 ≡ (f s).1 = ground (arith, e) in
          subst Q (sym same) (step s p e)
      | inr (t, e) ↦ ground (arith, e, h)
    ];
  }

  pub Yields-bind :
      {A B : Type 0} {Q : A → S → Type 0} {R : B → S → Type 0} (m : Action S A) (f : A → Action S B)
      → Yields P m Q
      → ((a : A) → Yields (Q a) (f a) R)
      → Yields P (m >>= f) R
  Yields-bind {R} m f first rest = record {
    at = λ s b p h. elim (Result-cases (m s).0) [
      | inl (a, e) ↦
          let step : (m >>= f) s ≡ f a (m s).1 = ground (arith, e) in
          subst (R b) (sym (ap (λ r. r.1) step))
            ((rest a).at (m s).1 b (first.at s a p e) (ap (λ r. r.0) (sym step) ∙ h))
      | inr (t, e) ↦ ground (arith, e, h)
    ];
  }

  pub Yields-then :
      {A B : Type 0} {R : B → S → Type 0} (M : S → Type 0) (m : Action S A) (k : Action S B)
      → Yields P m (λ _. M)
      → Yields M k R
      → Yields P (m >> k) R
  Yields-then M m k first rest = Yields-bind m (λ _. k) first (λ _. rest)

  pub Yields-weaken :
      {A : Type 0} {Q R : A → S → Type 0} (m : Action S A)
      → Yields P m Q
      → ((a : A) (s : S) → Q a s → R a s)
      → Yields P m R
  Yields-weaken m y weaker = record { at = λ s a p h. weaker a (m s).1 (y.at s a p h) }

  pub Yields-keeps : {A : Type 0} (m : Action S A) → Keeps P m → Yields P m (λ _. P)
  unfolding Keeps
  Yields-keeps m keep = record { at = λ s a p h. keep s p }

  -- A fact that is not about the state.
  pub Yields-given :
      {A X : Type 0} {Q : A → S → Type 0} (m : Action S A)
      → (X → Yields P m Q)
      → Yields (λ s. X × P s) m Q
  Yields-given m y = record { at = λ s a p h. (y p.0).at s a p.1 h }

  pub Yields-assume :
      {A : Type 0} {P' : S → Type 0} {Q : A → S → Type 0} (m : Action S A)
      → Yields P m Q
      → ((s : S) → P' s → P s)
      → Yields P' m Q
  Yields-assume m y stronger = record { at = λ s a p h. y.at s a (stronger s p) h }

-- What follows `m` may rely on what the result of `m` is.
pub bind-Keeps_known :
    {S A B : Type 0} (Q : S → Type 0) (F : A → Type 0) (m : Action S A) (f : A → Action S B)
    → Keeps Q m
    → Yields Q m (λ a s. F a)
    → ((a : A) → F a → Keeps Q (f a))
    → Keeps Q (m >>= f)
unfolding Keeps
bind-Keeps_known Q F m f keep known rest s q = elim (Result-cases (m s).0) [
  | inl (a, e) ↦
      let step : ((m >>= f) s).1 ≡ (f a (m s).1).1 = ground (arith, e) in
      subst Q (sym step) (rest a (known.at s a q e) (m s).1 (keep s q))
  | inr (t, e) ↦
      let step : ((m >>= f) s).1 ≡ (m s).1 = ground (arith, e) in subst Q (sym step) (keep s q)
]
