-- ===== src/Base/Counts.antt =====
-- Counting the entries of a map by a number that tells them apart.
use mathlib.Core.Path.{◌≡◌}
use mathlib.Core.Logic.{◌≢◌, ◌⊎◌, inl, inr}
use mathlib.Core.Option.{some}
use mathlib.Core.List.{[], ◌∷◌}
use Prim.Native.Nat.{ℕ, zero, suc, ◌+◌, ◌≤◌, ◌<◌}
use native.Mathlib.Omega.{arith}
unfoldable use native.Mathlib.Decide.{ℕ_discrete}
use purenet.Base.Strings.{Str, str_dec}
use purenet.Base.Tests.{length}
use purenet.Base.Maps.{Dict, lookup, erase, NodupKeys, lookup-erase, erase-NodupKeys, erase_absent}

module _ {V : Type 0} where
  pub length-erase :
      (k : Str) (v : V) (m : Dict V)
      → NodupKeys m
      → lookup k m ≡ some v
      → length (erase k m) + 1 ≡ length m
  length-erase k v [] h e = ground (arith, e)
  length-erase k v (x ∷ m) h e = elim (str_dec x.0 k) [
    | yes same ↦ ground (arith, same, h.0, erase_absent k m)
    | no ne ↦ ground (arith, ne, e, length-erase k v m h.1)
  ]

  module _ (f : V → ℕ) where
    -- An entry with that number, or none.
    find :
        (n : ℕ) (m : Dict V)
        → NodupKeys m
        → ((k : Str) × (v : V) × (lookup k m ≡ some v) × (f v ≡ n))
          ⊎ ((k : Str) (v : V) → lookup k m ≡ some v → f v ≢ n)
    find n [] h = inr (λ k v e. ground (arith, e))
    find n ((j, u) ∷ m) h = elim (ℕ_discrete (f u) n) [
      | yes here ↦ inl (j, u, ground arith, here)
      | no ne ↦ elim (find n m h.1) [
        | inl (k, v, e, there) ↦ inl (k, v, ground (arith, e, h.0), there)
        | inr none_there ↦ inr (λ k v e. elim (str_dec j k) [
          | yes same ↦ ground (arith, e, same, ne)
          | no other ↦ none_there k v (ground (arith, e, other))
        ])
      ]
    ]

    -- Entries with different numbers below `n` are at most `n`.
    pub length_below :
        (n : ℕ) (m : Dict V)
        → NodupKeys m
        → ((k : Str) (v : V) → lookup k m ≡ some v → f v < n)
        → ((j k : Str) (u v : V) → lookup j m ≡ some u → lookup k m ≡ some v → f u ≡ f v → j ≡ k)
        → length m ≤ n
    length_below zero [] h under apart = omega arith
    length_below zero ((k, v) ∷ m) h under apart = absurd (ground (arith, under k v (ground arith)))
    length_below (suc n) m h under apart = elim (find n m h) [
      | inr none_there ↦
          let rest =
            length_below n m h (λ k v e. ground (arith, under k v e, none_there k v e)) apart in
          omega arith
      | inl (k, v, e, there) ↦
          let less = length-erase k v m h e in
          let rest =
            length_below n (erase k m) (erase-NodupKeys k m h)
              (λ j u e'. ground (arith, lookup-erase j k m, under j u, apart j k u v, e, there))
              (λ i j u w p q.
                apart i j u w (ground (arith, lookup-erase i k m))
                  (ground (arith, lookup-erase j k m))) in
          omega arith
    ]

    -- Where each number below `n` has an entry there are at least `n`.
    pub length_covers :
        (n : ℕ) (m : Dict V)
        → NodupKeys m
        → ((o : ℕ) → o < n → (k : Str) × (v : V) × (lookup k m ≡ some v) × (f v ≡ o))
        → n ≤ length m
    length_covers zero m h all = omega arith
    length_covers (suc n) m h all =
        let (k, v, e, there) = all n (omega arith) in
        let less = length-erase k v m h e in
        let rest = length_covers n (erase k m) (erase-NodupKeys k m h) (λ o lt.
          let (j, u, e', at) = all o (omega arith) in
          (j, u, ground (arith, lookup-erase j k m, e', e, at, there), at)) in
        omega arith
