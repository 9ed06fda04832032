-- ===== src/Agent/Access/Weights.antt =====
-- How much a handler has yet to do, and what a pass of the loop and an `unlock` take off the sum.
use purenet.Base.{
  ℕ, zero, suc, ◌+◌, ◌*◌, ◌≤◌, ◌<◌, ◌≡◌, ◌⊎◌, inl, inr, refl, Str, arith, ℕ_discrete, Bool-cases,
}
use purenet.Agent.Access.Defs.{
  Phase, outside, asleep, woken, inside, System, is_busy, set_phase, wake, lock, unlock,
}

pub Phase-cases :
    (p : Phase)
    → (p ≡ outside)
      ⊎ ((c : Str) × (p ≡ asleep c))
      ⊎ ((c : Str) × (p ≡ woken c))
      ⊎ ((c : Str) × (p ≡ inside c))
Phase-cases outside = inl refl
Phase-cases (asleep c) = inr (inl (c, refl))
Phase-cases (woken c) = inr (inr (inl (c, refl)))
Phase-cases (inside c) = inr (inr (inr (c, refl)))

-- A return may wake all the others, so that to be inside weighs as much as `n` wake-ups.
abbrev pub weight : ℕ → Phase → ℕ
weight n outside = 0
weight n (inside c) = n
weight n (asleep c) = n
weight n (woken c) = 1 + n

-- The weight of the handlers below `m`.
unfoldable pub total : ℕ → ℕ → (ℕ → Phase) → ℕ
total zero n phase = 0
total (suc m) n phase = total m n phase + weight n (phase m)

pub total_bound : (m n : ℕ) (phase : ℕ → Phase) → total m n phase ≤ m * (1 + n)
unfolding total
total_bound zero n phase = omega arith
total_bound (suc m) n phase =
    let rest = total_bound m n phase in
    let this : weight n (phase m) ≤ 1 + n = ground (arith, Phase-cases (phase m)) in
    ground (arith, rest, this)

total-set_phase_above :
    (m n t : ℕ) (p : Phase) (phase : ℕ → Phase)
    → m ≤ t
    → total m n (set_phase t p phase) ≡ total m n phase
unfolding total
total-set_phase_above zero n t p phase h = refl
total-set_phase_above (suc m) n t p phase h =
    let rest = total-set_phase_above m n t p phase (omega arith) in ground (arith, rest, h)

pub total-set_phase :
    (m n t : ℕ) (p : Phase) (phase : ℕ → Phase)
    → t < m
    → total m n (set_phase t p phase) + weight n (phase t) ≡ total m n phase + weight n p
unfolding total
total-set_phase zero n t p phase h = absurd (omega arith)
total-set_phase (suc m) n t p phase h = elim (ℕ_discrete t m) [
  | yes e ↦ let rest = total-set_phase_above m n t p phase (omega arith) in ground (arith, rest, e)
  | no ne ↦ let rest = total-set_phase m n t p phase (omega arith) in ground (arith, rest, ne)
]

total-wake : (m n : ℕ) (phase : ℕ → Phase) → total m n (λ u. wake (phase u)) ≤ total m n phase + m
unfolding total
total-wake zero n phase = omega arith
total-wake (suc m) n phase =
    let rest = total-wake m n phase in
    let this : weight n (wake (phase m)) ≤ weight n (phase m) + 1 =
      ground (arith, Phase-cases (phase m)) in
    ground (arith, rest, this)

-- One who is inside is not woken.
total-wake_inside :
    (m n t : ℕ) (c : Str) (phase : ℕ → Phase)
    → t < m
    → phase t ≡ inside c
    → total m n (λ u. wake (phase u)) + 1 ≤ total m n phase + m
unfolding total
total-wake_inside zero n t c phase h e = absurd (omega arith)
total-wake_inside (suc m) n t c phase h e = elim (ℕ_discrete t m) [
  | yes same ↦
      let rest = total-wake m n phase in
      let this : weight n (wake (phase m)) ≡ weight n (phase m) = ground (arith, e, same) in
      ground (arith, rest, this)
  | no ne ↦
      let rest = total-wake_inside m n t c phase (omega arith) e in
      let this : weight n (wake (phase m)) ≤ weight n (phase m) + 1 =
        ground (arith, Phase-cases (phase m)) in
      ground (arith, rest, this)
]

-- A handler that goes on after a wake-up.
pub total-lock :
    (m n t : ℕ) (cid c : Str) (s : System)
    → t < m
    → s.phase t ≡ woken c
    → total m n (lock t cid s).phase + 1 ≡ total m n s.phase
unfolding lock
total-lock m n t cid c s h e =
    let asleep_now = total-set_phase m n t (asleep cid) s.phase h in
    let inside_now = total-set_phase m n t (inside cid) s.phase h in
    ground (arith, asleep_now, inside_now, e, Bool-cases (is_busy cid s.busy))

-- A handler that returns.
pub total-unlock :
    (m n t : ℕ) (cid c : Str) (s : System)
    → t < m
    → s.phase t ≡ inside c
    → total m n (unlock t cid s).phase + n + 1 ≤ total m n s.phase + m
unfolding unlock
total-unlock m n t cid c s h e =
    let gone = total-set_phase m n t outside (λ u. wake (s.phase u)) h in
    let woken_now = total-wake_inside m n t c s.phase h e in
    let here : weight n (wake (s.phase t)) ≡ n = ground (arith, e) in
    ground (arith, gone, woken_now, here)
