-- ===== src/Agent/Access/Draining.antt =====
-- When no more handlers call, those that wait get in and return, after a bounded number of steps.
use purenet.Base.{
  ℕ, zero, suc, ◌+◌, ◌*◌, ◌≤◌, ◌<◌, ◌≡◌, ◌≢◌, ◌⊎◌, inl, inr, refl, ap, ◌∙◌, Bool, true, false, Str,
  arith, ℕ_discrete, dec_lt, Bool-cases,
}
use purenet.Agent.Access.Defs.{
  outside, System, is_busy, lock, unlock, Step, calls, resumes, returns, Reach, next,
}
use purenet.Agent.Access.Safety.{IsOrderly, Reach-IsOrderly}
use purenet.Agent.Access.Weights.{Phase-cases, total, total_bound, total-lock, total-unlock}

unfoldable pub is_call : {s t : System} → Step s t → Bool
is_call (calls t cid e) = true
is_call (resumes t cid e) = false
is_call (returns t cid e) = false

-- A number of steps in which no handler calls.
pub data Runs (s : System) : ℕ → System → Type 0 where
  still : Runs s 0 s
  then_goes :
      {k : ℕ} {t u : System} → Runs s k t → (st : Step t u) → is_call st ≡ false → Runs s (suc k) u

-- The handlers from `n` on have not called.
abbrev pub IsBelow : ℕ → System → Type 0
IsBelow n s = (u : ℕ) → n ≤ u → s.phase u ≡ outside

below : (n u : ℕ) (s : System) → IsBelow n s → s.phase u ≢ outside → u < n
below n u s b ne = elim (dec_lt u n) [ yes lt ↦ lt | no ge ↦ absurd (ne (b u (omega arith))) ]

lock-IsBelow : (n t : ℕ) (cid : Str) (s : System) → t < n → IsBelow n s → IsBelow n (lock t cid s)
unfolding lock
lock-IsBelow n t cid s lt b u h = ground (arith, b u h, Bool-cases (is_busy cid s.busy))

unlock-IsBelow :
    (n t : ℕ) (cid : Str) (s : System) → t < n → IsBelow n s → IsBelow n (unlock t cid s)
unfolding unlock
unlock-IsBelow n t cid s lt b u h = ground (arith, b u h)

-- Each such step takes from the weight.
Step-total :
    (n : ℕ) {s t : System} (st : Step s t)
    → is_call st ≡ false
    → IsBelow n s
    → IsBelow n t × (total n n t.phase + 1 ≤ total n n s.phase)
unfolding is_call
Step-total n (calls t cid e) no_call b = absurd (cc)
Step-total n {s} (resumes t cid e) no_call b =
    let lt = below n t s b (λ o. ground (arith, o, e)) in
    (lock-IsBelow n t cid s lt b, ground (arith, total-lock n n t cid cid s lt e))
Step-total n {s} (returns t cid e) no_call b =
    let lt = below n t s b (λ o. ground (arith, o, e)) in
    (unlock-IsBelow n t cid s lt b, ground (arith, total-unlock n n t cid cid s lt e))

Runs-total :
    (n k : ℕ) {s t : System}
    → Runs s k t
    → IsBelow n s
    → IsBelow n t × (total n n t.phase + k ≤ total n n s.phase)
Runs-total n zero still b = (b, omega arith)
Runs-total n (suc k) (then_goes r st no_call) b =
    let (b', m) = Runs-total n k r b in
    let (b2, m2) = Step-total n st no_call b' in (b2, omega arith)

Runs-Reach : {s t : System} (k : ℕ) → Runs s k t → Reach s → Reach t
Runs-Reach zero still r = r
Runs-Reach (suc k) (then_goes q st no_call) r = next (Runs-Reach k q r) st

-- A step that some handler can make.
abbrev CanGo : System → Type 0
CanGo s = (t : System) × (st : Step s t) × (is_call st ≡ false)

goes : (s : System) (u : ℕ) → IsOrderly s → s.phase u ≢ outside → CanGo s
unfolding is_call
goes s u o ne = elim (Phase-cases (s.phase u)) [
  | inl e ↦ absurd (ne e)
  | inr (inl (c, e)) ↦ let (t, h) = o.held c (o.sleeps u c e) in (unlock t c s, returns t c h, refl)
  | inr (inr (inl (c, e))) ↦ (lock u c s, resumes u c e, refl)
  | inr (inr (inr (c, e))) ↦ (unlock u c s, returns u c e, refl)
]

outside_or_goes :
    (m : ℕ) (s : System) → IsOrderly s → ((u : ℕ) → u < m → s.phase u ≡ outside) ⊎ CanGo s
outside_or_goes zero s o = inl (λ u lt. absurd (omega arith))
outside_or_goes (suc m) s o = elim (Phase-cases (s.phase m)) [
  | inl e ↦ elim (outside_or_goes m s o) [
    | inr can ↦ inr can
    | inl all ↦ inl (λ u lt. elim (ℕ_discrete u m) [
      | yes same ↦ ap s.phase same ∙ e
      | no ne ↦ all u (omega arith)
    ])
  ]
  | inr busy ↦ inr (goes s m o (λ e. ground (arith, e, busy)))
]

all_outside :
    (n : ℕ) (t : System)
    → IsBelow n t
    → IsOrderly t
    → ((u : ℕ) → u < n → t.phase u ≡ outside)
    → ((u : ℕ) → t.phase u ≡ outside) × ((cid : Str) → is_busy cid t.busy ≡ false)
all_outside n t b o all = (
  out,
  λ cid. elim (Bool-cases (is_busy cid t.busy)) [
    | inl busy ↦ let (u, h) = o.held cid busy in ground (arith, h, out u)
    | inr idle ↦ idle
  ],
)
  where
    out : (u : ℕ) → t.phase u ≡ outside
    out u = elim (dec_lt u n) [ yes lt ↦ all u lt | no ge ↦ b u (omega arith) ]

-- Let only handlers below `n` have called, in a state that calls, wake-ups and returns lead to.
-- Then as long as no handler calls, at most `n * (n + 1)` steps follow, in any order; and after any
-- of them, either another step can follow or every handler has returned and no container is marked
-- busy.
pub Runs-drains :
    (n k : ℕ) (s t : System)
    → Reach s
    → IsBelow n s
    → Runs s k t
    → (k ≤ n * (1 + n))
      × (((u : System) × Runs s (suc k) u)
          ⊎ (((u : ℕ) → t.phase u ≡ outside) × ((cid : Str) → is_busy cid t.busy ≡ false)))
Runs-drains n k s t reach b runs =
    let (b', m) = Runs-total n k runs b in
    let bound = total_bound n n s.phase in
    let o = Reach-IsOrderly t (Runs-Reach k runs reach) in
    (
      ground (arith, m, bound),
      elim (outside_or_goes n t o) [
        | inr (u, st, no_call) ↦ inl (u, then_goes runs st no_call)
        | inl all ↦ inr (all_outside n t b' o all)
      ],
    )
