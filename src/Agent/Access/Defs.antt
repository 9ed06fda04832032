-- ===== src/Agent/Access/Defs.antt =====
-- The state of the arbitrator and of the handlers that use it, and the steps.
use purenet.Base.{
  [], ℕ, ◌≡◌, Bool, true, false, none, some, Str, Dict, lookup, insert, erase, ℕ_discrete, ite,
  if◌then◌else◌,
}

-- What a handler is doing. `woken` is a sleeper that `Broadcast` has reached.
pub data Phase : Type 0 where
  outside : Phase
  asleep woken inside : Str → Phase

pub record System : Type 0 where
  pub busy : Dict Bool
  pub phase : ℕ → Phase

-- `a.busy[containerID]`: false where the map has no entry.
unfoldable pub is_busy : Str → Dict Bool → Bool
is_busy cid busy = elim (lookup cid busy) [ none ↦ false | some b ↦ b ]

abbrev pub set_phase : ℕ → Phase → (ℕ → Phase) → ℕ → Phase
set_phase t p phase u = ite (ℕ_discrete t u) p (phase u)

-- A pass of the loop in `lock`: wait, or take the container.
unfoldable pub lock : ℕ → Str → System → System
lock t cid s =
    if is_busy cid s.busy
    then record s { phase = set_phase t (asleep cid) s.phase }
    else record s { busy = insert cid true s.busy; phase = set_phase t (inside cid) s.phase }

abbrev pub wake : Phase → Phase
wake (asleep cid) = woken cid
wake outside = outside
wake (woken cid) = woken cid
wake (inside cid) = inside cid

-- `unlock`: the entry is deleted, and every sleeper is woken.
unfoldable pub unlock : ℕ → Str → System → System
unlock t cid s = record s {
  busy = erase cid s.busy;
  phase = set_phase t outside (λ u. wake (s.phase u));
}

abbrev pub initial : System
initial = record { busy = []; phase = λ t. outside }

-- Any handler may call, go on after a wake-up, or return, in any order.
pub data Step (s : System) : System → Type 0 where
  calls : (t : ℕ) (cid : Str) → s.phase t ≡ outside → Step s (lock t cid s)
  resumes : (t : ℕ) (cid : Str) → s.phase t ≡ woken cid → Step s (lock t cid s)
  returns : (t : ℕ) (cid : Str) → s.phase t ≡ inside cid → Step s (unlock t cid s)

pub data Reach : System → Type 0 where
  start : Reach initial
  next : {s t : System} → Reach s → Step s t → Reach t
