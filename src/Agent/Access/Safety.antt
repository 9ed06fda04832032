-- ===== src/Agent/Access/Safety.antt =====
-- At most one handler per container, and no lost wake-up.
use purenet.Base.{
  ℕ, ◌≡◌, ◌≢◌, inl, inr, Bool, true, false, Str, str_dec, Dict, insert, erase, lookup-insert,
  lookup-erase, ite, arith, Bool-cases,
}
use purenet.Agent.Access.Defs.{
  asleep, woken, inside, System, is_busy, lock, unlock, initial, Step, calls, resumes, returns,
  Reach, start, next,
}

is_busy-insert :
    (j k : Str) (m : Dict Bool) → is_busy j (insert k true m) ≡ ite (str_dec k j) true (is_busy j m)
unfolding is_busy
is_busy-insert j k m = ground (arith, lookup-insert j k true m)

is_busy-erase :
    (j k : Str) (m : Dict Bool) → is_busy j (erase k m) ≡ ite (str_dec k j) false (is_busy j m)
unfolding is_busy
is_busy-erase j k m = ground (arith, lookup-erase j k m)

-- `busy` marks the containers that a handler is inside for, and a handler sleeps only on those.
pub record IsOrderly (s : System) : Type 0 where
  pub exclusive : (t u : ℕ) (cid : Str) → s.phase t ≡ inside cid → s.phase u ≡ inside cid → t ≡ u
  pub marked : (t : ℕ) (cid : Str) → s.phase t ≡ inside cid → is_busy cid s.busy ≡ true
  pub held : (cid : Str) → is_busy cid s.busy ≡ true → (t : ℕ) × (s.phase t ≡ inside cid)
  pub sleeps : (t : ℕ) (cid : Str) → s.phase t ≡ asleep cid → is_busy cid s.busy ≡ true

module _ (s : System) (o : IsOrderly s) (t : ℕ) (cid : Str) where
  lock-IsOrderly : ((c : Str) → s.phase t ≢ inside c) → IsOrderly (lock t cid s)
  unfolding lock
  lock-IsOrderly free = elim (Bool-cases (is_busy cid s.busy)) [
    | inl busy ↦ record {
      exclusive = λ u w c p q. ground (arith, o.exclusive u w c);
      marked = λ u c p. ground (arith, o.marked u c);
      held = λ c b. let (x, q) = o.held c (ground arith) in (x, ground (arith, free c));
      sleeps = λ u c p. ground (arith, o.sleeps u c);
    }
    | inr idle ↦ record {
      exclusive = λ u w c p q. ground (arith, o.exclusive u w c, o.marked u c, o.marked w c);
      marked = λ u c p. ground (arith, o.marked u c, is_busy-insert c cid s.busy);
      held = λ c b. elim (str_dec cid c) [
        | yes e ↦ (t, ground arith)
        | no ne ↦
            let (x, q) = o.held c (ground (arith, is_busy-insert c cid s.busy)) in
            (x, ground (arith, free c))
      ];
      sleeps = λ u c p. ground (arith, o.sleeps u c, is_busy-insert c cid s.busy);
    }
  ]

  unlock-IsOrderly : s.phase t ≡ inside cid → IsOrderly (unlock t cid s)
  unfolding unlock
  unlock-IsOrderly here = record {
    exclusive = λ u w c p q. ground (arith, o.exclusive u w c);
    marked = λ u c p. ground (arith, o.marked u c, o.exclusive t u c, is_busy-erase c cid s.busy);
    held = λ c b.
        let (x, q) = o.held c (ground (arith, is_busy-erase c cid s.busy)) in
        (x, ground (arith, is_busy-erase c cid s.busy));
    sleeps = λ u c p. ground arith;
  }

initial-IsOrderly : IsOrderly initial
unfolding is_busy
initial-IsOrderly = record {
  exclusive = λ t u c p q. cc;
  marked = λ t c p. cc;
  held = λ c b. absurd (cc);
  sleeps = λ t c p. cc;
}

pub Step-IsOrderly : {s t : System} → Step s t → IsOrderly s → IsOrderly t
Step-IsOrderly {s} (calls t cid e) o = lock-IsOrderly s o t cid (λ c p. cc)
Step-IsOrderly {s} (resumes t cid e) o = lock-IsOrderly s o t cid (λ c p. cc)
Step-IsOrderly {s} (returns t cid e) o = unlock-IsOrderly s o t cid e

-- In every state that calls, wake-ups and returns in any order lead to: at most one handler is
-- inside for a container, `busy` has exactly the containers that one is inside for, and a handler
-- sleeps only while another is inside for its container, so no wake-up is lost.
pub Reach-IsOrderly : (s : System) → Reach s → IsOrderly s
Reach-IsOrderly s start = initial-IsOrderly
Reach-IsOrderly s (next r st) = Step-IsOrderly st (Reach-IsOrderly _ r)

-- When a handler returns, the container is free, no one sleeps any more, and any handler that was
-- waiting for the container gets in if it is the next to go on.
pub unlock_hands_over :
    (s : System) (t u : ℕ) (cid : Str)
    → s.phase t ≡ inside cid
    → s.phase u ≡ asleep cid
    → let s' = unlock t cid s in
      (is_busy cid s'.busy ≡ false)
      × (s'.phase u ≡ woken cid)
      × ((w : ℕ) (c : Str) → s'.phase w ≢ asleep c)
      × ((lock u cid s').phase u ≡ inside cid)
unfolding unlock lock
unlock_hands_over s t u cid p q =
    let free = is_busy-erase cid cid s.busy in
    (ground (arith, free), ground arith, λ w c h. ground arith, ground (arith, free))

-- A handler stays inside while another one calls or returns.
pub inside_lock :
    (s : System) (t u : ℕ) (c cid : Str)
    → u ≢ t
    → s.phase t ≡ inside cid
    → (lock u c s).phase t ≡ inside cid
unfolding lock
inside_lock s t u c cid ne h = ground (arith, ne, h, Bool-cases (is_busy c s.busy))

pub inside_unlock :
    (s : System) (t u : ℕ) (c cid : Str)
    → u ≢ t
    → s.phase t ≡ inside cid
    → (unlock u c s).phase t ≡ inside cid
unfolding unlock
inside_unlock s t u c cid ne h = ground (arith, ne, h)
