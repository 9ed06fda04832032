-- ===== src/Agent/Access/Tests.antt =====
-- Two handlers for one container, and for two.
use purenet.Base.{◌≡◌, refl, Str, codes, str_dec}
use purenet.Agent.Access.Defs.{
  inside, asleep, System, is_busy, lock, unlock, initial, Reach, start, next, calls,
}
use purenet.Base.{ℕ, ◌≤◌, ◌⊎◌, false}
use purenet.Agent.Access.Defs.{outside, returns}
use purenet.Agent.Access.Draining.{Runs, still, then_goes, is_call, IsBelow, Runs-drains}
use purenet.Agent.Access.Safety.{IsOrderly, Reach-IsOrderly, unlock_hands_over}
use purenet.Base.{arith, lookup}
use purenet.Ipam.{add}
use purenet.Ipam.Memory.{memory, memory-IsLawful}
use purenet.Ipam.Calls.{IsSound}
use purenet.Agent.Isolation.{Shared, adds, Others, none_yet, then_one, others_leave_container}
use purenet.Agent.Server.Sample.{pool, pool-IsValid, pool-InStep, empty_disk}

abbrev c1 : Str
c1 = codes "c1"

-- Handler 0 got in, and handler 1 sleeps.
contended : System
unfolding lock is_busy str_dec
contended = lock 1 c1 (lock 0 c1 initial)

contended-Reach : Reach contended
unfolding contended
contended-Reach = next (next start (calls 0 c1 refl)) (calls 1 c1 refl)

contended_phases : (contended.phase 0 ≡ inside c1) × (contended.phase 1 ≡ asleep c1)
unfolding contended
contended_phases = (refl, refl)

Reach-IsOrderly_example : IsOrderly contended
Reach-IsOrderly_example = Reach-IsOrderly contended contended-Reach

unlock_hands_over_example : (lock 1 c1 (unlock 0 c1 contended)).phase 1 ≡ inside c1
unlock_hands_over_example =
    (unlock_hands_over contended 0 1 c1 contended_phases.0 contended_phases.1).3

abbrev c2 : Str
c2 = codes "c2"

-- Handler 0 is inside for one container and handler 1 for another.
side_by_side : System
unfolding lock is_busy str_dec
side_by_side = lock 1 c2 (lock 0 c1 initial)

side_by_side-Reach : Reach side_by_side
unfolding side_by_side
side_by_side-Reach = next (next start (calls 0 c1 refl)) (calls 1 c2 refl)

side_by_side_phases : (side_by_side.phase 0 ≡ inside c1) × (side_by_side.phase 1 ≡ inside c2)
unfolding side_by_side
side_by_side_phases = (refl, refl)

abbrev shared : Shared memory
shared = record { access = side_by_side; alloc = pool; disk = empty_disk }

abbrev second_added : Shared memory
second_added = record {
  access = side_by_side;
  alloc = (add memory c2 pool empty_disk).1;
  disk = (add memory c2 pool empty_disk).2;
}

abbrev one_step : Others memory 0 shared second_added
one_step = then_one 1 none_yet (λ e. ground (arith, e)) (adds c2 side_by_side_phases.1)

others_leave_container_example :
    (side_by_side.phase 0 ≡ inside c1)
    × (lookup c1 (add memory c2 pool empty_disk).1.allocs ≡ lookup c1 pool.allocs)
    × IsSound memory memory-IsLawful
        ((add memory c2 pool empty_disk).1, (add memory c2 pool empty_disk).2)
others_leave_container_example =
    others_leave_container memory memory-IsLawful 0 c1 shared second_added
      (Reach-IsOrderly side_by_side side_by_side-Reach) (pool-IsValid, pool-InStep)
      side_by_side_phases.0 one_step

contended-IsBelow : IsBelow 2 contended
unfolding contended
contended-IsBelow u h = ground (arith, h)

handed_over : Runs contended 1 (unlock 0 c1 contended)
unfolding is_call
handed_over = then_goes still (returns 0 c1 contended_phases.0) refl

Runs-drains_example :
    (1 ≤ 6)
    × (((u : System) × Runs contended 2 u)
        ⊎ (((u : ℕ) → (unlock 0 c1 contended).phase u ≡ outside)
            × ((cid : Str) → is_busy cid (unlock 0 c1 contended).busy ≡ false)))
Runs-drains_example =
    Runs-drains 2 1 contended (unlock 0 c1 contended) contended-Reach contended-IsBelow handed_over
