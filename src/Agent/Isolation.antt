-- ===== src/Agent/Isolation.antt =====
-- The arbitrator of pkg/agent/server.go and the allocator together. A handler calls the allocator
-- for its container between `lock` and the deferred `unlock`, and any handlers may run at once.
use purenet.Base.{ℕ, ◌≡◌, ◌≢◌, ◌∙◌, refl, ap, Str, lookup, lookup-insert, arith}
use purenet.Ipam.Store.{Store, IsLawful}
use purenet.Ipam.{Allocator, add, del}
use purenet.Ipam.Calls.{IsSound, Adds, known, fresh, exhausted, not_persisted, add_lem, add-IsSound}
use purenet.Ipam.Release.{del-IsSound, del-lookup}
use purenet.Agent.Access.{Phase, inside, woken, outside, System, lock, unlock}
use purenet.Agent.Access as Access
use purenet.Agent.Access.Safety.{IsOrderly, Step-IsOrderly, inside_lock, inside_unlock}

module _ (S : Store) where
  pub record Shared : Type 0 where
    pub access : System
    pub alloc : Allocator
    pub disk : S.Disk

  -- A step of handler `t`: of the arbitrator, or a call of the allocator.
  pub data By (t : ℕ) (x : Shared) : Shared → Type 0 where
    calls :
        (cid : Str)
        → x.access.phase t ≡ outside
        → By t x (record x { access = lock t cid x.access })
    resumes :
        (cid : Str)
        → x.access.phase t ≡ woken cid
        → By t x (record x { access = lock t cid x.access })
    returns :
        (cid : Str)
        → x.access.phase t ≡ inside cid
        → By t x (record x { access = unlock t cid x.access })
    adds :
        (cid : Str)
        → x.access.phase t ≡ inside cid
        → By t x
            (record x { alloc = (add S cid x.alloc x.disk).1; disk = (add S cid x.alloc x.disk).2 })
    dels :
        (cid : Str)
        → x.access.phase t ≡ inside cid
        → By t x
            (record x { alloc = (del S cid x.alloc x.disk).1; disk = (del S cid x.alloc x.disk).2 })

  -- Any steps of other handlers than `t`.
  pub data Others (t : ℕ) (x : Shared) : Shared → Type 0 where
    none_yet : Others t x x
    then_one : {y z : Shared} (u : ℕ) → Others t x y → u ≢ t → By u y z → Others t x z

  module _ (L : IsLawful S) where
    add-lookup_other :
        (cid c : Str) (a : Allocator) (d : S.Disk)
        → IsSound S L (a, d)
        → c ≢ cid
        → lookup c (add S cid a d).1.allocs ≡ lookup c a.allocs
    add-lookup_other cid c a d (v, i) ne = by_case (add_lem S L cid a v d)
      where
        by_case :
            Adds S L cid a v d (add S cid a d)
            → lookup c (add S cid a d).1.allocs ≡ lookup c a.allocs
        by_case (known ip held q) = ap (λ r. lookup c r.1.allocs) q
        by_case (fresh ip d' new f q kept) =
            ap (λ r. lookup c r.1.allocs) q ∙ ground (arith, ne, lookup-insert c cid ip a.allocs)
        by_case (exhausted e new full q) = ap (λ r. lookup c r.1.allocs) q
        by_case (not_persisted ip e d' new f refusal q r) = ap (λ r. lookup c r.1.allocs) q

    -- What holds while handler `t` is inside for a container, since `x`.
    record IsKept (t : ℕ) (cid : Str) (x y : Shared) : Type 0 where
      orderly : IsOrderly y.access
      sound : IsSound S L (y.alloc, y.disk)
      inside_still : y.access.phase t ≡ inside cid
      same : lookup cid y.alloc.allocs ≡ lookup cid x.alloc.allocs

    By-IsKept :
        (t u : ℕ) (cid : Str) {x y z : Shared}
        → u ≢ t
        → IsKept t cid x y
        → By u y z
        → IsKept t cid x z
    By-IsKept t u cid {x} {y} ne k (calls c h) = record {
      orderly = Step-IsOrderly (Access.calls u c h) k.orderly;
      sound = k.sound;
      inside_still = inside_lock y.access t u c cid ne k.inside_still;
      same = k.same;
    }
    By-IsKept t u cid {x} {y} ne k (resumes c h) = record {
      orderly = Step-IsOrderly (Access.resumes u c h) k.orderly;
      sound = k.sound;
      inside_still = inside_lock y.access t u c cid ne k.inside_still;
      same = k.same;
    }
    By-IsKept t u cid {x} {y} ne k (returns c h) = record {
      orderly = Step-IsOrderly (Access.returns u c h) k.orderly;
      sound = k.sound;
      inside_still = inside_unlock y.access t u c cid ne k.inside_still;
      same = k.same;
    }
    By-IsKept t u cid {x} {y} ne k (adds c h) =
        let other : cid ≢ c =
          λ e. ne (k.orderly.exclusive u t c h (k.inside_still ∙ ap inside e)) in
        record {
          orderly = k.orderly;
          sound = add-IsSound S L c y.alloc y.disk k.sound.0 k.sound.1;
          inside_still = k.inside_still;
          same = add-lookup_other c cid y.alloc y.disk k.sound other ∙ k.same;
        }
    By-IsKept t u cid {x} {y} ne k (dels c h) =
        let other : cid ≢ c =
          λ e. ne (k.orderly.exclusive u t c h (k.inside_still ∙ ap inside e)) in
        record {
          orderly = k.orderly;
          sound = del-IsSound S L c y.alloc y.disk k.sound.0 k.sound.1;
          inside_still = k.inside_still;
          same = (del-lookup S L c cid y.alloc y.disk k.sound.0).1 other ∙ k.same;
        }

    Others-IsKept :
        (t : ℕ) (cid : Str) {x y : Shared} → IsKept t cid x x → Others t x y → IsKept t cid x y
    Others-IsKept t cid k none_yet = k
    Others-IsKept t cid k (then_one u r ne st) = By-IsKept t u cid ne (Others-IsKept t cid k r) st

    -- No race between requests for one container: while a handler is between `lock` and `unlock`,
    -- whatever steps the other handlers take, it stays inside, its container holds what it held,
    -- and the allocator is valid and in step with the disk.
    pub others_leave_container :
        (t : ℕ) (cid : Str) (x y : Shared)
        → IsOrderly x.access
        → IsSound S L (x.alloc, x.disk)
        → x.access.phase t ≡ inside cid
        → Others t x y
        → (y.access.phase t ≡ inside cid)
          × (lookup cid y.alloc.allocs ≡ lookup cid x.alloc.allocs)
          × IsSound S L (y.alloc, y.disk)
    others_leave_container t cid x y o v here r =
        let k =
          Others-IsKept t cid (record { orderly = o; sound = v; inside_still = here; same = refl })
            r in
        (k.inside_still, k.same, k.sound)
