-- ===== src/Ipam/Retry.antt =====
-- Calls one after another for one container: kubelet's retries, and `Check`.
use purenet.Base.{◌≡◌, none, some, [], ◌∷◌, Str, lookup, lookup-insert, arith}
use purenet.Errors.{errorf, ok, err}
use purenet.Inet.{Ip, Ip4}
use purenet.Ipam.Store.{Store, IsLawful}
use purenet.Ipam.Defs.{Allocator, add, del, check}
use purenet.Ipam.Invariant.{IsValid}
use purenet.Ipam.Calls.{Adds, known, fresh, exhausted, not_persisted, add_lem}
use purenet.Ipam.Release.{del-lookup}

module _ (S : Store) (L : IsLawful S) where
  -- What `Add` returned is what the allocator holds.
  add_held :
      (cid : Str) (a : Allocator) (d : S.Disk) (ip : Ip4) (gw : Ip)
      → IsValid a
      → (add S cid a d).0 ≡ ok (ip, gw)
      → (lookup cid (add S cid a d).1.allocs ≡ some ip) × ((add S cid a d).1.gateway ≡ gw)
  add_held cid a d ip gw v e = held (add_lem S L cid a v d)
    where
      held :
          Adds S L cid a v d (add S cid a d)
          → (lookup cid (add S cid a d).1.allocs ≡ some ip) × ((add S cid a d).1.gateway ≡ gw)
      held (known j h q) = (ground arith, ground arith)
      held (fresh j d' new f q kept) =
          (ground (arith, lookup-insert cid cid j a.allocs), ground arith)
      held (exhausted t new full q) = cc
      held (not_persisted j t d' new f refusal q r) = cc

  pub add_of_held :
      (cid : Str) (b : Allocator) (d : S.Disk) (ip : Ip4)
      → lookup cid b.allocs ≡ some ip
      → (add S cid b d ≡ (ok (ip, b.gateway), b, d)) × (check cid b ≡ ok ip)
  unfolding add check
  add_of_held cid b d ip h = ground arith

  del_of_absent :
      (cid : Str) (b : Allocator) (d : S.Disk)
      → lookup cid b.allocs ≡ none
      → (del S cid b d ≡ (none, b, d))
        × (check cid b ≡ err (errorf "no allocation for container %s" (cid ∷ [])))
  unfolding del check
  del_of_absent cid b d h = ground arith

  -- A retry of an `Add` that succeeded gives the same address and gateway, and changes nothing.
  pub add_again :
      (cid : Str) (a : Allocator) (d d' : S.Disk) (ip : Ip4) (gw : Ip)
      → IsValid a
      → (add S cid a d).0 ≡ ok (ip, gw)
      → let b = (add S cid a d).1 in (add S cid b d' ≡ (ok (ip, gw), b, d')) × (check cid b ≡ ok ip)
  add_again cid a d d' ip gw v e =
      let b = (add S cid a d).1 in
      let (held, gateway) = add_held cid a d ip gw v e in
      let (same, found) = add_of_held cid b d' ip held in (rw same (rw gateway), found)

  -- After a `Del` that succeeded, a second one changes nothing, and `Check` fails.
  pub del_again :
      (cid : Str) (a : Allocator) (d d' : S.Disk)
      → IsValid a
      → (del S cid a d).0 ≡ none
      → let b = (del S cid a d).1 in
        (del S cid b d' ≡ (none, b, d'))
        × (check cid b ≡ err (errorf "no allocation for container %s" (cid ∷ [])))
  del_again cid a d d' v e =
      del_of_absent cid (del S cid a d).1 d' ((del-lookup S L cid cid a d v).0 e)
