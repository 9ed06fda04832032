-- ===== src/Ipam/Reuse.antt =====
-- What becomes of an address that `Del` has released.
use purenet.Base.{
  ◌≤◌, ◌≡◌, ◌⊎◌, inl, inr, none, some, [], Str, sym, subst, ap, lookup, lookup-erase, arith, dec_lt,
}
use purenet.Errors.{GoError, ok, err, wrapf}
use purenet.Inet.{Ip4, number4, ip_string}
use purenet.Ipam.Store.{Store, IsLawful}
use purenet.Ipam.Defs.{Allocator, add, del}
use purenet.Ipam.Scan.{IsFirstFree}
use purenet.Ipam.Invariant.{IsValid, IsHost, assigned, released, released-IsValid}
use purenet.Ipam.Persist.{Refused}
use purenet.Ipam.Calls.{Adds, known, fresh, exhausted, add_lem}
use purenet.Ipam.Calls as Calls
use purenet.Ipam.Release.{Dels, absent, gone, del_lem}
use purenet.Ipam.Release as Release

module _ (S : Store) (L : IsLawful S) where
  -- The call gives an address that is not above `ip`, or the disk refuses it.
  abbrev pub Serves : Str → Ip4 → Allocator → S.Disk → Type 0
  Serves c ip b d =
      ((j : Ip4) × ((add S c b d).0 ≡ ok (j, b.gateway)) × (number4 j ≤ number4 ip))
      ⊎ ((j : Ip4) × (e : GoError) × ((add S c b d).0 ≡ err (wrapf "persist allocation" [] e))
          × Refused S (assigned c j b) d)

  add_where_free :
      (c : Str) (b : Allocator) (v : IsValid b) (d : S.Disk) (ip : Ip4)
      → IsHost b.subnet ip
      → lookup (ip_string ip) b.used ≡ none
      → lookup c b.allocs ≡ none
      → Serves c ip b d
  add_where_free c b v d ip host free new = serves (add_lem S L c b v d)
    where
      one : host.base ≡ v.block.base
      one = ground (arith, host.is_v4, v.block.is_v4)

      not_above : (j : Ip4) → IsFirstFree b.subnet v.block.base b.used j → number4 j ≤ number4 ip
      not_above j f = elim (dec_lt (number4 ip) (number4 j)) [
        | yes less ↦ absurd (f.lowest ip host.bytes (ground (arith, one, host.above)) less free)
        | no n ↦ omega (arith, n)
      ]

      serves : Adds S L c b v d (add S c b d) → Serves c ip b d
      serves (known j held q) = ground (arith, held, new)
      serves (fresh j d' _ f q kept) = inl (j, ap (λ r. r.0) q, not_above j f)
      serves (exhausted e _ full q) = absurd (
          full ip host.bytes (ground (arith, one, host.above)) (ground (arith, one, host.below))
            free)
      serves (Calls.not_persisted j e d' _ f refusal q r) = inr (j, e, ap (λ t. t.0) q, refusal)

  -- No address is lost by a `Del`: on a valid allocator, after a `Del` that succeeds for a container
  -- with an address, the next `Add` of a container without one is never told that the block is full.
  -- Whatever the disk is then, it gets an address that is not above the released one, or the disk
  -- refuses the allocations with the new address.
  pub add_after_del :
      (cid c : Str) (a : Allocator) (d d' : S.Disk) (ip : Ip4)
      → IsValid a
      → lookup cid a.allocs ≡ some ip
      → (del S cid a d).0 ≡ none
      → lookup c (del S cid a d).1.allocs ≡ none
      → Serves c ip (del S cid a d).1 d'
  add_after_del cid c a d d' ip v held done new = by_case (del_lem S L cid a d v)
    where
      after : (b : Allocator) → b ≡ released cid ip a → lookup c b.allocs ≡ none → Serves c ip b d'
      after b e free =
          let host = v.hosts cid ip held in
          add_where_free c b (subst IsValid (sym e) (released-IsValid a v cid ip held)) d' ip
            (subst (λ (x : Allocator). IsHost x.subnet ip) (sym e) host)
            (ground (arith, e, lookup-erase (ip_string ip) (ip_string ip) a.used)) free

      by_case : Dels S L cid a d (del S cid a d) → Serves c ip (del S cid a d).1 d'
      by_case (absent e q) = ground (arith, e, held)
      by_case (gone j _ e q kept) = after (del S cid a d).1 (ground (arith, q, e, held)) new
      by_case (Release.not_persisted j e _ h refusal q r) = ground (arith, q, done)
