-- ===== src/Ipam/Release.antt =====
-- `Del` and `Check` on every branch.
use purenet.Base.{
  ◌≡◌, refl, sym, subst, ◌∙◌, ◌≢◌, inl, inr, Option, none, some, [], Str, lookup, Same,
  lookup-erase, insert-erase-Same, arith, Option-cases,
}
use purenet.Errors.{GoError, wrapf}
use purenet.Inet.{Ip4, ip_string}
use purenet.Ipam.Store.{Store, IsLawful}
use purenet.Ipam.Defs.{Allocator, state_path, persist, del}
use purenet.Ipam.Invariant.{IsValid, assigned, released, assigned-IsValid, released-IsValid}
use purenet.Ipam.Persist.{Refused}
use purenet.Ipam.Calls.{InStep, InStep-read, IsSound, persist_kept}

-- What a failed `Del` puts back.
abbrev pub restored : Str → Ip4 → Allocator → Allocator
restored cid ip a = assigned cid ip (released cid ip a)

module _ (a : Allocator) (v : IsValid a) (cid : Str) (ip : Ip4)
    (held : lookup cid a.allocs ≡ some ip) where
  pub restored-IsValid : IsValid (restored cid ip a)
  restored-IsValid =
      assigned-IsValid (released cid ip a) (released-IsValid a v cid ip held) cid ip
        (ground (arith, lookup-erase cid cid a.allocs))
        (ground (arith, lookup-erase (ip_string ip) (ip_string ip) a.used)) (v.hosts cid ip held)

  pub restored-Same :
      Same (restored cid ip a).allocs a.allocs × Same (restored cid ip a).used a.used
  restored-Same = (
    insert-erase-Same cid ip a.allocs held,
    insert-erase-Same (ip_string ip) cid a.used (v.forward cid ip held),
  )

module _ (S : Store) (L : IsLawful S) where
  -- How a call of `Del` may end.
  pub data Dels (cid : Str) (a : Allocator) (d : S.Disk) (r : Option GoError × Allocator × S.Disk)
      : Type 0 where
    absent : lookup cid a.allocs ≡ none → r ≡ (none, a, d) → Dels cid a d r
    gone :
        (ip : Ip4) (d' : S.Disk)
        → lookup cid a.allocs ≡ some ip
        → r ≡ (none, released cid ip a, d')
        → InStep S L (released cid ip a) d'
        → Dels cid a d r
    not_persisted :
        (ip : Ip4) (e : GoError) (d' : S.Disk)
        → lookup cid a.allocs ≡ some ip
        → Refused S (released cid ip a) d
        → r ≡ (some (wrapf "persist release" [] e), restored cid ip a, d')
        → S.read_file (state_path a) d' ≡ S.read_file (state_path a) d
        → Dels cid a d r

  -- On a valid allocator, `Del` of a container without an address changes nothing; else the address
  -- goes from both maps and from the disk. It fails only when the disk refuses the allocations
  -- without that address: they cannot be encoded, the temporary file cannot be written, or it cannot
  -- be renamed. Then both maps get the entry back and the state file stays.
  pub del_lem : (cid : Str) (a : Allocator) (d : S.Disk) → IsValid a → Dels cid a d (del S cid a d)
  unfolding del state_path
  del_lem cid a d v = elim (Option-cases (lookup cid a.allocs)) [
    | inl e ↦ absent e (ground arith)
    | inr (ip, held) ↦
        let a' = released cid ip a in
        elim (persist_kept S L a' (released-IsValid a v cid ip held) d) [
          | inl (p, kept) ↦ gone ip (persist S a' d).1 held (ground arith) kept
          | inr (t, p, refusal, r) ↦
              not_persisted ip t (persist S a' d).1 held refusal (ground arith) r
        ]
  ]

  -- After any call of `Del` the maps mirror each other, and the disk holds what the memory does.
  pub del-IsSound :
      (cid : Str) (a : Allocator) (d : S.Disk)
      → IsValid a
      → InStep S L a d
      → IsSound S L ((del S cid a d).1, (del S cid a d).2)
  unfolding state_path
  del-IsSound cid a d v s = sound (del_lem cid a d v)
    where
      Goal : Option GoError × Allocator × S.Disk → Type 0
      Goal r = IsSound S L (r.1, r.2)

      kept_in_step :
          (ip : Ip4) (d' : S.Disk)
          → lookup cid a.allocs ≡ some ip
          → InStep S L a d'
          → InStep S L (restored cid ip a) d'
      kept_in_step ip d' held (inl (missing, free)) =
          inl (missing, λ k. (restored-Same a v cid ip held).1 k ∙ free k)
      kept_in_step ip d' held (inr (b, m', r, u, nodup, same)) =
          inr (b, m', r, u, nodup, λ k. same k ∙ sym ((restored-Same a v cid ip held).1 k))

      sound : Dels cid a d (del S cid a d) → Goal (del S cid a d)
      sound (absent e q) = subst Goal (sym q) (v, s)
      sound (gone ip d' held q kept) = subst Goal (sym q) (released-IsValid a v cid ip held, kept)
      sound (not_persisted ip e d' held refusal q r) =
          subst Goal (sym q)
            (restored-IsValid a v cid ip held, kept_in_step ip d' held (InStep-read S L a d d' r s))

  -- A container is gone after a `Del` that succeeds, and no other container notices; after one that
  -- fails every container holds what it held.
  pub del-lookup :
      (cid c : Str) (a : Allocator) (d : S.Disk)
      → IsValid a
      → let r = del S cid a d in
        ((r.0 ≡ none) → (lookup cid r.1.allocs ≡ none))
        × ((c ≢ cid) → (lookup c r.1.allocs ≡ lookup c a.allocs))
        × ((r.0 ≢ none) → (lookup c r.1.allocs ≡ lookup c a.allocs))
  del-lookup cid c a d v = by_case (del_lem cid a d v)
    where
      Goal : Option GoError × Allocator × S.Disk → Type 0
      Goal r =
          ((r.0 ≡ none) → (lookup cid r.1.allocs ≡ none))
          × ((c ≢ cid) → (lookup c r.1.allocs ≡ lookup c a.allocs))
          × ((r.0 ≢ none) → (lookup c r.1.allocs ≡ lookup c a.allocs))

      by_case : Dels cid a d (del S cid a d) → Goal (del S cid a d)
      by_case (absent e q) = subst Goal (sym q) (λ _. e, λ _. refl, λ _. refl)
      by_case (gone ip d' held q kept) = subst Goal (sym q) (
        λ _. ground (arith, lookup-erase cid cid a.allocs),
        λ ne. ground (arith, lookup-erase c cid a.allocs),
        λ failed. absurd (failed refl),
      )
      by_case (not_persisted ip e d' held refusal q r) = subst Goal (sym q) (
        λ h. cc,
        λ _. (restored-Same a v cid ip held).0 c,
        λ _. (restored-Same a v cid ip held).0 c,
      )
