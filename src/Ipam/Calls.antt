-- ===== src/Ipam/Calls.antt =====
-- `Add`, `Del` and `Check` on every branch, and the disk after each.
use purenet.Base.{
  ◌≡◌, sym, subst, ◌∙◌, ◌⊎◌, inl, inr, none, some, [], Str, lookup, erase-insert_new, arith,
  Option-cases,
}
use purenet.Errors.{GoError, Result, ok, err, wrapf}
use purenet.Inet.{Ip, Ip4, ip_string}
use purenet.Ipam.Store.{Store, IsLawful, not_exist}
use purenet.Ipam.Defs.{Allocator, state_path, next_free_ip, persist, add}
use purenet.Ipam.Scan.{IsFirstFree, IsExhausted, next_free_ip_lem}
use purenet.Ipam.Invariant.{IsValid, assigned, IsHost-of_first_free, assigned-IsValid}
use purenet.Ipam.Persist.{IsWritten, Refused, encode-used, persist_cases}

module _ (S : Store) (L : IsLawful S) where
  -- A restart would find the allocations of the memory.
  abbrev pub InStep : Allocator → S.Disk → Type 0
  InStep a d =
      ((S.read_file (state_path a) d ≡ not_exist) × ((s : Str) → lookup s a.used ≡ none))
      ⊎ IsWritten S L (state_path a) a.used d

  pub persist_kept :
      (a : Allocator)
      → IsValid a
      → (d : S.Disk)
      → (((persist S a d).0 ≡ none) × InStep a (persist S a d).1)
        ⊎ ((e : GoError) × ((persist S a d).0 ≡ some e)
            × Refused S a d
            × (S.read_file (state_path a) (persist S a d).1 ≡ S.read_file (state_path a) d))
  persist_kept a v d = elim (persist_cases S L a d) [
    | inl (p, (b, m', r, u, nodup, same)) ↦
        inl (p, inr (b, m', r, u, nodup, λ s. same s ∙ encode-used a v s))
    | inr failed ↦ inr failed
  ]

  -- How a call of `Add` may end.
  pub data Adds (cid : Str) (a : Allocator) (v : IsValid a) (d : S.Disk)
      (r : Result (Ip4 × Ip) × Allocator × S.Disk) : Type 0 where
    known :
        (ip : Ip4)
        → lookup cid a.allocs ≡ some ip
        → r ≡ (ok (ip, a.gateway), a, d)
        → Adds cid a v d r
    fresh :
        (ip : Ip4) (d' : S.Disk)
        → lookup cid a.allocs ≡ none
        → IsFirstFree a.subnet v.block.base a.used ip
        → r ≡ (ok (ip, a.gateway), assigned cid ip a, d')
        → InStep (assigned cid ip a) d'
        → Adds cid a v d r
    exhausted :
        (e : GoError)
        → lookup cid a.allocs ≡ none
        → IsExhausted a v.block
        → r ≡ (err e, a, d)
        → Adds cid a v d r
    not_persisted :
        (ip : Ip4) (e : GoError) (d' : S.Disk)
        → lookup cid a.allocs ≡ none
        → IsFirstFree a.subnet v.block.base a.used ip
        → Refused S (assigned cid ip a) d
        → r ≡ (err (wrapf "persist allocation" [] e), a, d')
        → S.read_file (state_path a) d' ≡ S.read_file (state_path a) d
        → Adds cid a v d r

  add_new_cases :
      (cid : Str) (a : Allocator) (v : IsValid a) (d : S.Disk) (ip : Ip4)
      → lookup cid a.allocs ≡ none
      → next_free_ip a ≡ ok ip
      → IsFirstFree a.subnet v.block.base a.used ip
      → Adds cid a v d (add S cid a d)
  unfolding add state_path
  add_new_cases cid a v d ip new e f =
      let a' = assigned cid ip a in
      let w =
        assigned-IsValid a v cid ip new f.free
          (IsHost-of_first_free a.subnet v.block a.used ip f) in
      let d' = (persist S a' d).1 in
      elim (persist_kept a' w d) [
        | inl (p, kept) ↦ fresh ip d' new f (ground arith) kept
        | inr (t, p, refusal, r) ↦
            not_persisted ip t d' new f refusal
              (ground (
                arith,
                erase-insert_new cid ip a.allocs new,
                erase-insert_new (ip_string ip) cid a.used f.free,
              ))
              r
      ]

  -- On a valid allocator `Add` gives a known container its address again and a new one the lowest
  -- free address, which is then on the disk too. It fails only when the block is full, or when the
  -- disk refuses the allocations with that address: they cannot be encoded, the temporary file
  -- cannot be written, or it cannot be renamed. A failed call leaves the allocator as it was, and
  -- the state file too.
  pub add_lem :
      (cid : Str) (a : Allocator) (v : IsValid a) (d : S.Disk) → Adds cid a v d (add S cid a d)
  unfolding add
  add_lem cid a v d = elim (Option-cases (lookup cid a.allocs)) [
    | inr (ip, e) ↦ known ip e (ground arith)
    | inl new ↦ elim (next_free_ip_lem a v.block) [
      | inl (ip, e, f) ↦ add_new_cases cid a v d ip new e f
      | inr (t, e, full) ↦ exhausted t new full (ground arith)
    ]
  ]

  abbrev pub IsSound : Allocator × S.Disk → Type 0
  IsSound (a, d) = IsValid a × InStep a d

  pub InStep-read :
      (a : Allocator) (d d' : S.Disk)
      → S.read_file (state_path a) d' ≡ S.read_file (state_path a) d
      → InStep a d
      → InStep a d'
  InStep-read a d d' e (inl (missing, free)) = inl (e ∙ missing, free)
  InStep-read a d d' e (inr (b, m', r, u, nodup, same)) = inr (b, m', e ∙ r, u, nodup, same)

  -- After any call of `Add` the maps mirror each other, and the disk holds what the memory does.
  pub add-IsSound :
      (cid : Str) (a : Allocator) (d : S.Disk)
      → IsValid a
      → InStep a d
      → IsSound ((add S cid a d).1, (add S cid a d).2)
  add-IsSound cid a d v s = sound (add_lem cid a v d)
    where
      Goal : Result (Ip4 × Ip) × Allocator × S.Disk → Type 0
      Goal r = IsSound (r.1, r.2)

      sound : Adds cid a v d (add S cid a d) → Goal (add S cid a d)
      sound (known ip held q) = subst Goal (sym q) (v, s)
      sound (fresh ip d' new f q kept) = subst Goal (sym q) (
        assigned-IsValid a v cid ip new f.free (IsHost-of_first_free a.subnet v.block a.used ip f),
        kept,
      )
      sound (exhausted t new full q) = subst Goal (sym q) (v, s)
      sound (not_persisted ip t d' new f refusal q r) =
          subst Goal (sym q) (v, InStep-read a d d' r s)
