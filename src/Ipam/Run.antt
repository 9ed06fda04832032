-- ===== src/Ipam/Run.antt =====
-- The life of an allocator: calls in any order, failures of the disk and restarts of the agent.
use purenet.Base.{◌≡◌, sym, ap, subst, ◌∙◌, inl, inr, none, some, Str, lookup, arith, Option-cases}
use purenet.Errors.{ok}
use purenet.Inet.{Ip4, Inet6, parse_cidr}
use purenet.Ipam.Store.{Store, IsLawful}
use purenet.Ipam.Defs.{Allocator, state_path, add, del, new}
use purenet.Ipam.Invariant.{IsHost, IsValid, no_double_allocation}
use purenet.Ipam.Calls.{InStep, IsSound, add-IsSound}
use purenet.Ipam.Release.{del-IsSound}
use purenet.Ipam.Restart.{new_restart, IsRestored}

module _ (S : Store) (L : IsLawful S) (v6 : Inet6) (pod_cidr : Str) where
  -- A call, or a restart with the same pod CIDR and data directory, which may also come when the
  -- process died and only the disk is left.
  pub data Step : Allocator × S.Disk → Allocator × S.Disk → Type 0 where
    adds :
        (cid : Str) (a : Allocator) (d : S.Disk)
        → Step (a, d) ((add S cid a d).1, (add S cid a d).2)
    dels :
        (cid : Str) (a : Allocator) (d : S.Disk)
        → Step (a, d) ((del S cid a d).1, (del S cid a d).2)
    restarts :
        (a b : Allocator) (d : S.Disk)
        → parse_cidr v6 pod_cidr ≡ some a.subnet
        → (new S v6 pod_cidr a.data_dir d).0 ≡ ok b
        → Step (a, d) (b, (new S v6 pod_cidr a.data_dir d).1)

  pub data Reach (s : Allocator × S.Disk) : Allocator × S.Disk → Type 0 where
    here : Reach s s
    next : {t u : Allocator × S.Disk} → Reach s t → Step t u → Reach s u

  -- `New` fails where the data directory cannot be made.
  pub made_of_new :
      (a b : Allocator) (d : S.Disk)
      → parse_cidr v6 pod_cidr ≡ some a.subnet
      → (new S v6 pod_cidr a.data_dir d).0 ≡ ok b
      → (S.mkdir_all a.data_dir d).0 ≡ none
  unfolding new
  made_of_new a b d parsed e = elim (Option-cases (S.mkdir_all a.data_dir d).0) [
    | inl made ↦ made
    | inr (t, failed) ↦ ground arith
  ]

  restart-InStep :
      (a b : Allocator) (d : S.Disk)
      → IsRestored a b
      → InStep S L a d
      → InStep S L b (S.mkdir_all a.data_dir d).1
  unfolding state_path
  restart-InStep a b d r (inl (missing, free)) = inl (
    rw r.data_dir (L.read-mkdir_all a.data_dir (state_path a) d ∙ missing),
    λ s. r.used s ∙ free s,
  )
  restart-InStep a b d r (inr (x, m', read, u, nodup, same)) = inr (
    x,
    m',
    rw r.data_dir (L.read-mkdir_all a.data_dir (state_path a) d ∙ read),
    u,
    nodup,
    λ s. same s ∙ sym (r.used s),
  )

  pub restarted-IsSound :
      (a b : Allocator) (d : S.Disk)
      → parse_cidr v6 pod_cidr ≡ some a.subnet
      → (new S v6 pod_cidr a.data_dir d).0 ≡ ok b
      → IsValid a
      → InStep S L a d
      → IsSound S L (b, (new S v6 pod_cidr a.data_dir d).1)
  restarted-IsSound a b d parsed e v i =
      let (b', q, r) = new_restart S L v6 a d pod_cidr v i parsed (made_of_new a b d parsed e) in
      let same : b' ≡ b = ground (arith, q, e) in
      subst (λ (d' : S.Disk). IsSound S L (b, d')) (sym (ap (λ t. t.1) q))
        (subst (λ (c : Allocator). IsSound S L (c, (S.mkdir_all a.data_dir d).1)) same
          (r.valid, restart-InStep a b' d r i))

  Step-IsSound : {s t : Allocator × S.Disk} → Step s t → IsSound S L s → IsSound S L t
  Step-IsSound (adds cid a d) (v, i) = add-IsSound S L cid a d v i
  Step-IsSound (dels cid a d) (v, i) = del-IsSound S L cid a d v i
  Step-IsSound (restarts a b d parsed e) (v, i) = restarted-IsSound a b d parsed e v i

  pub Reach-IsSound : {s t : Allocator × S.Disk} → Reach s t → IsSound S L s → IsSound S L t
  Reach-IsSound here v = v
  Reach-IsSound (next r st) v = Step-IsSound st (Reach-IsSound r v)

  -- From a valid allocator in step with the disk, in every state that calls, disk failures and
  -- restarts lead to, two containers never hold one
  -- address, every address held is a host address of the pod CIDR, and a restart would find the
  -- allocations that the memory has.
  pub reachable_safe :
      (s t : Allocator × S.Disk)
      → IsSound S L s
      → Reach s t
      → InStep S L t.0 t.1
        × ((c e : Str) (ip : Ip4)
            → lookup c t.0.allocs ≡ some ip
            → lookup e t.0.allocs ≡ some ip
            → c ≡ e)
        × ((c : Str) (ip : Ip4) → lookup c t.0.allocs ≡ some ip → IsHost t.0.subnet ip)
  reachable_safe s t v r =
      let (valid, i) = Reach-IsSound r v in
      (i, λ c e ip p q. no_double_allocation t.0 c e ip valid p q, valid.hosts)
