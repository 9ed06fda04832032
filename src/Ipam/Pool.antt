-- ===== src/Ipam/Pool.antt =====
-- What pkg/ipam promises, without its maps, its file and its texts: who holds which address.
use purenet.Base.{
  ◌<◌, ◌≡◌, ◌≢◌, ◌∙◌, refl, sym, ap, subst, fun_ext, inl, inr, Option, none, some, List, [], ◌∷◌,
  Str, str_dec, ite, lookup, lookup-insert, lookup-erase, arith, Option-cases,
}
use purenet.Errors.{GoError, Result, ok, err}
use purenet.Inet.{Ip, Ip4, IpNet, Inet6, number4, ip_string, parse_cidr}
use purenet.Ipam.Store.{Store, IsLawful}
use purenet.Ipam.Defs.{Allocator, add, del, new}
use purenet.Ipam.Scan.{IsFirstFree}
use purenet.Ipam.Invariant.{IsHost, IsValid, IsHost-of_first_free, ip_string_injective}
use purenet.Ipam.Calls.{IsSound, Adds, known, fresh, exhausted, add_lem}
use purenet.Ipam.Calls as Calls
use purenet.Ipam.Release.{Dels, absent, gone, restored, restored-Same, del_lem}
use purenet.Ipam.Release as Release
use purenet.Ipam.Restart.{new_restart}
use purenet.Ipam.Run.{Step, adds, dels, restarts, Reach, here, next, made_of_new, Reach-IsSound}

abbrev pub Held : Type 0
Held = Str → Option Ip4

abbrev pub assign : Str → Ip4 → Held → Held
assign cid ip h c = ite (str_dec cid c) (some ip) (h c)

abbrev pub release : Str → Held → Held
release cid h c = ite (str_dec cid c) none (h c)

-- What the caller of a method sees, and that the agent has started again.
pub data Observation : Type 0 where
  given : Str → Ip4 → Observation
  refused : Str → Observation
  released : Str → Observation
  not_released : Str → Observation
  restarted : Observation

-- The lowest host address that nobody holds.
pub record IsLowest (n : IpNet) (h : Held) (ip : Ip4) : Type 0 where
  pub host : IsHost n ip
  pub free : (c : Str) → h c ≢ some ip
  pub lowest : (j : Ip4) → IsHost n j → number4 j < number4 ip → (c : Str) × (h c ≡ some j)

-- The pool of a block: a container keeps its address until it is released, a new one gets the
-- lowest that is free, a call may be refused without a change, and a restart changes nothing.
pub data Allows (n : IpNet) (h : Held) : Observation → Held → Type 0 where
  again : (c : Str) (ip : Ip4) → h c ≡ some ip → Allows n h (given c ip) h
  first :
      (c : Str) (ip : Ip4) → h c ≡ none → IsLowest n h ip → Allows n h (given c ip) (assign c ip h)
  refuses : (c : Str) → h c ≡ none → Allows n h (refused c) h
  drops : (c : Str) → Allows n h (released c) (release c h)
  keeps : (c : Str) → h c ≢ none → Allows n h (not_released c) h
  survives : Allows n h restarted h

-- The last observation first.
pub data Traces (n : IpNet) (h : Held) : List Observation → Held → Type 0 where
  start : Traces n h [] h
  more :
      {os : List Observation} {k l : Held} (o : Observation)
      → Traces n h os k
      → Allows n k o l
      → Traces n h (o ∷ os) l

abbrev pub view : Allocator → Held
view a c = lookup c a.allocs

module _ (S : Store) (L : IsLawful S) (v6 : Inet6) (pod_cidr : Str) where
  abbrev pub State : Type 0
  State = Allocator × S.Disk

  unfoldable pub observed : {s t : State} → Step S L v6 pod_cidr s t → Observation
  observed (adds cid a d) = elim (add S cid a d).0 [
    | ok (ip, gw) ↦ given cid ip
    | err e ↦ refused cid
  ]
  observed (dels cid a d) = elim (del S cid a d).0 [
    | none ↦ released cid
    | some e ↦ not_released cid
  ]
  observed (restarts a b d parsed made) = restarted

  unfoldable pub observations : {s t : State} → Reach S L v6 pod_cidr s t → List Observation
  unfolding observed
  observations here = []
  observations (next r st) = observed st ∷ observations r

  IsLowest-of_first_free :
      (a : Allocator) (v : IsValid a) (ip : Ip4)
      → IsFirstFree a.subnet v.block.base a.used ip
      → IsLowest a.subnet (view a) ip
  IsLowest-of_first_free a v ip f = record {
    host = IsHost-of_first_free a.subnet v.block a.used ip f;
    free = λ c h. ground (arith, v.forward c ip h, f.free);
    lowest = λ j host less.
        let one : host.base ≡ v.block.base = ground (arith, host.is_v4, v.block.is_v4) in
        elim (Option-cases (lookup (ip_string j) a.used)) [
          | inl e ↦ absurd (f.lowest j host.bytes (ground (arith, one, host.above)) less e)
          | inr (c, e) ↦
              let (ip', held, text) = v.backward (ip_string j) c e in
              let same = ip_string_injective j ip' host.bytes (v.hosts c ip' held).bytes text in
              (c, held ∙ ap some (sym same))
        ];
  }

  add-Allows :
      (cid : Str) (a : Allocator) (d : S.Disk)
      → IsSound S L (a, d)
      → Allows a.subnet (view a) (observed (adds cid a d)) (view (add S cid a d).1)
        × ((add S cid a d).1.subnet ≡ a.subnet)
  unfolding observed
  add-Allows cid a d (v, i) = go (add_lem S L cid a v d)
    where
      Goal : Result (Ip4 × Ip) × Allocator × S.Disk → Type 0
      Goal r =
          Allows a.subnet (view a)
            (elim r.0 as (λ _. Observation) [ ok (ip, gw) ↦ given cid ip | err e ↦ refused cid ])
            (view r.1)
          × (r.1.subnet ≡ a.subnet)

      go : Adds S L cid a v d (add S cid a d) → Goal (add S cid a d)
      go (known ip held q) = subst Goal (sym q) (again cid ip held, refl)
      go (fresh ip d' new f q kept) = subst Goal (sym q) (
        subst (Allows a.subnet (view a) (given cid ip))
            (fun_ext (λ c. sym (lookup-insert c cid ip a.allocs)))
            (first cid ip new (IsLowest-of_first_free a v ip f)),
        refl,
      )
      go (exhausted e new full q) = subst Goal (sym q) (refuses cid new, refl)
      go (Calls.not_persisted ip e d' new f refusal q r) =
          subst Goal (sym q) (refuses cid new, refl)

  del-Allows :
      (cid : Str) (a : Allocator) (d : S.Disk)
      → IsSound S L (a, d)
      → Allows a.subnet (view a) (observed (dels cid a d)) (view (del S cid a d).1)
        × ((del S cid a d).1.subnet ≡ a.subnet)
  unfolding observed
  del-Allows cid a d (v, i) = go (del_lem S L cid a d v)
    where
      Goal : Option GoError × Allocator × S.Disk → Type 0
      Goal r =
          Allows a.subnet (view a)
            (elim r.0 as (λ _. Observation) [ none ↦ released cid | some e ↦ not_released cid ])
            (view r.1)
          × (r.1.subnet ≡ a.subnet)

      go : Dels S L cid a d (del S cid a d) → Goal (del S cid a d)
      go (absent e q) = subst Goal (sym q) (
        subst (Allows a.subnet (view a) (released cid)) (fun_ext (λ c. ground (arith, e)))
            (drops cid),
        refl,
      )
      go (gone ip d' held q kept) = subst Goal (sym q) (
        subst (Allows a.subnet (view a) (released cid))
            (fun_ext (λ c. sym (lookup-erase c cid a.allocs))) (drops cid),
        refl,
      )
      go (Release.not_persisted ip e d' held refusal q r) = subst Goal (sym q) (
        subst (Allows a.subnet (view a) (not_released cid))
            (fun_ext (λ c. sym ((restored-Same a v cid ip held).0 c)))
            (keeps cid (λ h. cc (held, h))),
        refl,
      )

  restart-Allows :
      (a b : Allocator) (d : S.Disk)
      → parse_cidr v6 pod_cidr ≡ some a.subnet
      → (new S v6 pod_cidr a.data_dir d).0 ≡ ok b
      → IsSound S L (a, d)
      → Allows a.subnet (view a) restarted (view b) × (b.subnet ≡ a.subnet)
  restart-Allows a b d parsed made (v, i) =
      let (b', q, r) =
        new_restart S L v6 a d pod_cidr v i parsed
          (made_of_new S L v6 pod_cidr a b d parsed made) in
      let same : b' ≡ b = ground (arith, q, made) in
      subst (λ (c : Allocator). Allows a.subnet (view a) restarted (view c) × (c.subnet ≡ a.subnet))
        same
        (
          subst (Allows a.subnet (view a) restarted) (fun_ext (λ c. sym (r.allocs c))) survives,
          r.subnet,
        )

  Step-Allows :
      {s t : State} (st : Step S L v6 pod_cidr s t)
      → IsSound S L s
      → Allows s.0.subnet (view s.0) (observed st) (view t.0) × (t.0.subnet ≡ s.0.subnet)
  unfolding observed
  Step-Allows (adds cid a d) v = add-Allows cid a d v
  Step-Allows (dels cid a d) v = del-Allows cid a d v
  Step-Allows (restarts a b d parsed made) v = restart-Allows a b d parsed made v

  run-Traces :
      {s t : State}
      → IsSound S L s
      → (r : Reach S L v6 pod_cidr s t)
      → Traces s.0.subnet (view s.0) (observations r) (view t.0) × (t.0.subnet ≡ s.0.subnet)
  unfolding observations
  run-Traces v here = (start, refl)
  run-Traces {s} {t} v (next {t = m} r st) =
      let (before, kept) = run-Traces v r in
      let (allowed, same) = Step-Allows st (Reach-IsSound S L v6 pod_cidr r v) in
      (
        more (observed st) before
            (subst (λ (n : IpNet). Allows n (view m.0) (observed st) (view t.0)) kept allowed),
        same ∙ kept,
      )

  -- The allocator implements the pool: from a valid allocator in step with the disk, whatever calls
  -- of `Add` and `Del`, failures of the disk and restarts come, what their callers see is what a
  -- pool of the pod CIDR allows, and the containers hold in the end what they hold in the pool.
  pub observations-Traces :
      (s t : State)
      → IsSound S L s
      → (r : Reach S L v6 pod_cidr s t) → Traces s.0.subnet (view s.0) (observations r) (view t.0)
  observations-Traces s t v r = (run-Traces v r).0
