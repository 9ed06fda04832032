-- ===== src/Agent/Server/Pods.antt =====
-- What the commands leave in the allocator.
use purenet.Base.{
  ◌≡◌, ◌≢◌, ◌⊎◌, inl, inr, refl, sym, ap, subst, none, some, [], ◌∷◌, Str, ◌∙◌, lookup,
  lookup-insert, arith, Option-cases,
}
use purenet.Errors.{ok, Result-cases}
use purenet.Inet.{Ip, Ip4}
use purenet.Network.Kernel.{Reply-cases, Kernel}
use purenet.Network.Action.{Action}
use purenet.Network.Veth.{setup_host_route}
use purenet.Cni.{CniRequest}
use purenet.Ipam.Store.{Store, IsLawful}
use purenet.Ipam.{Allocator, add, del, check}
use purenet.Ipam.Invariant.{IsValid}
use purenet.Ipam.Calls.{IsSound, Adds, known, fresh, exhausted, not_persisted, add_lem, add-IsSound}
use purenet.Ipam.Release.{del-IsSound, del-lookup}
use purenet.Agent.Server.Defs.{
  Pod, CniResult, Codecs, Versioned, current, Versioned-cases, for_each, configure_pod, prepare,
  result_of, attach,
}
use purenet.Agent.Server.Asked.{IsPodOf, prepare-IsPodOf}
use purenet.Agent.Server.Handlers.{World, allocate_and_attach, cmd_add, cmd_del, cmd_check}

module _ (K : Kernel) (S : Store) where
  -- The commands touch the allocator only by its calls.
  pub alloc-cmd_add :
      (C : Codecs) (req : CniRequest) (w : World K S)
      → let w' = (cmd_add K S C req w).1 in
        ((w'.alloc ≡ w.alloc) × (w'.disk ≡ w.disk))
        ⊎ ((w'.alloc ≡ (add S req.container_id w.alloc w.disk).1)
            × (w'.disk ≡ (add S req.container_id w.alloc w.disk).2))
  unfolding cmd_add allocate_and_attach
  alloc-cmd_add C req w = elim (Result-cases (prepare K C req w.kernel).0) [
    | inr (e, h) ↦ inl (ground (arith, h), ground (arith, h))
    | inl (pod, h) ↦ elim (Result-cases (add S req.container_id w.alloc w.disk).0) [
      | inr (e, h') ↦ inr (ground (arith, h, h'), ground (arith, h, h'))
      | inl (r, h') ↦ inr (ground (arith, h, h'), ground (arith, h, h'))
    ]
  ]

  pub alloc-cmd_del :
      (req : CniRequest) (w : World K S)
      → let w' = (cmd_del K S req w).1 in
        (w'.alloc ≡ (del S req.container_id w.alloc w.disk).1)
        × (w'.disk ≡ (del S req.container_id w.alloc w.disk).2)
  unfolding cmd_del
  alloc-cmd_del req w =
      let e = (del S req.container_id w.alloc w.disk).0 in
      elim (Option-cases e) [
        | inr (t, h) ↦ (ground (arith, h), ground (arith, h))
        | inl h ↦ (torn_down req.netns refl h, torn_down_disk req.netns refl h)
      ]
    where
      torn_down :
          (n : Str)
          → req.netns ≡ n
          → (del S req.container_id w.alloc w.disk).0 ≡ none
          → (cmd_del K S req w).1.alloc ≡ (del S req.container_id w.alloc w.disk).1
      torn_down [] e h = ground (arith, e, h)
      torn_down (c ∷ n) e h = ground (arith, e, h, Reply-cases (K.get_ns (c ∷ n) w.kernel))

      torn_down_disk :
          (n : Str)
          → req.netns ≡ n
          → (del S req.container_id w.alloc w.disk).0 ≡ none
          → (cmd_del K S req w).1.disk ≡ (del S req.container_id w.alloc w.disk).2
      torn_down_disk [] e h = ground (arith, e, h)
      torn_down_disk (c ∷ n) e h = ground (arith, e, h, Reply-cases (K.get_ns (c ∷ n) w.kernel))

  pub alloc-cmd_check :
      (req : CniRequest) (w : World K S)
      → let w' = (cmd_check K S req w).1 in (w'.alloc ≡ w.alloc) × (w'.disk ≡ w.disk)
  unfolding cmd_check
  alloc-cmd_check req w = elim (Result-cases (check req.container_id w.alloc)) [
    | inr (e, h) ↦ (ground (arith, h), ground (arith, h))
    | inl (ip, h) ↦ (ground (arith, h), ground (arith, h))
  ]

module _ (K : Kernel) (S : Store) (L : IsLawful S) where
  -- The maps of the allocator mirror each other, and the disk holds what the memory does.
  abbrev pub IsGood : World K S → Type 0
  IsGood w = IsSound S L (w.alloc, w.disk)

  carried :
      (w : World K S) (a : Allocator) (d : S.Disk)
      → w.alloc ≡ a
      → w.disk ≡ d
      → IsSound S L (a, d)
      → IsGood w
  carried w a d e f sound =
      subst (λ (t : Allocator). IsSound S L (t, w.disk)) (sym e)
        (subst (λ (t : S.Disk). IsSound S L (a, t)) (sym f) sound)

  pub cmd_add-IsGood :
      (C : Codecs) (req : CniRequest) (w : World K S) → IsGood w → IsGood (cmd_add K S C req w).1
  cmd_add-IsGood C req w good = elim (alloc-cmd_add K S C req w) [
    | inl (e, f) ↦ carried (cmd_add K S C req w).1 w.alloc w.disk e f good
    | inr (e, f) ↦
        carried (cmd_add K S C req w).1 (add S req.container_id w.alloc w.disk).1
          (add S req.container_id w.alloc w.disk).2 e f
          (add-IsSound S L req.container_id w.alloc w.disk good.0 good.1)
  ]

  pub cmd_del-IsGood : (req : CniRequest) (w : World K S) → IsGood w → IsGood (cmd_del K S req w).1
  cmd_del-IsGood req w good =
      let (e, f) = alloc-cmd_del K S req w in
      carried (cmd_del K S req w).1 (del S req.container_id w.alloc w.disk).1
        (del S req.container_id w.alloc w.disk).2 e f
        (del-IsSound S L req.container_id w.alloc w.disk good.0 good.1)

  pub cmd_check-IsGood :
      (req : CniRequest) (w : World K S) → IsGood w → IsGood (cmd_check K S req w).1
  cmd_check-IsGood req w good =
      let (e, f) = alloc-cmd_check K S req w in
      carried (cmd_check K S req w).1 w.alloc w.disk e f good

  pub add-lookup :
      (cid : Str) (a : Allocator) (d : S.Disk) (ip : Ip4) (gw : Ip)
      → IsValid a
      → (add S cid a d).0 ≡ ok (ip, gw)
      → (lookup cid (add S cid a d).1.allocs ≡ some ip)
        × ((add S cid a d).1.subnet ≡ a.subnet)
        × (gw ≡ a.gateway)
  add-lookup cid a d ip gw v done = by_case (add_lem S L cid a v d)
    where
      by_case :
          Adds S L cid a v d (add S cid a d)
          → (lookup cid (add S cid a d).1.allocs ≡ some ip)
            × ((add S cid a d).1.subnet ≡ a.subnet)
            × (gw ≡ a.gateway)
      by_case (known t held q) = (ground (arith, q, held), ground (arith, q), ground (arith, q))
      by_case (fresh t d' new f q kept) = (
        ground (arith, q, lookup-insert cid cid t a.allocs),
        ground (arith, q),
        ground (arith, q),
      )
      by_case (exhausted t new full q) = ground (arith, q)
      by_case (not_persisted t e d' new f refusal q r) = ground (arith, q)

  attach_ok :
      (C : Codecs) (req : CniRequest) (pod : Pod) (result typed : CniResult) (s : K.State)
      → (attach K C req pod result s).0 ≡ ok typed
      → C.get_as_version result pod.conf.cni_version ≡ current typed
  unfolding attach
  attach_ok C req pod result typed s done =
      by_version (C.get_as_version result pod.conf.cni_version) refl
    where
      routed : Action K.State Unit
      routed = for_each (λ ipc. setup_host_route K pod.host_iface.name ipc.address.ip) result.ips

      by_version :
          (t : Versioned)
          → C.get_as_version result pod.conf.cni_version ≡ t
          → C.get_as_version result pod.conf.cni_version ≡ current typed
      by_version t e = ground (
        arith,
        e,
        Versioned-cases t,
        Result-cases (routed s).0,
        Result-cases (K.ns_do pod.ns (configure_pod K req result) (routed s).1).0,
      )

  pub cmd_add_held :
      (C : Codecs) (req : CniRequest) (result : CniResult) (w : World K S)
      → IsValid w.alloc
      → (cmd_add K S C req w).0 ≡ ok result
      → (ip : Ip4) × (pod : Pod) × (lookup req.container_id (cmd_add K S C req w).1.alloc.allocs
          ≡ some ip)
        × (p : IsPodOf C req pod) × (C.get_as_version
              (result_of pod w.alloc.subnet ip w.alloc.gateway)
              p.asked.cni_version
            ≡ current result)
  unfolding cmd_add allocate_and_attach attach
  cmd_add_held C req result w v done =
      let s1 = (prepare K C req w.kernel).1 in
      let call = add S req.container_id w.alloc w.disk in
      elim (Result-cases (prepare K C req w.kernel).0) [
        | inr (e, h) ↦ ground (arith, h)
        | inl (pod, h) ↦ elim (Result-cases call.0) [
          | inr (e, h') ↦ ground (arith, h, h')
          | inl ((ip, gw), h') ↦
              let (held, block, gateway) = add-lookup req.container_id w.alloc w.disk ip gw v h' in
              let p = prepare-IsPodOf K C req pod w.kernel h in
              let there : (attach K C req pod (result_of pod call.1.subnet ip gw) s1).0
                  ≡ ok result =
                ground (arith, h, h') in
              (
                ip,
                pod,
                ground (arith, h, h', held),
                p,
                ground (
                  arith,
                  attach_ok C req pod (result_of pod call.1.subnet ip gw) result s1 there,
                  block,
                  gateway,
                  p.version,
                ),
              )
        ]
      ]

  -- On a valid allocator, after a `cmdDel` that succeeds the container holds no address, and no
  -- other container notices.
  pub cmd_del_released :
      (req : CniRequest) (w : World K S)
      → IsValid w.alloc
      → (cmd_del K S req w).0 ≡ ok tt
      → let w' = (cmd_del K S req w).1 in
        (lookup req.container_id w'.alloc.allocs ≡ none)
        × ((c : Str) → c ≢ req.container_id → lookup c w'.alloc.allocs ≡ lookup c w.alloc.allocs)
  unfolding cmd_del
  cmd_del_released req w v done =
      let (e, f) = alloc-cmd_del K S req w in
      let call = del S req.container_id w.alloc w.disk in
      elim (Option-cases call.0) [
        | inr (t, h) ↦ ground (arith, h)
        | inl h ↦ (
          ap (λ (a : Allocator). lookup req.container_id a.allocs) e
              ∙ (del-lookup S L req.container_id req.container_id w.alloc w.disk v).0 h,
          λ c ne.
              ap (λ (a : Allocator). lookup c a.allocs) e
              ∙ (del-lookup S L req.container_id c w.alloc w.disk v).1 ne,
        )
      ]
