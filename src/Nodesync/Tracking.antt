-- ===== src/Nodesync/Tracking.antt =====
-- The record of the controller and the kernel: what is on record is programmed.
use purenet.Base.{
  ◌≡◌, ◌≢◌, ◌||◌, ◌∙◌, refl, sym, ap, subst, inl, inr, true, ◌&&◌, none, some, [], Str, str_dec,
  lookup, erase, lookup-erase, arith, Option-cases, Bool-cases,
}
use purenet.Errors.{ok, Result-cases}
use purenet.Network.Action.{Action}
use purenet.Nodesync.Node.{Node, NodeRoute, internal_ip, Controller}
use purenet.Nodesync.Handlers.{same, program, on_add, remove_old, on_update, on_delete}
use purenet.Nodesync.Backend.{
  IsBackend, IsTracking, HasOwnBlock, kept_by_add, recorded-IsTracking, erased-IsTracking,
}

module _ {S : Type 0} (add del : Str → Str → Action S (Unit {0})) (B : IsBackend add del) where
  open B use {Clear}

  program-IsTracking :
      (node : Node) (c : Controller) (s : S)
      → IsTracking add del B c s
      → node.name ≢ c.node_name
      → lookup node.name c.routes ≡ none
      → (node.pod_cidr ≢ [] → HasOwnBlock add del B node.name node.pod_cidr c)
      → (node.pod_cidr ≢ [] → Clear node.pod_cidr s)
      → IsTracking add del B (program add del node c s).0 (program add del node c s).1
  unfolding program
  program-IsTracking node c s k other new own clear =
      let cidr = node.pod_cidr in
      let ip = internal_ip node in
      elim (Bool-cases (same cidr [] || same ip [])) [
        | inl e ↦ rw e k
        | inr e ↦
            let ne : cidr ≢ [] = λ h. ground (arith, e, h) in
            let kept = kept_by_add add del B node.name cidr ip c s k new (own ne) in
            elim (Result-cases (add cidr ip s).0) [
              | inr (t, f) ↦ rw (e, f) kept
              | inl (u, f) ↦
                  let done : (add cidr ip s).0 ≡ ok tt = f in
                  rw (e, f)
                    (recorded-IsTracking add del B node.name
                      (record { pod_cidr = cidr; node_ip = ip }) c _ kept other (own ne)
                      (B.add-Installed cidr ip s (clear ne) done))
            ]
      ]

  -- `onAdd` of a node that is not on record keeps the record true; the block, if it has one, is no
  -- other node's on record, and the kernel has nothing else for it.
  pub on_add-IsTracking :
      (node : Node) (c : Controller) (s : S)
      → IsTracking add del B c s
      → lookup node.name c.routes ≡ none
      → (node.pod_cidr ≢ [] → HasOwnBlock add del B node.name node.pod_cidr c)
      → (node.pod_cidr ≢ [] → Clear node.pod_cidr s)
      → IsTracking add del B (on_add add del node c s).0 (on_add add del node c s).1
  unfolding on_add
  on_add-IsTracking node c s k new own clear = elim (str_dec node.name c.node_name) [
    | yes e ↦ ground (arith, k)
    | no ne ↦
        let done = program-IsTracking node c s k ne new own clear in
        let step : on_add add del node c s ≡ program add del node c s = ground arith in
        subst (λ (t : Controller × S). IsTracking add del B t.0 t.1) (sym step) done
  ]

  removed-IsTracking :
      (old : Node) (c : Controller) (s : S)
      → IsTracking add del B c s
      → (old.pod_cidr ≢ [] → HasOwnBlock add del B old.name old.pod_cidr c)
      → ((q : NodeRoute)
          → lookup old.name c.routes ≡ some q
          → (old.pod_cidr ≢ []) × (internal_ip old ≢ []))
      → let (c', s') = remove_old add del old c s in
        IsTracking add del B c' s'
        × (lookup old.name c'.routes ≡ none)
        × (c'.node_name ≡ c.node_name)
        × ((m : Str) (q : NodeRoute) → lookup m c'.routes ≡ some q → lookup m c.routes ≡ some q)
  unfolding remove_old
  removed-IsTracking old c s k own complete =
      let cidr = old.pod_cidr in
      let ip = internal_ip old in
      elim (Bool-cases (same cidr [] || same ip [])) [
        | inl e ↦ rw e (k, untracked e, refl, λ m q h. h)
        | inr e ↦ rw e (
          erased-IsTracking add del B old.name cidr ip c s k (own (λ h. ground (arith, e, h))),
          ground (arith, lookup-erase old.name old.name c.routes),
          refl,
          λ m q h. ground (arith, lookup-erase m old.name c.routes),
        )
      ]
    where
      untracked :
          (same old.pod_cidr [] || same (internal_ip old) []) ≡ true
          → lookup old.name c.routes ≡ none
      untracked e = elim (Option-cases (lookup old.name c.routes)) [
        | inl absent ↦ absent
        | inr (q, h) ↦ let (a, b) = complete q h in ground arith
      ]

  -- `onUpdate` keeps the record true, where the old object is the one that the last event of the
  -- node brought, so that a node on record had a CIDR and an address in it, both
  -- blocks, where not empty, are no other node's, and the kernel has nothing else for the new one.
  pub on_update-IsTracking :
      (old new : Node) (c : Controller) (s : S)
      → IsTracking add del B c s
      → old.name ≡ new.name
      → (old.pod_cidr ≢ [] → HasOwnBlock add del B old.name old.pod_cidr c)
      → (new.pod_cidr ≢ [] → HasOwnBlock add del B old.name new.pod_cidr c)
      → ((q : NodeRoute)
          → lookup old.name c.routes ≡ some q
          → (old.pod_cidr ≢ []) × (internal_ip old ≢ []))
      → (new.pod_cidr ≢ [] → Clear new.pod_cidr (remove_old add del old c s).1)
      → IsTracking add del B (on_update add del old new c s).0 (on_update add del old new c s).1
  unfolding on_update
  on_update-IsTracking old new c s k named own_old own_new complete clear =
      elim (str_dec new.name c.node_name) [
        | yes e ↦ ground (arith, k)
        | no ne ↦
            elim (Bool-cases
              (same old.pod_cidr new.pod_cidr && same (internal_ip old) (internal_ip new))) [
                | inl e ↦ ground (arith, k)
                | inr e ↦
                    let gone = removed-IsTracking old c s k own_old complete in
                    let c' = (remove_old add del old c s).0 in
                    let s' = (remove_old add del old c s).1 in
                    let done =
                      program-IsTracking new c' s' gone.0 (λ h. ne (h ∙ gone.2))
                        (ap (λ n. lookup n c'.routes) (sym named) ∙ gone.1)
                        (λ full m q other h.
                          own_new full m q (λ h'. other (h' ∙ named)) (gone.3 m q h))
                        clear in
                    let step : on_update add del old new c s ≡ program add del new c' s' =
                      ground arith in
                    subst (λ (t : Controller × S). IsTracking add del B t.0 t.1) (sym step) done
              ]
      ]

  -- After `onDelete` the record is still true, and the node is off it.
  pub on_delete-IsTracking :
      (node : Node) (c : Controller) (s : S)
      → IsTracking add del B c s
      → IsTracking add del B (on_delete add del node c s).0 (on_delete add del node c s).1
        × (lookup node.name (on_delete add del node c s).0.routes ≡ none)
  unfolding on_delete
  on_delete-IsTracking node c s k = elim (str_dec node.name c.node_name) [
    | yes e ↦ ground (arith, k, k.remote)
    | no ne ↦ elim (Option-cases (lookup node.name c.routes)) [
      | inl none_there ↦ ground (arith, k, none_there)
      | inr (r, h) ↦
          let own : HasOwnBlock add del B node.name r.pod_cidr c = λ m q other there. (
            k.apart m node.name q r other there h,
            k.apart node.name m r q (λ e. other (sym e)) h there,
          ) in
          let gone = erased-IsTracking add del B node.name r.pod_cidr r.node_ip c s k own in
          let step : on_delete add del node c s
              ≡ (record c { routes = erase node.name c.routes }, (del r.pod_cidr r.node_ip s).1) =
            ground (arith, h) in
          subst
            (λ (t : Controller × S).
              IsTracking add del B t.0 t.1 × (lookup node.name t.0.routes ≡ none))
            (sym step) (gone, ground (arith, lookup-erase node.name node.name c.routes))
    ]
  ]
