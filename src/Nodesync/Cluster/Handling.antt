-- ===== src/Nodesync/Cluster/Handling.antt =====
-- What the handlers make of the record, node by node.
use purenet.Base.{
  ◌≡◌, ◌≢◌, inl, inr, refl, sym, ◌&&◌, ◌||◌, none, some, [], Str, str_dec, lookup, insert, erase,
  lookup-insert, lookup-erase, arith, Option-cases, Bool-cases,
}
use purenet.Errors.{Result-cases}
use purenet.Network.Action.{Action}
use purenet.Nodesync.Node.{Node, internal_ip, Controller}
use purenet.Nodesync.Handlers.{same, program, remove_old, on_add, on_update, on_delete}
use purenet.Nodesync.Cluster.Defs.{
  Nodes, Failures, route_of, failures, failures_add, failures_update,
}
use purenet.Nodesync.Cluster.Agreement.{
  AgreesAt, moved-AgreesAt, off-AgreesAt, on-AgreesAt, own-AgreesAt, alike-AgreesAt, unknown_off,
}

module _ {S : Type 0} (add del : Str → Str → Action S (Unit {0})) where
  program-AgreesAt :
      (n : Node) (f : Failures) (w : Nodes) (c : Controller) (s : S) (m : Str)
      → lookup n.name c.routes ≡ none
      → (m ≢ n.name → AgreesAt m f w c)
      → AgreesAt m (failures add del n s f) (insert n.name n w) (program add del n c s).0
  unfolding program failures
  program-AgreesAt n f w c s m off old =
      elim (Bool-cases (same n.pod_cidr [] || same (internal_ip n) [])) [
        | inl e ↦ elim (str_dec n.name m) [
          | yes it ↦
              off-AgreesAt m _ _ _ (ground (arith, e, off, it)) (λ a h ne full addr.
                ground (arith, e, it, h, full, addr, lookup-insert m n.name n w))
          | no other ↦
              moved-AgreesAt m f _ w _ c _ (ground (arith, e))
                (ground (arith, other, lookup-insert m n.name n w)) (ground (arith, e))
                (λ bad. ground (arith, e, bad)) (old (λ h. other (sym h)))
        ]
        | inr e ↦ elim (Result-cases (add n.pod_cidr (internal_ip n) s).0) [
          | inr (t, r) ↦ elim (str_dec n.name m) [
            | yes it ↦
                off-AgreesAt m _ _ _ (ground (arith, e, r, off, it))
                  (λ a h ne full addr. ground (arith, e, r, it))
            | no other ↦
                moved-AgreesAt m f _ w _ c _ (ground (arith, e, r))
                  (ground (arith, other, lookup-insert m n.name n w)) (ground (arith, e, r))
                  (λ bad. ground (arith, e, r, bad)) (old (λ h. other (sym h)))
          ]
          | inl (u, r) ↦ elim (str_dec n.name m) [
            | yes it ↦
                on-AgreesAt m _ _ _ n
                  (ground (arith, e, r, it, lookup-insert m n.name (route_of n) c.routes))
                  (ground (arith, it, lookup-insert m n.name n w)) (λ h. ground (arith, e, h))
                  (λ h. ground (arith, e, h))
            | no other ↦
                moved-AgreesAt m f _ w _ c _
                  (ground (arith, e, r, other, lookup-insert m n.name (route_of n) c.routes))
                  (ground (arith, other, lookup-insert m n.name n w)) (ground (arith, e, r))
                  (λ bad. ground (arith, e, r, bad)) (old (λ h. other (sym h)))
          ]
        ]
      ]

  pub on_add-AgreesAt :
      (n : Node) (f : Failures) (w : Nodes) (c : Controller) (s : S)
      → lookup n.name w ≡ none
      → ((m : Str) → AgreesAt m f w c)
      → (m : Str)
      → AgreesAt m (failures_add add del n c s f) (insert n.name n w) (on_add add del n c s).0
  unfolding on_add failures_add
  on_add-AgreesAt n f w c s new old m =
      let off = unknown_off n.name f w c (old n.name) new in
      elim (str_dec n.name c.node_name) [
        | no other ↦
            let done = program-AgreesAt n f w c s m off (λ h. old m) in
            moved-AgreesAt m _ _ (insert n.name n w) _ (program add del n c s).0 _
              (ground (arith, other)) refl (ground (arith, other))
              (λ bad. ground (arith, other, bad)) done
        | yes own ↦
            moved-AgreesAt m f _ (insert n.name n w) _ c _ (ground (arith, own)) refl
              (ground (arith, own)) (λ bad. ground (arith, own, bad))
              (own-AgreesAt n f w c m own (ground (arith, own, off)) (old m))
      ]

  -- A node has its old route off the record before the new one is programmed.
  remove_old-off :
      (old : Node) (f : Failures) (w : Nodes) (c : Controller) (s : S)
      → lookup old.name w ≡ some old
      → AgreesAt old.name f w c
      → lookup old.name (remove_old add del old c s).0.routes ≡ none
  unfolding remove_old
  remove_old-off old f w c s here agrees =
      elim (Bool-cases (same old.pod_cidr [] || same (internal_ip old) [])) [
        | inr e ↦ ground (arith, e, lookup-erase old.name old.name c.routes)
        | inl e ↦ elim (Option-cases (lookup old.name c.routes)) [
          | inl off ↦ ground (arith, e, off)
          | inr (r, h) ↦
              let (a, there, is, full, addr) = agrees.known r h in
              let it : a ≡ old = ground (arith, there, here) in ground (arith, e, it, full, addr)
        ]
      ]

  -- The part of `onUpdate` behind its early returns.
  changed-AgreesAt :
      (old new : Node) (f : Failures) (w : Nodes) (c : Controller) (s : S)
      → lookup old.name w ≡ some old
      → old.name ≡ new.name
      → ((m : Str) → AgreesAt m f w c)
      → (m : Str)
      → let (c', s') = remove_old add del old c s in
        AgreesAt m (failures add del new s' f) (insert new.name new w) (program add del new c' s').0
  unfolding remove_old
  changed-AgreesAt old new f w c s here named agrees m =
      let c' = (remove_old add del old c s).0 in
      let s' = (remove_old add del old c s).1 in
      let empty = Bool-cases (same old.pod_cidr [] || same (internal_ip old) []) in
      program-AgreesAt new f w c' s' m
        (ground (arith, named, remove_old-off old f w c s here (agrees old.name)))
        (λ h.
          moved-AgreesAt m f f w w c c'
            (ground (arith, named, h, empty, lookup-erase m old.name c.routes)) refl
            (ground (arith, empty)) (λ bad. bad) (agrees m))

  pub on_update-AgreesAt :
      (old new : Node) (f : Failures) (w : Nodes) (c : Controller) (s : S)
      → lookup old.name w ≡ some old
      → old.name ≡ new.name
      → lookup c.node_name c.routes ≡ none
      → ((m : Str) → AgreesAt m f w c)
      → (m : Str)
      → AgreesAt m
          (failures_update add del old new c s f)
          (insert new.name new w)
          (on_update add del old new c s).0
  unfolding on_update failures_update
  on_update-AgreesAt old new f w c s here named remote agrees m =
      let v = insert new.name new w in
      elim (str_dec new.name c.node_name) [
        | yes own ↦
            moved-AgreesAt m f _ v _ c _ (ground (arith, own)) refl (ground (arith, own))
              (λ bad. ground (arith, own, bad)) (own-AgreesAt new f w c m own remote (agrees m))
        | no other ↦
            elim (Bool-cases
              (same old.pod_cidr new.pod_cidr && same (internal_ip old) (internal_ip new))) [
                | inl e ↦
                    let alike : route_of old ≡ route_of new = ground (arith, e) in
                    moved-AgreesAt m f _ v _ c _ (ground (arith, other, e)) refl
                      (ground (arith, other, e)) (λ bad. ground (arith, other, e, bad))
                      (alike-AgreesAt old new f w c m here named alike (agrees m))
                | inr e ↦
                    let s' = (remove_old add del old c s).1 in
                    moved-AgreesAt m (failures add del new s' f) _ v _
                      (program add del new (remove_old add del old c s).0 s').0 _
                      (ground (arith, other, e)) refl (ground (arith, other, e))
                      (λ bad. ground (arith, other, e, bad))
                      (changed-AgreesAt old new f w c s here named agrees m)
              ]
      ]

  pub on_delete-AgreesAt :
      (n : Node) (f : Failures) (w : Nodes) (c : Controller) (s : S)
      → lookup c.node_name c.routes ≡ none
      → ((m : Str) → AgreesAt m f w c)
      → (m : Str) → AgreesAt m f (erase n.name w) (on_delete add del n c s).0
  unfolding on_delete
  on_delete-AgreesAt n f w c s remote old m = elim (str_dec n.name m) [
    | yes it ↦
        off-AgreesAt m _ _ _
          (ground (
            arith,
            it,
            remote,
            Option-cases (lookup n.name c.routes),
            lookup-erase m n.name c.routes,
          ))
          (λ a h ne full addr. ground (arith, it, h, lookup-erase m n.name w))
    | no else ↦
        moved-AgreesAt m f f w _ c _
          (ground
            (arith, else, Option-cases (lookup n.name c.routes), lookup-erase m n.name c.routes))
          (ground (arith, else, lookup-erase m n.name w))
          (ground (arith, Option-cases (lookup n.name c.routes))) (λ bad. bad) (old m)
  ]
