-- ===== src/Nodesync/Replace.antt =====
-- An update of a node, as a deletion and an addition.
use purenet.Base.{
  Str, ◌∙◌, ◌≡◌, ◌≢◌, ◌||◌, ◌&&◌, sym, ap, inl, inr, false, Option, none, some, [], str_dec, lookup,
  arith, if◌then◌else◌, Bool-cases,
}
use purenet.Network.Action.{Action}
use purenet.Nodesync.Node.{Node, NodeRoute, internal_ip, Controller}
use purenet.Nodesync.Handlers.{same, program, on_add, remove_old, on_update, on_delete}

-- What is on record for a node whose peer is programmed: nothing where there was nothing to
-- program.
abbrev pub entry : Node → Option NodeRoute
entry node =
    if same node.pod_cidr [] || same (internal_ip node) []
    then none
    else some (record { pod_cidr = node.pod_cidr; node_ip = internal_ip node })

module _ {S : Type 0} (add del : Str → Str → Action S (Unit {0})) where
  remove_old-node_name :
      (old : Node) (c : Controller) (s : S) → (remove_old add del old c s).0.node_name ≡ c.node_name
  unfolding remove_old
  remove_old-node_name old c s =
      ground (arith, Bool-cases (same old.pod_cidr [] || same (internal_ip old) []))

  on_delete-remove_old :
      (old : Node) (c : Controller) (s : S)
      → old.name ≢ c.node_name
      → lookup old.name c.routes ≡ entry old
      → on_delete add del old c s ≡ remove_old add del old c s
  unfolding on_delete remove_old
  on_delete-remove_old old c s ne recorded =
      elim (Bool-cases (same old.pod_cidr [] || same (internal_ip old) [])) [
        | inl e ↦ ground (arith, ne, e, recorded)
        | inr e ↦ ground (arith, ne, e, recorded)
      ]

  on_delete-own :
      (old : Node) (c : Controller) (s : S)
      → old.name ≡ c.node_name
      → on_delete add del old c s ≡ (c, s)
  unfolding on_delete
  on_delete-own old c s e = ground (arith, e)

  -- Where the peer of the old object is on record, and the CIDR or the address is another,
  -- `onUpdate` leaves the record and the kernel exactly as `onDelete` of the old object and then
  -- `onAdd` of the new one do, whatever the calls that program peers answer.
  pub on_update-replaces :
      (old new : Node) (c : Controller) (s : S)
      → old.name ≡ new.name
      → (same old.pod_cidr new.pod_cidr && same (internal_ip old) (internal_ip new)) ≡ false
      → lookup old.name c.routes ≡ entry old
      → on_update add del old new c s
        ≡ (let (c', s') = on_delete add del old c s in on_add add del new c' s')
  unfolding on_update on_add
  on_update-replaces old new c s named changed recorded = elim (str_dec new.name c.node_name) [
    | yes e ↦ ground (arith, e, on_delete-own old c s (named ∙ e))
    | no ne ↦
        let updated : on_update add del old new c s ≡ after (remove_old add del old c s) =
          ground (arith, ne, changed) in
        let added : after (remove_old add del old c s) ≡ added_after (remove_old add del old c s) =
          ground (arith, ne, remove_old-node_name old c s) in
        updated
        ∙ added
        ∙ ap added_after (sym (on_delete-remove_old old c s (λ e. ne (sym named ∙ e)) recorded))
  ]
    where
      after : Controller × S → Controller × S
      after (c', s') = program add del new c' s'

      added_after : Controller × S → Controller × S
      added_after (c', s') = on_add add del new c' s'
