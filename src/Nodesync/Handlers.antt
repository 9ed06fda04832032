-- ===== src/Nodesync/Handlers.antt =====
-- `onAdd`, `onUpdate` and `onDelete`, which pkg/nodesync/hostgw.go and pkg/nodesync/vxlan.go have
-- in the same words but for what they call to program a peer: here these two calls are arguments. A
-- handler holds the mutex while it acts, logs an error and drops it.
use purenet.Base.{
  Bool, true, false, ◌&&◌, ◌||◌, none, some, [], Str, str_dec, ite, lookup, insert, erase,
  if◌then◌else◌,
}
use purenet.Errors.{ok, err}
use purenet.Network.Action.{Action}
use purenet.Nodesync.Node.{Node, internal_ip, Controller}

abbrev pub same : Str → Str → Bool
same a b = ite (str_dec a b) true false

module _ {S : Type 0} (add del : Str → Str → Action S (Unit {0})) where
  -- Program the node's peer, and keep it on record if that went well.
  unfoldable pub program : Node → Controller → S → Controller × S
  program node c s =
      let pod_cidr = node.pod_cidr in
      let node_ip = internal_ip node in
      if same pod_cidr [] || same node_ip []
      then (c, s)
      else let (r, s') = add pod_cidr node_ip s in
        elim r [
          | err e ↦ (c, s')
          | ok _ ↦ (
            record c {
              routes =
                  insert node.name (record { pod_cidr = pod_cidr; node_ip = node_ip }) c.routes;
            },
            s',
          )
        ]

  unfoldable pub on_add : Node → Controller → S → Controller × S
  unfolding program
  on_add node c s = if same node.name c.node_name then (c, s) else program node c s

  -- The first half of `onUpdate`: the old peer is taken down, and off the record whatever came of
  -- it.
  unfoldable pub remove_old : Node → Controller → S → Controller × S
  remove_old old c s =
      let old_cidr = old.pod_cidr in
      let old_ip = internal_ip old in
      if same old_cidr [] || same old_ip []
      then (c, s)
      else (record c { routes = erase old.name c.routes }, (del old_cidr old_ip s).1)

  unfoldable pub on_update : Node → Node → Controller → S → Controller × S
  unfolding program remove_old
  on_update old new c s =
      if same new.name c.node_name
      then (c, s)
      else if same old.pod_cidr new.pod_cidr && same (internal_ip old) (internal_ip new)
      then (c, s)
      else let (c', s') = remove_old old c s in program new c' s'

  unfoldable pub on_delete : Node → Controller → S → Controller × S
  on_delete node c s =
      if same node.name c.node_name then (c, s) else elim (lookup node.name c.routes) [
        | none ↦ (c, s)
        | some r ↦ (record c { routes = erase node.name c.routes }, (del r.pod_cidr r.node_ip s).1)
      ]
