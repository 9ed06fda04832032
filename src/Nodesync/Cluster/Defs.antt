-- ===== src/Nodesync/Cluster/Defs.antt =====
-- The changes of the informer's store with the events that they bring, and what the controller and
-- the kernel become by them.
use purenet.Base.{
  ◌≡◌, ◌≢◌, Bool, false, ◌&&◌, ◌||◌, none, some, [], Str, Dict, lookup, insert, erase,
  if◌then◌else◌,
}
use purenet.Errors.{ok, err}
use purenet.Network.Action.{Action}
use purenet.Nodesync.Node.{Node, NodeRoute, internal_ip, Controller}
use purenet.Nodesync.Handlers.{same, remove_old}
use purenet.Nodesync.Events.{node, tombstone, added, updated, deleted, deliver}
use purenet.Nodesync.Backend.{IsBackend}

abbrev pub Nodes : Type 0
Nodes = Dict Node

abbrev pub route_of : Node → NodeRoute
route_of n = record { pod_cidr = n.pod_cidr; node_ip = internal_ip n }

-- The names for which a call has failed.
abbrev pub Failures : Type 0
Failures = Str → Bool

module _ {S : Type 0} (add del : Str → Str → Action S (Unit {0})) where
  -- The failures after the node has been programmed, where that is tried.
  unfoldable pub failures : Node → S → Failures → Failures
  failures n s f m =
      if same n.pod_cidr [] || same (internal_ip n) []
      then f m
      else elim (add n.pod_cidr (internal_ip n) s).0 [ ok _ ↦ f m | err e ↦ same m n.name || f m ]

  unfoldable pub failures_add : Node → Controller → S → Failures → Failures
  unfolding failures
  failures_add n c s f = if same n.name c.node_name then f else failures n s f

  unfoldable pub failures_update : Node → Node → Controller → S → Failures → Failures
  unfolding failures remove_old
  failures_update old new c s f =
      if same new.name c.node_name
      then f
      else if same old.pod_cidr new.pod_cidr && same (internal_ip old) (internal_ip new)
      then f
      else failures new (remove_old add del old c s).1 f

  module _ (B : IsBackend add del) where
    -- kube-controller-manager gives no two nodes one block.
    abbrev pub HasOwnBlocks : Nodes → Type 0
    HasOwnBlocks w =
        (n m : Str) (a b : Node)
        → n ≢ m
        → lookup n w ≡ some a
        → lookup m w ≡ some b
        → a.pod_cidr ≢ []
        → b.pod_cidr ≢ []
        → B.Apart a.pod_cidr b.pod_cidr

    -- What has come to pass since the controller `start` has registered its handlers. An update has
    -- the store's object as the old one; a deletion that was missed comes as a tombstone; before a
    -- block is programmed the kernel has nothing else for it; and the rest of the host may change
    -- the kernel, if what is programmed stays.
    pub data Run (start : Controller) : Failures → Nodes → Controller × S → Type 0 where
      started : (s : S) → Run start (λ m. false) [] (start, s)
      heard_added :
          {f : Failures} {w : Nodes} {c : Controller} {s : S} (n : Node)
          → Run start f w (c, s)
          → lookup n.name w ≡ none
          → HasOwnBlocks (insert n.name n w)
          → (n.pod_cidr ≢ [] → B.Clear n.pod_cidr s)
          → Run start
              (failures_add n c s f)
              (insert n.name n w)
              (deliver add del (added (node n)) (c, s))
      heard_updated :
          {f : Failures} {w : Nodes} {c : Controller} {s : S} (old new : Node)
          → Run start f w (c, s)
          → lookup old.name w ≡ some old
          → old.name ≡ new.name
          → HasOwnBlocks (insert new.name new w)
          → (new.pod_cidr ≢ [] → B.Clear new.pod_cidr (remove_old add del old c s).1)
          → Run start
              (failures_update old new c s f)
              (insert new.name new w)
              (deliver add del (updated (node old) (node new)) (c, s))
      heard_deleted :
          {f : Failures} {w : Nodes} {c : Controller} {s : S} (n : Node)
          → Run start f w (c, s)
          → Run start f (erase n.name w) (deliver add del (deleted (node n)) (c, s))
      heard_lost :
          {f : Failures} {w : Nodes} {c : Controller} {s : S} (n : Node)
          → Run start f w (c, s)
          → Run start f (erase n.name w) (deliver add del (deleted (tombstone (node n))) (c, s))
      kernel_changed :
          {f : Failures} {w : Nodes} {c : Controller} {s : S} (t : S)
          → Run start f w (c, s)
          → ((cidr ip : Str) → B.Installed cidr ip s → B.Installed cidr ip t)
          → Run start f w (c, t)
