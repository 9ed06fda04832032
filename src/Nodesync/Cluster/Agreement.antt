-- ===== src/Nodesync/Cluster/Agreement.antt =====
-- The record of the controller and the nodes of the cluster.
use purenet.Base.{
  ◌≡◌, ◌≢◌, ◌⊎◌, inl, inr, refl, sym, ◌∙◌, true, none, some, [], Str, str_dec, lookup, insert,
  lookup-insert, arith, Option-cases,
}
use purenet.Nodesync.Node.{Node, NodeRoute, internal_ip, Controller}
use purenet.Nodesync.Cluster.Defs.{Nodes, Failures, route_of}

-- A node on record has the route of the cluster's node of that name. A remote node of the cluster
-- that has a block and an address is on record, or a call for it has failed.
pub record AgreesAt (m : Str) (f : Failures) (w : Nodes) (c : Controller) : Type 0 where
  pub known :
      (r : NodeRoute)
      → lookup m c.routes ≡ some r
      → (a : Node) × (lookup m w ≡ some a)
        × (r ≡ route_of a)
        × (a.pod_cidr ≢ [])
        × (internal_ip a ≢ [])
  pub covered :
      (a : Node)
      → lookup m w ≡ some a
      → m ≢ c.node_name
      → a.pod_cidr ≢ []
      → internal_ip a ≢ []
      → (lookup m c.routes ≡ some (route_of a)) ⊎ (f m ≡ true)

pub moved-AgreesAt :
    (m : Str) (f g : Failures) (w v : Nodes) (c d : Controller)
    → lookup m d.routes ≡ lookup m c.routes
    → lookup m v ≡ lookup m w
    → d.node_name ≡ c.node_name
    → (f m ≡ true → g m ≡ true)
    → AgreesAt m f w c
    → AgreesAt m g v d
moved-AgreesAt m f g w v c d er ew en more k = record {
  known = λ r h.
      let (a, here, is, full, addr) = k.known r (sym er ∙ h) in (a, ew ∙ here, is, full, addr);
  covered = λ a h ne full addr. elim (k.covered a (sym ew ∙ h) (λ e. ne (e ∙ sym en)) full addr) [
    | inl on ↦ inl (er ∙ on)
    | inr bad ↦ inr (more bad)
  ];
}

pub unknown_off :
    (m : Str) (f : Failures) (w : Nodes) (c : Controller)
    → AgreesAt m f w c
    → lookup m w ≡ none
    → lookup m c.routes ≡ none
unknown_off m f w c k new = elim (Option-cases (lookup m c.routes)) [
  | inl h ↦ h
  | inr (r, h) ↦ let (a, here, is, full, addr) = k.known r h in ground (arith, here, new)
]

-- The cluster's object of a node on record has a block and an address.
pub known_complete :
    (m : Str) (f : Failures) (w : Nodes) (c : Controller) (a : Node) (r : NodeRoute)
    → AgreesAt m f w c
    → lookup m w ≡ some a
    → lookup m c.routes ≡ some r
    → (a.pod_cidr ≢ []) × (internal_ip a ≢ [])
known_complete m f w c a r k here h =
    let (b, there, is, full, addr) = k.known r h in
    let it : b ≡ a = ground (arith, here, there) in
    (ground (arith, it, full), ground (arith, it, addr))

-- A node that is off the record agrees if it is not to be programmed, or that has failed.
pub off-AgreesAt :
    (m : Str) (f : Failures) (w : Nodes) (c : Controller)
    → lookup m c.routes ≡ none
    → ((a : Node)
        → lookup m w ≡ some a
        → m ≢ c.node_name
        → a.pod_cidr ≢ []
        → internal_ip a ≢ []
        → f m ≡ true)
    → AgreesAt m f w c
off-AgreesAt m f w c off bad = record {
  known = λ r h. ground (arith, off, h);
  covered = λ a h ne full addr. inr (bad a h ne full addr);
}

pub on-AgreesAt :
    (m : Str) (f : Failures) (w : Nodes) (c : Controller) (a : Node)
    → lookup m c.routes ≡ some (route_of a)
    → lookup m w ≡ some a
    → a.pod_cidr ≢ []
    → internal_ip a ≢ []
    → AgreesAt m f w c
on-AgreesAt m f w c a on here full addr = record {
  known = λ r h. (a, here, ground (arith, on, h), full, addr);
  covered = λ b h ne full' addr'. inl (ground (arith, on, here, h));
}

-- The own node is not on record, whatever the cluster has for it.
pub own-AgreesAt :
    (n : Node) (f : Failures) (w : Nodes) (c : Controller) (m : Str)
    → n.name ≡ c.node_name
    → lookup c.node_name c.routes ≡ none
    → AgreesAt m f w c
    → AgreesAt m f (insert n.name n w) c
own-AgreesAt n f w c m own remote k = elim (str_dec n.name m) [
  | yes it ↦
      off-AgreesAt m f _ c (ground (arith, own, remote, it))
        (λ a h ne full addr. ground (arith, own, it, ne))
  | no else ↦
      moved-AgreesAt m f f w _ c c refl (ground (arith, else, lookup-insert m n.name n w)) refl
        (λ bad. bad) k
]

-- An object with the same route may take a node's place.
pub alike-AgreesAt :
    (old new : Node) (f : Failures) (w : Nodes) (c : Controller) (m : Str)
    → lookup old.name w ≡ some old
    → old.name ≡ new.name
    → route_of old ≡ route_of new
    → AgreesAt m f w c
    → AgreesAt m f (insert new.name new w) c
alike-AgreesAt old new f w c m here named alike k = elim (str_dec new.name m) [
  | yes it ↦ record {
    known = λ r h.
        let (a, there, is, full, addr) = k.known r h in
        (
          new,
          ground (arith, it, lookup-insert m new.name new w),
          ground (arith, here, there, it, named, is, alike),
          ground (arith, here, there, it, named, full, alike),
          ground (arith, here, there, it, named, addr, alike),
        );
    covered = λ a h ne full addr.
        ground (arith, it, lookup-insert m new.name new w, h, here, named, alike, k.covered old);
  }
  | no else ↦
      moved-AgreesAt m f f w _ c c refl (ground (arith, else, lookup-insert m new.name new w)) refl
        (λ bad. bad) k
]
