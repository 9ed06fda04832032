-- ===== src/Nodesync/Tests.antt =====
-- Runs of the handlers over a kernel in memory, and the theorems at concrete data.
use purenet.Base.{◌≡◌, ◌≢◌, refl, none, some, [], ◌∷◌, Str, codes, str_dec, lookup, arith, subst}
use purenet.Errors.{ok}
use purenet.Inet.{IpNet, family, parse4, parse_ip, parse_cidr, cut_slash, decimal, scan}
use purenet.Network.Kernel.{Route}
use purenet.Network.Memory.{Host, empty_host, memory, memory_route_table, net_dec}
use purenet.Nodesync.Node.{
  Node, NodeRoute, first_internal, node_internal_ip, internal_ip, Controller,
}
use purenet.Nodesync.Handlers.{program, remove_old, on_add, on_update}
use purenet.Nodesync.Backend.{IsTracking}
use purenet.Nodesync.Replace.{entry, on_update-replaces}
use purenet.Nodesync.Handlers.{same, on_delete}
use purenet.Base.{◌&&◌}
use purenet.Nodesync.Tracking.{on_add-IsTracking, on_update-IsTracking}
use purenet.Nodesync.Hostgw.{add_route, del_route, via}
use purenet.Base.{◌⊎◌, true, false}
use purenet.Network.Memory.{memory_interfaces}
use purenet.Network.Vxlan.Setup.{IsSetUp}
use purenet.Ipam.Store.{Decoded, decoded, contents}
use purenet.Ipam.Memory.{Files, memory-IsLawful}
use purenet.Ipam.Memory as Disks
use purenet.Nodesync.Conf.{CniConf, purenet_conf, write_cni_config, write_cni_config_atomic}
use purenet.Nodesync.Start.{item, Informer, own_pod_cidr, run_vxlan}
use purenet.Nodesync.Start.Safety.{run_vxlan-handling}
use purenet.Nodesync.Sample.{six, block, address, net, node2, here, net_read, address_read}
use purenet.Nodesync.Hostgw.Routes.{Unrouted, add_route_exists, hostgw_backend}

abbrev added : (add_route memory six block address empty_host).0 ≡ ok tt
unfolding add_route parse_cidr parse_ip family parse4 cut_slash decimal scan
added = refl

-- A route of an earlier run, by another gateway.
abbrev stale : Host
stale = (memory.route_add (via net (192 ∷ 168 ∷ 0 ∷ 9 ∷ [])) empty_host).1

abbrev stale_route : stale.routes net ≡ some (via net (192 ∷ 168 ∷ 0 ∷ 9 ∷ []))
unfolding net_dec
stale_route = refl

abbrev stale_refuses :
    (r : Route) → r.dst ≡ net → (memory.route_add r stale).0 ≡ some (codes "file exists")
unfolding net_dec
stale_refuses r e = ground (arith, e, stale_route)

add_route_exists_example :
    ((add_route memory six block address stale).0 ≡ ok tt)
    × (memory_route_table.route (add_route memory six block address stale).1 net
        ≡ some (via net (192 ∷ 168 ∷ 0 ∷ 9 ∷ [])))
add_route_exists_example =
    add_route_exists memory six memory_route_table block address net
      (via net (192 ∷ 168 ∷ 0 ∷ 9 ∷ [])) stale net_read address_read stale_route stale_refuses

abbrev here-IsTracking :
    IsTracking
      (add_route memory six)
      (del_route memory six)
      (hostgw_backend memory six memory_route_table)
      here
      empty_host
here-IsTracking = record {
  remote = refl;
  installed = λ n r h. ground (arith, h);
  apart = λ n m r q ne h h'. ground (arith, h);
}

abbrev one : Controller × Host
one = on_add (add_route memory six) (del_route memory six) node2 here empty_host

one-IsTracking :
    IsTracking
      (add_route memory six)
      (del_route memory six)
      (hostgw_backend memory six memory_route_table)
      one.0
      one.1
one-IsTracking =
    on_add-IsTracking (add_route memory six) (del_route memory six)
      (hostgw_backend memory six memory_route_table) node2 here empty_host here-IsTracking refl
      (λ full m q ne h. ground (arith, h)) (λ full dst e. refl)

-- What is on record after the first event.
on_record :
    one.0
    ≡ record here { routes = (codes "n2", record { pod_cidr = block; node_ip = address }) ∷ [] }
unfolding on_add program internal_ip first_internal add_route parse_cidr parse_ip family parse4
    cut_slash decimal scan str_dec net_dec
on_record = refl

-- The node comes back at another address.
abbrev moved : Node
moved = record node2 {
  addresses = record { type = node_internal_ip; address = codes "192.168.0.8" } ∷ [];
}

alone : (m : Str) (q : NodeRoute) → m ≢ codes "n2" → lookup m one.0.routes ≡ some q → ⊥
alone m q ne h = ground (arith, h, on_record)

old_removed :
    (remove_old (add_route memory six) (del_route memory six) node2 one.0 one.1).1.routes net ≡ none
unfolding remove_old del_route on_add program internal_ip first_internal add_route parse_cidr
    parse_ip family parse4 cut_slash decimal scan str_dec net_dec
old_removed = refl

cleared :
    Unrouted memory six memory_route_table block
      (remove_old (add_route memory six) (del_route memory six) node2 one.0 one.1).1
cleared dst e =
    let same : net ≡ dst = ground (arith, e, net_read) in
    subst
      (λ (t : IpNet).
        (remove_old (add_route memory six) (del_route memory six) node2 one.0 one.1).1.routes t
        ≡ none)
      same old_removed

complete : (node2.pod_cidr ≢ []) × (internal_ip node2 ≢ [])
unfolding internal_ip first_internal str_dec
complete = (λ e. ground (arith, e), λ e. ground (arith, e))

on_update-IsTracking_example :
    IsTracking
      (add_route memory six)
      (del_route memory six)
      (hostgw_backend memory six memory_route_table)
      (on_update (add_route memory six) (del_route memory six) node2 moved one.0 one.1).0
      (on_update (add_route memory six) (del_route memory six) node2 moved one.0 one.1).1
on_update-IsTracking_example =
    on_update-IsTracking (add_route memory six) (del_route memory six)
      (hostgw_backend memory six memory_route_table) node2 moved one.0 one.1 one-IsTracking refl
      (λ full m q ne h. absurd (alone m q ne h)) (λ full m q ne h. absurd (alone m q ne h))
      (λ q h. complete) (λ full. cleared)

moved_changed :
    (same node2.pod_cidr moved.pod_cidr && same (internal_ip node2) (internal_ip moved)) ≡ false
unfolding internal_ip first_internal str_dec
moved_changed = refl

moved_recorded : lookup (codes "n2") one.0.routes ≡ entry node2
unfolding on_add program internal_ip first_internal add_route parse_cidr parse_ip family parse4
    cut_slash decimal scan str_dec net_dec
moved_recorded = refl

on_update-replaces_example :
    on_update (add_route memory six) (del_route memory six) node2 moved one.0 one.1 ≡ (
      let (c', s') = on_delete (add_route memory six) (del_route memory six) node2 one.0 one.1 in
      on_add (add_route memory six) (del_route memory six) moved c' s')
on_update-replaces_example =
    on_update-replaces (add_route memory six) (del_route memory six) node2 moved one.0 one.1 refl
      moved_changed moved_recorded

abbrev files : Files
files = record { files = []; full = false }

abbrev marshal_name : CniConf → Decoded (Disks.memory).Data
marshal_name c = decoded ((codes "name", c.name) ∷ [])

write_cni_config_atomic_example :
    let (e, d') = write_cni_config Disks.memory marshal_name (codes "/conf") files in
    (((e ≡ none)
        × (b : (Disks.memory).Data) × (marshal_name purenet_conf ≡ decoded b)
        × ((Disks.memory).read_file (codes "/conf") d' ≡ contents b))
      ⊎ ((e ≢ none)
          × ((Disks.memory).read_file (codes "/conf") d'
              ≡ (Disks.memory).read_file (codes "/conf") files)))
    × ((other : Str)
        → other ≢ codes "/conf"
        → other ≢ codes "/conf.tmp"
        → (Disks.memory).read_file other d' ≡ (Disks.memory).read_file other files)
write_cni_config_atomic_example =
    write_cni_config_atomic Disks.memory marshal_name memory-IsLawful (codes "/conf") files

abbrev informer : Informer
informer = record {
  wait_for_cache_sync = true;
  get_by_key = λ name. item (record node2 { name = codes "n1" });
}

run_vxlan-handling_example :
    let started = run_vxlan memory six informer here empty_host in
    ((started.handling ≡ true)
      × (own : Str) × (b : IpNet) × (started.result ≡ ok own)
      × (own_pod_cidr informer (codes "n1") ≡ ok own)
      × (parse_cidr six own ≡ some b)
      × IsSetUp memory memory_interfaces b started.kernel)
    ⊎ ((started.handling ≡ false) × ((own : Str) → started.result ≢ ok own))
run_vxlan-handling_example =
    run_vxlan-handling memory memory_interfaces six informer here empty_host
