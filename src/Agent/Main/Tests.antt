-- ===== src/Agent/Main/Tests.antt =====
-- A node that starts for the first time, over a kernel and files in memory.
use purenet.Base.{
  ◌≡◌, ◌≢◌, ◌⊎◌, inl, refl, true, false, none, some, List, [], ◌∷◌, Str, codes, str_dec, lookup,
  arith,
}
use purenet.Errors.{ok}
use purenet.Inet.{Ip4, family, parse4, scan, cut_slash, decimal, parse_cidr, to4}
use purenet.Network.Memory.{empty_host, net_dec, memory_interfaces}
use purenet.Network.Memory as Kernels
use purenet.Network.Vxlan.{setup_vxlan}
use purenet.Network.Veth.{setup_masquerade}
use purenet.Ipam.Store.{Decoded, decoded}
use purenet.Ipam.{Allocator, new, load, first_host_ip, state_path}
use purenet.Ipam.Memory.{Files, memory-IsLawful}
use purenet.Ipam.Memory as Disks
use purenet.Ipam.Invariant.{IsValid}
use purenet.Ipam.Calls.{InStep}
use purenet.Ipam.Restart.{IsRestored}
use purenet.Ipam.Fresh.{fresh_of, fresh_of-IsValid}
use purenet.Nodesync.Node.{Node}
use purenet.Nodesync.Conf.{CniConf, write_cni_config}
use purenet.Nodesync.Start as Sync
use purenet.Nodesync.Start.{Found, item, missing, Informer, own_pod_cidr, run_vxlan, mode_vxlan}
use purenet.Agent.Server.Pods.{IsGood}
use purenet.Agent.Server.Serving.{Call, serve_all}
use purenet.Agent.Server.Sample.{codecs, node_ip, no_ip6}
use purenet.Agent.Main.Defs.{
  ipam_data_dir, Options, Environment, Process, configure, join, make_allocator, open_socket,
  start_up,
}
use purenet.Agent.Main.Joined.{IsServing, HasStopped}
use purenet.Agent.Main.Order.{start_up_cases}
use purenet.Agent.Main.Served.{start_up-serves_safely}

abbrev own : Str
own = codes "10.244.1.0/29"

abbrev this_node : Node
this_node = record { name = codes "n1"; pod_cidr = own; addresses = [] }

abbrev environment : Environment
environment = record {
  node_name = codes "n1";
  in_cluster_config = none;
  new_for_config = none;
  listen = none;
  informer = record { wait_for_cache_sync = true; get_by_key = λ name. item this_node };
}

abbrev options : Options
options = record { mode = mode_vxlan }

-- The text of the configuration is its name.
abbrev marshal : CniConf → Decoded (Disks.memory).Data
marshal c = decoded ((codes "name", c.name) ∷ [])

abbrev process : Process Kernels.memory Disks.memory no_ip6 marshal
process = record {
  kernel = empty_host;
  disk = record { files = []; full = false };
  handling = false;
  listening = false;
  serving = none;
}

abbrev nothing_held : Allocator
nothing_held = fresh_of node_ip 29 ipam_data_dir

abbrev started :
    (start_up Kernels.memory Disks.memory no_ip6 marshal environment options process).0 ≡ ok tt
unfolding start_up configure join make_allocator open_socket Sync.new Sync.run run_vxlan
    own_pod_cidr parse_cidr family parse4 scan cut_slash decimal setup_vxlan setup_masquerade
    net_dec to4 write_cni_config new load first_host_ip state_path str_dec
started = refl

start_up_cases_example :
    let (r, p') = start_up Kernels.memory Disks.memory no_ip6 marshal environment options process in
    ((r ≡ ok tt) × IsServing Kernels.memory Disks.memory no_ip6 marshal environment process p')
    ⊎ ((r ≢ ok tt) × HasStopped Kernels.memory Disks.memory no_ip6 marshal environment process p')
start_up_cases_example =
    start_up_cases Kernels.memory Disks.memory no_ip6 marshal memory-IsLawful environment options
      process

abbrev known : own_pod_cidr environment.informer (codes "n1") ≡ ok own
unfolding own_pod_cidr
known = refl

abbrev own_read : parse_cidr no_ip6 own ≡ some nothing_held.subnet
unfolding parse_cidr family parse4 scan cut_slash decimal
own_read = refl

nothing_held-IsValid : IsValid nothing_held
nothing_held-IsValid = fresh_of-IsValid node_ip 29 ipam_data_dir (omega arith) (omega arith)

nothing_stored : InStep Disks.memory memory-IsLawful nothing_held process.disk
nothing_stored = inl (refl, λ s. refl)

start_up-serves_safely_example :
    let p' = (start_up Kernels.memory Disks.memory no_ip6 marshal environment options process).1 in
    (b : Allocator) × (p'.serving ≡ some b)
    × IsRestored nothing_held b
    × ((cs : List Call) (k : (Kernels.memory).State)
        → let w =
            serve_all Kernels.memory Disks.memory codecs cs
              (record { kernel = k; alloc = b; disk = p'.disk }) in
          IsGood Kernels.memory Disks.memory memory-IsLawful w
          × ((c e : Str) (ip : Ip4)
              → lookup c w.alloc.allocs ≡ some ip
              → lookup e w.alloc.allocs ≡ some ip
              → c ≡ e))
start_up-serves_safely_example =
    start_up-serves_safely Kernels.memory Disks.memory memory-IsLawful no_ip6 marshal environment
      process own nothing_held options codecs known own_read refl nothing_held-IsValid
      nothing_stored started
