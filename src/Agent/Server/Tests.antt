-- ===== src/Agent/Server/Tests.antt =====
-- Runs of the handlers over a kernel and files in memory, and the theorems at concrete data.
use purenet.Network.Spaces.{spaces_apart}
use purenet.Agent.Server.Company.{serve_all_other-IsWired, IsThird}
use purenet.Agent.Server.Neighbours.{inhabited, inhabited-IsWired, other_name, ip6}
use purenet.Agent.Server.Teardown.{IsGone, cmd_del-IsGone}
use purenet.Agent.Server.Pods.{cmd_add-IsGood}
use purenet.Agent.Server.Handlers.{cmd_del}
use purenet.Network.Veth.{delete_veth}
use purenet.Ipam.{del}
use purenet.Agent.Server.Sample.{pool-InStep}
use purenet.Network.Spaces.{spaces, spaces_namespaces, empty_spaces, netns_dec}
use purenet.Agent.Server.Home.{Home}
use purenet.Agent.Server.Recheck.{cmd_add_check}
use purenet.Agent.Server.Handlers.{cmd_check}
use purenet.Agent.Server.Wiring.{IsWired, cmd_add-IsWired}
use purenet.Config.{load_conf, default_mtu}
use purenet.Inet.{to4, dec, ip_string}
use purenet.Network.Kernel.{netns}
use purenet.Network.Veth.{
  generate_host_veth_name, hex_string, setup_veth, configure_interface, setup_host_route,
  enable_proxy_arp,
}
use purenet.Ipam.{
  first_host_ip, next_free_ip, persist, add, add_new, ip_to_uint32, uint32_to_ip, scan_free,
  one_shl, state_path, encode,
}
use purenet.Agent.Server.Handlers.{World, allocate_and_attach}
use purenet.Agent.Server.Defs.{prepare, attach, for_each}
use purenet.Base.{str_dec}
use purenet.Agent.Server.Sample.{empty_disk}
use purenet.Base.{◌≡◌, ◌≢◌, refl, none, some, [], ◌∷◌, Str, codes, lookup, arith}
use purenet.Errors.{ok}
use purenet.Inet.{Ip4}
use purenet.Network.Kernel.{got, Netns}
use purenet.Network.Memory.{Host, empty_host, net_dec}
use purenet.Network.Memory as Kernels
use purenet.Cni.{CniResponse, as_error}
use purenet.Ipam.Memory.{Files, memory-IsLawful}
use purenet.Ipam.Memory as Disks
use purenet.Ipam.Invariant.{IsHost}
use purenet.Agent.Server.Handlers.{cmd_add, handle_del}
use purenet.Agent.Server.Pods.{IsGood}
use purenet.Agent.Server.Health.{IsHealthy, cmd_check_ok}
use purenet.Agent.Server.Serving.{call_add, call_check, call_del, serve_all, serve_all_safe}
use purenet.Agent.Server.Sample.{
  codecs, pool, pool-IsValid, pool-InStep, world, request, result, added, del_done, check_done,
}

abbrev one_ip : Ip4
one_ip = record { b0 = 10; b1 = 244; b2 = 1; b3 = 2 }

abbrev released : CniResponse
released = record { error_code = 0; error_message = []; result = [] }

del_answered : (handle_del Kernels.memory Disks.memory codecs request added).0 ≡ ok released
unfolding handle_del
del_answered = ground (arith, del_done)

no_error_either : as_error released ≡ none
unfolding as_error
no_error_either = refl

serve_all_safe_example :
    let w' =
      serve_all Kernels.memory Disks.memory codecs
        (call_add request ∷ call_del request ∷ [])
        world in
    IsGood Kernels.memory Disks.memory memory-IsLawful w'
    × ((c e : Str) (ip : Ip4)
        → lookup c w'.alloc.allocs ≡ some ip
        → lookup e w'.alloc.allocs ≡ some ip
        → c ≡ e)
    × ((c : Str) (ip : Ip4) → lookup c w'.alloc.allocs ≡ some ip → IsHost w'.alloc.subnet ip)
serve_all_safe_example =
    serve_all_safe Kernels.memory Disks.memory codecs memory-IsLawful
      (call_add request ∷ call_del request ∷ []) world (pool-IsValid, pool-InStep)

cmd_check_ok_example :
    (ip : Ip4) × (ns : Netns) × (lookup (codes "c1") added.alloc.allocs ≡ some ip)
    × (Kernels.memory.get_ns (codes "/run/n1") added.kernel ≡ got ns)
    × ((Kernels.memory_entering.enter ns added.kernel).0 ≡ none)
    × IsHealthy Kernels.memory request (Kernels.memory_entering.enter ns added.kernel).1
cmd_check_ok_example =
    cmd_check_ok Kernels.memory Kernels.memory_entering Disks.memory request added check_done

-- The same pod on a host where it has a namespace of its own.
abbrev spaced : World spaces Disks.memory
spaced = record { kernel = empty_spaces; alloc = pool; disk = empty_disk }

spaced_added : (cmd_add spaces Disks.memory codecs request spaced).0 ≡ ok result
unfolding cmd_add allocate_and_attach prepare attach for_each load_conf default_mtu setup_veth
    generate_host_veth_name hex_string configure_interface setup_host_route enable_proxy_arp to4
    net_dec netns_dec str_dec add add_new next_free_ip persist first_host_ip scan_free one_shl
    state_path ip_string dec uint32_to_ip ip_to_uint32 encode
spaced_added = refl

has_gateway : pool.gateway ≢ []
unfolding first_host_ip to4 uint32_to_ip ip_to_uint32
has_gateway e = ground (arith, e)

cmd_add-IsWired_example :
    let w' = (cmd_add spaces Disks.memory codecs request spaced).1 in
    (ip : Ip4) × (lookup (codes "c1") w'.alloc.allocs ≡ some ip)
    × IsWired spaces_namespaces w'.kernel
        (netns 1)
        (generate_host_veth_name codecs.sha1 (codes "c1"))
        (codes "eth0")
        pool.subnet
        ip
        pool.gateway
cmd_add-IsWired_example =
    cmd_add-IsWired spaces Disks.memory spaces_namespaces memory-IsLawful codecs request result
      (netns 1) spaced pool-IsValid has_gateway refl refl (λ e. ground (arith, e)) spaced_added

cmd_add_check_example :
    (cmd_check spaces Disks.memory request (cmd_add spaces Disks.memory codecs request spaced).1).0
    ≡ ok tt
cmd_add_check_example =
    cmd_add_check spaces spaces_namespaces Disks.memory memory-IsLawful codecs request result
      (netns 1) spaced pool-IsValid has_gateway refl refl (λ e. ground (arith, e)) spaced_added refl
      refl (λ l e h. ground (arith, h))

spaced_deleted :
    (cmd_del spaces Disks.memory request (cmd_add spaces Disks.memory codecs request spaced).1).0
    ≡ ok tt
unfolding cmd_del del delete_veth cmd_add allocate_and_attach prepare attach for_each load_conf
    default_mtu setup_veth generate_host_veth_name hex_string configure_interface setup_host_route
    enable_proxy_arp to4 net_dec netns_dec str_dec add add_new next_free_ip persist first_host_ip
    scan_free one_shl state_path ip_string dec uint32_to_ip ip_to_uint32 encode
spaced_deleted = refl

-- The pod's kernel after its `CmdAdd`.
spaced_home :
    Home spaces spaces_namespaces (cmd_add spaces Disks.memory codecs request spaced).1.kernel
unfolding cmd_add allocate_and_attach prepare attach for_each load_conf default_mtu setup_veth
    generate_host_veth_name hex_string configure_interface setup_host_route enable_proxy_arp to4
    net_dec netns_dec str_dec add add_new next_free_ip persist first_host_ip scan_free one_shl
    state_path ip_string dec uint32_to_ip ip_to_uint32 encode
spaced_home = refl

cmd_del-IsGone_example :
    let w' =
      (cmd_del spaces Disks.memory request
        (cmd_add spaces Disks.memory codecs request spaced).1).1 in
    (lookup (codes "c1") w'.alloc.allocs ≡ none)
    × IsGone spaces spaces_namespaces (codes "eth0") (w'.kernel.hosts (netns 1))
    × Home spaces spaces_namespaces w'.kernel
cmd_del-IsGone_example =
    cmd_del-IsGone spaces spaces_namespaces Disks.memory memory-IsLawful request (netns 1)
      (cmd_add spaces Disks.memory codecs request spaced).1
      (cmd_add-IsGood spaces Disks.memory memory-IsLawful codecs request spaced
        (pool-IsValid, pool-InStep)).0
      spaced_home (λ e. ground (arith, e)) refl spaced_deleted

abbrev crowded : World spaces Disks.memory
crowded = record { kernel = inhabited; alloc = pool; disk = empty_disk }

other_names : other_name ≢ generate_host_veth_name codecs.sha1 (codes "c1")
unfolding generate_host_veth_name hex_string
other_names e = ground (arith, e)

third : IsThird spaces (netns 2) request
third s m e = (λ f. ground (arith, e, f), λ f. ground (arith, e, f))

serve_all_other-IsWired_example :
    IsWired spaces_namespaces
      (serve_all spaces Disks.memory codecs
        (call_add request ∷ call_check request ∷ [])
        crowded).kernel
      (netns 2)
      other_name
      (codes "eth0")
      pool.subnet
      ip6
      pool.gateway
serve_all_other-IsWired_example =
    serve_all_other-IsWired spaces spaces_namespaces spaces_apart Disks.memory codecs (netns 2)
      other_name (codes "eth0") pool.subnet ip6 pool.gateway (λ e. ground (arith, e))
      (call_add request ∷ call_check request ∷ []) crowded ((third, other_names), (third, tt))
      inhabited-IsWired
