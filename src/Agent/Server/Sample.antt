-- ===== src/Agent/Server/Sample.antt =====
-- An agent over a kernel and files in memory, with a pod that has been added, for the tests.
use purenet.Base.{◌≡◌, refl, none, [], ◌∷◌, Str, codes, str_dec, arith, pos, false}
use purenet.Errors.{ok}
use purenet.Inet.{Ip4, Inet6, to4, dec, ip_string}
use purenet.Network.Kernel.{got, host_netns}
use purenet.Network.Memory.{Host, empty_host, net_dec}
use purenet.Network.Memory as Kernels
use purenet.Network.Veth.{
  generate_host_veth_name, hex_string, setup_veth, configure_interface, setup_host_route,
  enable_proxy_arp, delete_veth,
}
use purenet.Config.{load_conf, default_mtu}
use purenet.Cni.{CniRequest, CniResponse, as_error}
use purenet.Ipam.{
  Allocator, first_host_ip, next_free_ip, persist, add, add_new, del, check, ip_to_uint32,
  uint32_to_ip, scan_free, one_shl, state_path, encode,
}
use purenet.Ipam.Memory.{Files, memory-IsLawful}
use purenet.Ipam.Memory as Disks
use purenet.Ipam.Invariant.{IsValid}
use purenet.Ipam.Calls.{InStep}
use purenet.Ipam.Fresh.{fresh_of, fresh_of-IsValid, new_fresh}
use purenet.Agent.Server.Defs.{
  Pod, CniResult, Codecs, current, result_of, for_each, prepare, attach,
}
use purenet.Agent.Server.Handlers.{
  World, allocate_and_attach, cmd_add, cmd_del, cmd_check, handle_add,
}
use purenet.Agent.Server.Pods.{IsGood, cmd_add-IsGood}

abbrev pub codecs : Codecs
codecs = record {
  unmarshal_conf = λ s. got (record { cni_version = codes "1.0.0"; mtu = pos 0 });
  sha1 = λ s.
      171 ∷ 205 ∷ 0 ∷ 1 ∷ 2 ∷ 3 ∷ 4 ∷ 5 ∷ 6 ∷ 7 ∷ 8 ∷ 9 ∷ 10 ∷ 11 ∷ 12 ∷ 13 ∷ 14 ∷ 15 ∷ 16 ∷ 17
      ∷ [];
  get_as_version = λ r v. current r;
  print_to = λ r. got r.cni_version;
  error_text = λ e. [];
}

-- 10.244.1.0/29 on an empty disk.
abbrev pub node_ip : Ip4
node_ip = record { b0 = 10; b1 = 244; b2 = 1; b3 = 5 }

abbrev pub ip2 : Ip4
ip2 = record { b0 = 10; b1 = 244; b2 = 1; b3 = 2 }

abbrev pub pool : Allocator
pool = fresh_of node_ip 29 (codes "/var/lib")

pub pool-IsValid : IsValid pool
pool-IsValid = fresh_of-IsValid node_ip 29 (codes "/var/lib") (omega arith) (omega arith)

abbrev pub no_ip6 : Inet6
no_ip6 = record { parse_ip6 = λ s. []; parse_cidr6 = λ s. none }

abbrev pub empty_disk : Files
empty_disk = record { files = []; full = false }

pub pool-InStep : InStep Disks.memory memory-IsLawful pool empty_disk
pool-InStep =
    (new_fresh Disks.memory memory-IsLawful no_ip6 node_ip 29 (codes "/var/lib") empty_disk
      (omega arith) (omega arith) refl refl).2

abbrev pub world : World Kernels.memory Disks.memory
world = record { kernel = empty_host; alloc = pool; disk = empty_disk }

abbrev pub request : CniRequest
request = record {
  container_id = codes "c1";
  netns = codes "/run/n1";
  if_name = codes "eth0";
  args = [];
  path = [];
  config = [];
}

abbrev pub host_name : Str
host_name = codes "vethabcd0001020"

abbrev pub pod : Pod
pod = record {
  conf = record { cni_version = codes "1.0.0"; mtu = pos 1500 };
  ns = host_netns;
  host_iface = record { name = host_name; sandbox = [] };
  cont_iface = record { name = codes "eth0"; sandbox = codes "/run/n1" };
}

abbrev pub result : CniResult
result = result_of pod pool.subnet ip2 pool.gateway

abbrev pub add_done : (cmd_add Kernels.memory Disks.memory codecs request world).0 ≡ ok result
unfolding cmd_add allocate_and_attach prepare attach for_each load_conf default_mtu setup_veth
    generate_host_veth_name hex_string configure_interface setup_host_route enable_proxy_arp to4
    net_dec str_dec add add_new next_free_ip persist first_host_ip scan_free one_shl state_path
    ip_string dec uint32_to_ip ip_to_uint32 encode
add_done = refl

abbrev pub added : World Kernels.memory Disks.memory
added = (cmd_add Kernels.memory Disks.memory codecs request world).1

pub added-IsGood : IsGood Kernels.memory Disks.memory memory-IsLawful added
added-IsGood =
    cmd_add-IsGood Kernels.memory Disks.memory memory-IsLawful codecs request world
      (pool-IsValid, pool-InStep)

pub del_done : (cmd_del Kernels.memory Disks.memory request added).0 ≡ ok tt
unfolding cmd_del del delete_veth cmd_add allocate_and_attach prepare attach for_each load_conf
    default_mtu setup_veth generate_host_veth_name hex_string configure_interface setup_host_route
    enable_proxy_arp to4 net_dec str_dec add add_new next_free_ip persist first_host_ip scan_free
    one_shl state_path ip_string dec uint32_to_ip ip_to_uint32 encode
del_done = refl

abbrev pub answer : CniResponse
answer = record { error_code = 0; error_message = []; result = codes "1.0.0" }

pub add_answered : (handle_add Kernels.memory Disks.memory codecs request world).0 ≡ ok answer
unfolding handle_add
add_answered = ground (arith, add_done)

pub no_error : as_error answer ≡ none
unfolding as_error
no_error = refl

pub check_done : (cmd_check Kernels.memory Disks.memory request added).0 ≡ ok tt
unfolding cmd_check check cmd_add allocate_and_attach prepare attach for_each load_conf default_mtu
    setup_veth generate_host_veth_name hex_string configure_interface setup_host_route
    enable_proxy_arp to4 net_dec str_dec add add_new next_free_ip persist first_host_ip scan_free
    one_shl state_path ip_string dec uint32_to_ip ip_to_uint32 encode
check_done = refl
