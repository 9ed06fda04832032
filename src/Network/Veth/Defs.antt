-- ===== src/Network/Veth/Defs.antt =====
-- The veth pair of a container, its addresses and routes, and the masquerade rule. SHA-1 is the
-- parameter `sha1`, from a text to the bytes of its digest.
use purenet.Base.{
  ℕ, ℤ, ◌+◌, ◌-◌, ◌/◌, Bool, true, false, none, some, List, [], ◌∷◌, ◌++◌, Str, codes, str_dec, ite,
  take, ltb, if◌then◌else◌,
}
use Prim.Native.Nat.{◌%◌}
use purenet.Errors.{external, wrapf, ok, err}
use purenet.Inet.{Ip, IpNet, to4}
use purenet.Network.Kernel.{
  got, refused, Link, Addr, Route, NftOp, add_table, add_nat_chain, flush_chain, add_rule, Kernel,
}
use purenet.Network.Action.{Action, pure, query, exec, ◌>>=◌, ◌>>◌}

abbrev pub host_veth_prefix : Str
host_veth_prefix = codes "veth"

-- The digit of a number below 16.
abbrev pub hex_digit : ℕ → ℕ
hex_digit n = if ltb n 10 then b'0' + n else b'a' + (n - 10)

-- `hex.EncodeToString`
unfoldable pub hex_string : List ℕ → Str
hex_string [] = []
hex_string (b ∷ bs) = hex_digit (b / 16) ∷ hex_digit (b % 16) ∷ hex_string bs

unfoldable pub generate_host_veth_name : (Str → List ℕ) → Str → Str
unfolding hex_string
generate_host_veth_name sha1 container_id =
    host_veth_prefix ++ take 11 (hex_string (sha1 container_id))

abbrev pub is_not_found : Str → Bool
is_not_found e = ite (str_dec e (codes "Link not found")) true false

-- The block `0.0.0.0/0`.
abbrev pub default_net : IpNet
default_net = record { ip = 0 ∷ 0 ∷ 0 ∷ 0 ∷ []; ones = 0; bits = 32 }

-- `net.CIDRMask(bits, bits)`: an address of four bytes, or of sixteen.
abbrev pub address_bits : Ip → ℕ
address_bits ip = elim (to4 ip) [ none ↦ 128 | some a ↦ 32 ]

abbrev pub proxy_arp_path : Str → Str
proxy_arp_path veth_name = codes "/proc/sys/net/ipv4/conf/" ++ veth_name ++ codes "/proxy_arp"

module _ (K : Kernel) where
  open K use {
    State, link_by_name, link_add_veth, link_set_up, link_del, addr_add, route_add, write_file,
    nft_new, nft_run,
  }

  unfoldable pub setup_veth : (Str → List ℕ) → Str → Str → ℤ → Action State (Link × Link)
  unfolding generate_host_veth_name
  setup_veth sha1 if_name container_id mtu = do
    let peer_name = generate_host_veth_name sha1 container_id
    exec
        (link_add_veth
          (record { name = if_name; flag_up = true; mtu = mtu; peer_name = peer_name }))
        "failed to add veth pair" []
    cont_iface ← query (link_by_name if_name) "failed to look up container veth %q" (if_name ∷ [])
    host_iface ← query (link_by_name peer_name) "failed to look up host veth %q" (peer_name ∷ [])
    pure (host_iface, cont_iface)

  unfoldable pub configure_interface : Str → Addr → Action State (Unit {0})
  configure_interface if_name addr = do
    link ← query (link_by_name if_name) "failed to find interface %q" (if_name ∷ [])
    exec (addr_add link addr) "failed to add address %v to %q" (addr.net.ip ∷ if_name ∷ [])
    exec (link_set_up link) "failed to bring up interface %q" (if_name ∷ [])

  -- A route that names no interface.
  abbrev pub gateway_route : IpNet → Ip → Route
  gateway_route dst gw = record {
    link_index = 0;
    scope_link = false;
    dst = dst;
    gw = gw;
    onlink = false;
  }

  unfoldable pub add_default_route : Ip → Action State (Unit {0})
  add_default_route gw =
      exec (route_add (gateway_route default_net gw)) "failed to add default route via %v" (gw ∷ [])

  abbrev pub host_route : Link → Ip → Route
  host_route link pod_ip = record {
    link_index = link.index;
    scope_link = true;
    dst = record { ip = pod_ip; ones = address_bits pod_ip; bits = address_bits pod_ip };
    gw = [];
    onlink = false;
  }

  unfoldable pub setup_host_route : Str → Ip → Action State (Unit {0})
  setup_host_route host_veth_name pod_ip = do
    link ← query (link_by_name host_veth_name) "failed to find host veth %q" (host_veth_name ∷ [])
    exec (route_add (host_route link pod_ip)) "failed to add host route %v dev %s"
        (pod_ip ∷ host_veth_name ∷ [])

  unfoldable pub enable_proxy_arp : Str → Action State (Unit {0})
  enable_proxy_arp veth_name =
      exec (write_file (proxy_arp_path veth_name) (codes "1")) "failed to enable proxy_arp on %s"
        (veth_name ∷ [])

  abbrev pub masquerade_rules : Str → List NftOp
  masquerade_rules pod_cidr =
      add_table (codes "purenet")
      ∷ add_nat_chain (codes "postrouting")
      ∷ flush_chain (codes "postrouting")
      ∷ add_rule (codes "postrouting")
          (codes "ip saddr" ∷ pod_cidr ∷ codes "ip daddr !=" ∷ pod_cidr ∷ codes "masquerade" ∷ [])
      ∷ []

  unfoldable pub setup_masquerade : Str → Action State (Unit {0})
  setup_masquerade pod_cidr = do
    query (nft_new (codes "purenet")) "nftables not available" []
    exec (nft_run (masquerade_rules pod_cidr)) "nftables masquerade setup failed" []

  unfoldable pub delete_veth : Str → Action State (Unit {0})
  delete_veth if_name s = elim (link_by_name if_name s) [
    | refused e ↦
        if is_not_found e
        then (ok tt, s)
        else (err (wrapf "failed to find interface %q for deletion" (if_name ∷ []) (external e)), s)
    | got link ↦ exec (link_del link) "failed to delete interface %q" (if_name ∷ []) s
  ]
