-- ===== src/Agent/Server/Defs.antt =====
-- `cmdAdd`, `cmdDel` and `cmdCheck`, and the handlers around them.
use purenet.Base.{ℕ, ◌≡◌, ◌⊎◌, inl, inr, refl, List, [], ◌∷◌, Str, if◌then◌else◌}
use purenet.Errors.{GoError, external, errorf, wrapf, ok, err}
use purenet.Inet.{Ip, Ip4, IpNet, bytes4}
use purenet.Network.Kernel.{Reply, got, refused, Link, Netns, host_netns, Kernel}
use purenet.Network.Action.{Action, pure, query, exec, ◌>>=◌, ◌>>◌}
use purenet.Network.Veth.{
  default_net, gateway_route, setup_veth, configure_interface, setup_host_route, enable_proxy_arp,
}
use purenet.Config.{NetConf, load_conf}
use purenet.Cni.{CniRequest}

-- The types of the CNI library's `current.Result`.
pub record Interface : Type 0 where
  pub name : Str
  pub sandbox : Str

pub record IpConfig : Type 0 where
  pub interface : ℕ
  pub address : IpNet
  pub gateway : Ip

pub record CniRoute : Type 0 where
  pub dst : IpNet
  pub gw : Ip

pub record CniResult : Type 0 where
  pub cni_version : Str
  pub interfaces : List Interface
  pub ips : List IpConfig
  pub routes : List CniRoute

-- `result.GetAsVersion`, whose value may be a `current.Result` or a result of another version.
pub data Versioned : Type 0 where
  current : CniResult → Versioned
  other_version : Str → Versioned
  unknown_version : Str → Versioned

pub Versioned-cases :
    (v : Versioned)
    → ((r : CniResult) × (v ≡ current r))
      ⊎ ((t : Str) × (v ≡ other_version t))
      ⊎ ((e : Str) × (v ≡ unknown_version e))
Versioned-cases (current r) = inl (r, refl)
Versioned-cases (other_version t) = inr (inl (t, refl))
Versioned-cases (unknown_version e) = inr (inr (e, refl))

-- The codecs outside the repository.
pub record Codecs : Type 0 where
  pub unmarshal_conf : Str → Reply NetConf
  pub sha1 : Str → List ℕ
  pub get_as_version : CniResult → Str → Versioned
  pub print_to : CniResult → Reply Str
  pub error_text : GoError → Str

-- What `cmdAdd` finds out before it asks for an address.
pub record Pod : Type 0 where
  pub conf : NetConf
  pub ns : Netns
  pub host_iface : Interface
  pub cont_iface : Interface

abbrev pub result_of : Pod → IpNet → Ip4 → Ip → CniResult
result_of pod subnet pod_ip gw = record {
  cni_version = pod.conf.cni_version;
  interfaces = pod.host_iface ∷ pod.cont_iface ∷ [];
  ips =
      record {
        interface = 1;
        address = record { ip = bytes4 pod_ip; ones = subnet.ones; bits = subnet.bits };
        gateway = gw;
      }
      ∷ [];
  routes = record { dst = default_net; gw = [] } ∷ [];
}

-- Act on each in turn, up to the first error.
unfoldable pub for_each : {S A : Type 0} → (A → Action S (Unit {0})) → List A → Action S (Unit {0})
for_each act [] s = (ok tt, s)
for_each act (x ∷ xs) s =
    let (r, s') = act x s in
    let rest = for_each act xs s' in elim r [ ok _ ↦ rest | err e ↦ (err e, s') ]

module _ (K : Kernel) where
  open K use {State, link_by_name, link_set_up, link_set_ns, route_add, addr_list, get_ns, ns_do}

  -- The first function that `cmdAdd` runs in the pod's namespace.
  abbrev pub make_pair : (Str → List ℕ) → CniRequest → NetConf → Action State (Link × Link)
  make_pair sha1 req conf = do
    links ← setup_veth K sha1 req.if_name req.container_id conf.mtu
    exec (link_set_ns links.0 host_netns) "failed to move %q to host netns" (links.0.name ∷ [])
    pure links

  -- A route without a gateway of its own takes that of the first address, or is skipped.
  abbrev pub route_gateway : CniResult → CniRoute → Ip
  route_gateway result route = elim route.gw [
    | b ∷ gw ↦ b ∷ gw
    | [] ↦ elim result.ips [ [] ↦ [] | ipc ∷ _ ↦ ipc.gateway ]
  ]

  abbrev pub add_pod_route : CniResult → CniRoute → Action State (Unit {0})
  add_pod_route result route s = elim (route_gateway result route) [
    | [] ↦ (ok tt, s)
    | b ∷ gw ↦
        exec (route_add (gateway_route K route.dst (b ∷ gw))) "failed to add route %v via %v"
          (route.dst.ip ∷ (b ∷ gw) ∷ []) s
  ]

  -- The second one.
  abbrev pub configure_pod : CniRequest → CniResult → Action State (Unit {0})
  configure_pod req result = do
    for_each (λ ipc. configure_interface K req.if_name (record { net = ipc.address })) result.ips
    for_each (add_pod_route result) result.routes

  -- From the pod's namespace to proxy ARP.
  abbrev pub open_pod : Codecs → CniRequest → NetConf → Action State Pod
  open_pod C req conf = do
    ns ← query (get_ns req.netns) "failed to open netns %q" (req.netns ∷ [])
    links ← ns_do ns (make_pair C.sha1 req conf)
    let host_name = links.0.name
    host_link ← query (link_by_name host_name) "failed to find host veth %q" (host_name ∷ [])
    exec (link_set_up host_link) "failed to bring up %q" (host_name ∷ [])
    enable_proxy_arp K host_name
    pure (record {
      conf = conf;
      ns = ns;
      host_iface = record { name = host_name; sandbox = [] };
      cont_iface = record { name = links.1.name; sandbox = req.netns };
    })

  -- `cmdAdd` up to the allocation.
  unfoldable pub prepare : Codecs → CniRequest → Action State Pod
  unfolding load_conf
  prepare C req s = elim (load_conf C.unmarshal_conf req.config) [
    | err e ↦ (err (wrapf "failed to parse config" [] e), s)
    | ok conf ↦ open_pod C req conf s
  ]

  -- The result in the version that was asked for.
  abbrev pub convert : Codecs → Pod → CniResult → Action State CniResult
  convert C pod result s = elim (C.get_as_version result pod.conf.cni_version) [
    | unknown_version e ↦ (
      err (wrapf "failed to convert result to version %s" (pod.conf.cni_version ∷ []) (external e)),
      s,
    )
    | other_version t ↦ (err (errorf "unexpected result type %T" (t ∷ [])), s)
    | current typed ↦ (ok typed, s)
  ]

  -- `cmdAdd` from the allocation on.
  unfoldable pub attach : Codecs → CniRequest → Pod → CniResult → Action State CniResult
  unfolding for_each
  attach C req pod result = do
    for_each (λ ipc. setup_host_route K pod.host_iface.name ipc.address.ip) result.ips
    ns_do pod.ns (configure_pod req result)
    convert C pod result

  -- The second function of `cmdCheck`: a link that is up and has an address.
  abbrev pub check_link : CniRequest → Action State (Unit {0})
  check_link req = do
    link ← query (link_by_name req.if_name) "interface %q not found" (req.if_name ∷ [])
    λ s.
        if link.up
        then elim (addr_list link s) [
          | refused e ↦
              (err (wrapf "failed to list addresses on %q" (req.if_name ∷ []) (external e)), s)
          | got [] ↦ (err (errorf "interface %q has no addresses" (req.if_name ∷ [])), s)
          | got (a ∷ addrs) ↦ (ok tt, s)
        ]
        else (err (errorf "interface %q is down" (req.if_name ∷ [])), s)
