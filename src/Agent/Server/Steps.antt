-- ===== src/Agent/Server/Steps.antt =====
-- What the settings of `cmdAdd` bring about in the namespace where they are made.
use Prim.Native.String.{String}
use purenet.Base.{
  ◌≡◌, ◌≢◌, ◌∙◌, sym, ap, subst, true, refl, none, some, Str, codes, List, [], ◌∷◌, arith,
}
use purenet.Inet.{Ip, IpNet}
use purenet.Network.Kernel.{got, Link, Addr, Kernel}
use purenet.Network.Action.{query, exec}
use purenet.Network.Namespaces.{
  Namespaces, Setting, set_up, assign, add_route, write, links, touches, apply,
}
use purenet.Network.Yields.{
  Yields, Yields-query, Yields-exec, Yields-bind, Yields-then, Yields-weaken,
}
use purenet.Network.Veth.{
  proxy_arp_path, enable_proxy_arp, setup_host_route, host_route, configure_interface,
  gateway_route, default_net,
}

-- A link of that name is up.
pub record IsLive {K : Kernel} (N : Namespaces K) (m : N.Net) (name : Str) : Type 0 where
  pub device : Link
  pub found : N.link m name ≡ got device
  pub up : device.up ≡ true

-- The host's end of a pod's veth pair: a link that is up, with proxy ARP, and the only way to `ip`.
pub record HostSide {K : Kernel} (N : Namespaces K) (m : N.Net) (name : Str) (ip : Ip)
    : Type 0 where
  pub end_up : IsLive N m name
  pub arp : N.sysctl m (proxy_arp_path name) ≡ some (codes "1")
  pub routed : N.route m (host_route K end_up.device ip).dst ≡ some (host_route K end_up.device ip)

-- The pod's end: a link that is up, with the pod's address, and a default route.
pub record PodSide {K : Kernel} (N : Namespaces K) (m : N.Net) (name : Str) (address : IpNet)
    (gw : Ip) : Type 0 where
  pub end_up : IsLive N m name
  pub assigned : N.Assigned m name address
  pub routed : N.route m default_net ≡ some (gateway_route K default_net gw)

module _ (K : Kernel) (N : Namespaces K) where
  -- The tables of the namespace that the thread is in.
  abbrev pub current : K.State → N.Net
  current s = N.net s (N.here s)

  pub apply-IsLive :
      (c : Setting) (s : K.State) (name : Str)
      → touches c ≢ links
      → IsLive N (current s) name
      → IsLive N (N.net (apply K c s).1 (N.here s)) name
  apply-IsLive c s name ne u = record {
    device = u.device;
    found = N.link-apply c s name ne ∙ u.found;
    up = u.up;
  }

  pub set_up-IsLive :
      (l : Link) (s : K.State) (name : Str)
      → N.link (current s) name ≡ got l
      → (K.link_set_up l s).0 ≡ none
      → IsLive N (N.net (K.link_set_up l s).1 (N.here s)) name
  set_up-IsLive l s name e done =
      let same = N.name-link (current s) name l e in
      let at_name : N.link (current s) l.name ≡ got l = ap (N.link (current s)) same ∙ e in
      record {
        device = record l { up = true };
        found =
            ap (N.link (N.net (K.link_set_up l s).1 (N.here s))) (sym same)
            ∙ N.link-set_up l s at_name done;
        up = refl;
      }

  -- `Frame` is what settings made here cannot touch.
  module _ (Frame : K.State → Type 0)
      (keep : (c : Setting) (s : K.State) → Frame s → Frame (apply K c s).1) where
    abbrev pub Here : (N.Net → Type 0) → K.State → Type 0
    Here F s = Frame s × F (current s)

    pub setting-Yields :
        (c : Setting) (F G : N.Net → Type 0) (format : String) (args : List Str)
        → ((s : K.State)
            → F (current s)
            → (apply K c s).0 ≡ none
            → G (N.net (apply K c s).1 (N.here s)))
        → Yields (Here F) (exec (apply K c) format args) (λ _. Here G)
    setting-Yields c F G format args step =
        Yields-exec (Here G) (apply K c) format args (λ s p done. (
          keep c s p.0,
          subst (λ n. G (N.net (apply K c s).1 n)) (sym (N.here-apply c s)) (step s p.1 done),
        ))

    pub link_by_name-Yields :
        (n : Str) (F : N.Net → Type 0) (format : String) (args : List Str)
        → Yields
            (Here F)
            (query (K.link_by_name n) format args)
            (λ l. Here (λ m. F m × (N.link m n ≡ got l)))
    link_by_name-Yields n F format args =
        Yields-weaken (query (K.link_by_name n) format args)
          (Yields-query (K.link_by_name n) format args)
          (λ l s q. (q.0.0, (q.0.1, sym (N.link_by_name-link n s) ∙ q.1)))

    pub enable_proxy_arp-Yields :
        (name : Str)
        → Yields (Here (λ m. IsLive N m name)) (enable_proxy_arp K name) (λ _.
          Here (λ m. IsLive N m name × (N.sysctl m (proxy_arp_path name) ≡ some (codes "1"))))
    unfolding enable_proxy_arp
    enable_proxy_arp-Yields name =
        setting-Yields (write (proxy_arp_path name) (codes "1")) (λ m. IsLive N m name)
          (λ m. IsLive N m name × (N.sysctl m (proxy_arp_path name) ≡ some (codes "1")))
          "failed to enable proxy_arp on %s" (name ∷ [])
          (λ s u done. (
            apply-IsLive (write (proxy_arp_path name) (codes "1")) s name (λ e. ground (arith, e))
                u,
            N.sysctl-write_file (proxy_arp_path name) (codes "1") s done,
          ))

    pub setup_host_route-Yields :
        (name : Str) (ip : Ip)
        → Yields
            (Here (λ m. IsLive N m name × (N.sysctl m (proxy_arp_path name) ≡ some (codes "1"))))
            (setup_host_route K name ip)
            (λ _. Here (λ m. HostSide N m name ip))
    unfolding setup_host_route
    setup_host_route-Yields name ip =
        Yields-bind _ _
          (link_by_name-Yields name
            (λ m. IsLive N m name × (N.sysctl m (proxy_arp_path name) ≡ some (codes "1")))
            "failed to find host veth %q" (name ∷ []))
          (λ link.
            setting-Yields (add_route (host_route K link ip))
              (λ m.
                (IsLive N m name × (N.sysctl m (proxy_arp_path name) ≡ some (codes "1")))
                × (N.link m name ≡ got link))
              (λ m. HostSide N m name ip) "failed to add host route %v dev %s" (ip ∷ name ∷ [])
              (λ s p done. routed link s p.0.0 p.0.1 p.1 done))
      where
        routed :
            (link : Link) (s : K.State)
            → IsLive N (current s) name
            → N.sysctl (current s) (proxy_arp_path name) ≡ some (codes "1")
            → N.link (current s) name ≡ got link
            → (K.route_add (host_route K link ip) s).0 ≡ none
            → HostSide N (N.net (K.route_add (host_route K link ip) s).1 (N.here s)) name ip
        routed link s u arp e done =
            let r = host_route K link ip in
            let same : u.device ≡ link = ground (arith, u.found, e) in
            record {
              end_up = record {
                device = u.device;
                found = N.link-apply (add_route r) s name (λ e. ground (arith, e)) ∙ u.found;
                up = u.up;
              };
              arp =
                  N.sysctl-apply (add_route r) s (proxy_arp_path name) (λ e. ground (arith, e))
                  ∙ arp;
              routed =
                  subst
                    (λ l.
                      N.route (N.net (K.route_add r s).1 (N.here s)) (host_route K l ip).dst
                      ≡ some (host_route K l ip))
                    (sym same) (N.route-route_add r s done);
            }

    pub configure_interface-Yields :
        (name : Str) (a : Addr)
        → Yields
            (Here (λ m. Unit {0}))
            (configure_interface K name a)
            (λ _. Here (λ m. IsLive N m name × N.Assigned m name a.net))
    unfolding configure_interface
    configure_interface-Yields name a =
        Yields-bind _ _
          (link_by_name-Yields name (λ m. Unit {0}) "failed to find interface %q" (name ∷ []))
          (λ link.
            Yields-then (Here (λ m. N.Assigned m name a.net × (N.link m name ≡ got link))) _ _
              (setting-Yields (assign link a) (λ m. Unit {0} × (N.link m name ≡ got link))
                (λ m. N.Assigned m name a.net × (N.link m name ≡ got link))
                "failed to add address %v to %q" (a.net.ip ∷ name ∷ [])
                (λ s p done. (
                  subst (λ n. N.Assigned (N.net (K.addr_add link a s).1 (N.here s)) n a.net)
                      (N.name-link (current s) name link p.1) (N.Assigned-addr_add link a s done),
                  N.link-apply (assign link a) s name (λ e. ground (arith, e)) ∙ p.1,
                )))
              (setting-Yields (set_up link)
                (λ m. N.Assigned m name a.net × (N.link m name ≡ got link))
                (λ m. IsLive N m name × N.Assigned m name a.net) "failed to bring up interface %q"
                (name ∷ [])
                (λ s p done. (
                  set_up-IsLive link s name p.1 done,
                  N.Assigned-apply (set_up link) s name a.net (λ e. ground (arith, e)) p.0,
                ))))

    pub add_route-Yields :
        (name : Str) (address : IpNet) (gw : Ip) (format : String) (args : List Str)
        → Yields
            (Here (λ m. IsLive N m name × N.Assigned m name address))
            (exec (K.route_add (gateway_route K default_net gw)) format args)
            (λ _. Here (λ m. PodSide N m name address gw))
    add_route-Yields name address gw format args =
        setting-Yields (add_route (gateway_route K default_net gw))
          (λ m. IsLive N m name × N.Assigned m name address) (λ m. PodSide N m name address gw)
          format args
          (λ s p done. record {
            end_up =
                apply-IsLive (add_route (gateway_route K default_net gw)) s name
                  (λ e. ground (arith, e)) p.0;
            assigned =
                N.Assigned-apply (add_route (gateway_route K default_net gw)) s name address
                  (λ e. ground (arith, e)) p.1;
            routed = N.route-route_add (gateway_route K default_net gw) s done;
          })
