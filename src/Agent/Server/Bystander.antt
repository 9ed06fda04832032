-- ===== src/Agent/Server/Bystander.antt =====
-- What a call for one pod leaves of the wiring of another.
use purenet.Base.{◌≡◌, ◌≢◌, ◌∙◌, sym, subst, some, Str, arith}
use purenet.Inet.{Ip, IpNet}
use purenet.Network.Kernel.{Link, Route, Netns, host_netns, Kernel}
use purenet.Network.Namespaces.{Namespaces, Setting, set_up, add_route, write, apply}
use purenet.Network.Apart.{Apart}
use purenet.Network.Veth.{proxy_arp_path, host_route}
use purenet.Agent.Server.Home.{Home}
use purenet.Agent.Server.Steps.{HostSide}

module _ (K : Kernel) (N : Namespaces K) (X : Apart K N) where
  -- The other pod: its host's end, its namespace and what holds there.
  module _ (name : Str) (ip : Ip) (ns : Netns) (apart : ns ≢ host_netns) (F : N.Net → Type 0) where
    abbrev pub Wiring : (Netns → N.Net) → Type 0
    Wiring n = HostSide N (n host_netns) name ip × F (n ns)

    -- In a third namespace.
    abbrev pub Aside : Netns → K.State → Type 0
    Aside m s = (N.here s ≡ m) × Wiring (N.net s)

    abbrev pub AtHome : K.State → Type 0
    AtHome s = Home K N s × Wiring (N.net s)

    host_kept :
        (m m' : N.Net)
        → N.link m' name ≡ N.link m name
        → N.sysctl m' (proxy_arp_path name) ≡ N.sysctl m (proxy_arp_path name)
        → ((dst : IpNet) (r : Route) → N.route m dst ≡ some r → N.route m' dst ≡ some r)
        → HostSide N m name ip
        → HostSide N m' name ip
    host_kept m m' link sysctl route h = record {
      end_up = record { device = h.end_up.device; found = link ∙ h.end_up.found; up = h.end_up.up };
      arp = sysctl ∙ h.arp;
      routed =
          route (host_route K h.end_up.device ip).dst (host_route K h.end_up.device ip) h.routed;
    }

    -- A call that touches neither of the two namespaces.
    pub far :
        (m : Netns) (f : K.State → K.State)
        → ((s : K.State) → N.here (f s) ≡ N.here s)
        → ((s : K.State) (n : Netns) → n ≢ N.here s → N.net (f s) n ≡ N.net s n)
        → m ≢ host_netns
        → m ≢ ns
        → (s : K.State) → Aside m s
        → Aside m (f s)
    far m f here net not_host not_ns s (at, (h, p)) = (
      here s ∙ at,
      (
        subst (λ t. HostSide N t name ip) (sym (net s host_netns (λ e. not_host (sym (e ∙ at))))) h,
        subst F (sym (net s ns (λ e. not_ns (sym (e ∙ at))))) p,
      ),
    )

    -- The host's end of another pod is moved to the agent's namespace.
    pub moved :
        (m : Netns) (l : Link) (s : K.State)
        → m ≢ host_netns
        → m ≢ ns
        → name ≢ l.name
        → Aside m s
        → Aside m (K.link_set_ns l host_netns s).1
    moved m l s not_host not_ns other (at, (h, p)) =
        let away : host_netns ≢ N.here s = λ e. not_host (sym (e ∙ at)) in
        (
          X.here-link_set_ns l host_netns s ∙ at,
          (
            host_kept (N.net s host_netns) (N.net (K.link_set_ns l host_netns s).1 host_netns)
                (X.link-link_set_ns_other l host_netns s name away other)
                (X.sysctl-link_set_ns_other l host_netns s name away other)
                (λ dst r e. X.route-link_set_ns l host_netns s dst away ∙ e) h,
            subst F
                (sym (X.net-link_set_ns_other l host_netns s ns (λ e. not_ns (sym (e ∙ at))) apart))
                p,
          ),
        )

    -- A setting in the agent's namespace.
    at_home :
        (c : Setting)
        → ((s : K.State)
            → HostSide N (N.net s (N.here s)) name ip
            → HostSide N (N.net (apply K c s).1 (N.here s)) name ip)
        → (s : K.State) → AtHome s
        → AtHome (apply K c s).1
    at_home c step s (home, (h, p)) = (
      N.here-apply c s ∙ home,
      (
        subst (λ n. HostSide N (N.net (apply K c s).1 n) name ip) home
            (step s (subst (λ n. HostSide N (N.net s n) name ip) (sym home) h)),
        subst F (sym (N.net-apply_other c s ns (λ e. apart (e ∙ home)))) p,
      ),
    )

    pub set_up-AtHome :
        (l : Link) → name ≢ l.name → (s : K.State) → AtHome s → AtHome (apply K (set_up l) s).1
    set_up-AtHome l other = at_home (set_up l) (λ s.
        host_kept _ _ (X.link-set_up_other l s name other)
          (N.sysctl-apply (set_up l) s (proxy_arp_path name) (λ e. ground (arith, e)))
          (λ dst r. N.route-apply (set_up l) s dst r (λ e. ground (arith, e))))

    pub write-AtHome :
        (path text : Str)
        → proxy_arp_path name ≢ path
        → (s : K.State) → AtHome s
        → AtHome (apply K (write path text) s).1
    write-AtHome path text other = at_home (write path text) (λ s.
        host_kept _ _ (N.link-apply (write path text) s name (λ e. ground (arith, e)))
          (X.sysctl-write_file_other path text s (proxy_arp_path name) other)
          (λ dst r. N.route-apply (write path text) s dst r (λ e. ground (arith, e))))

    pub add_route-AtHome : (q : Route) (s : K.State) → AtHome s → AtHome (apply K (add_route q) s).1
    add_route-AtHome q = at_home (add_route q) (λ s.
        host_kept _ _ (N.link-apply (add_route q) s name (λ e. ground (arith, e)))
          (N.sysctl-apply (add_route q) s (proxy_arp_path name) (λ e. ground (arith, e)))
          (λ dst r. X.route-route_add_kept q s dst r))
