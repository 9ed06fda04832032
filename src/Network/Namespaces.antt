-- ===== src/Network/Namespaces.antt =====
-- The network namespaces of the host and what the settings of a pod do in them.
use purenet.Base.{◌≡◌, ◌≢◌, true, none, some, Option, [], Str, codes}
use purenet.Inet.{IpNet}
use purenet.Network.Entering.{Entering}
use purenet.Network.Kernel.{Reply, got, refused, Link, Addr, Route, Netns, Kernel}

-- The calls that change one table of the current namespace.
pub data Setting : Type 0 where
  set_up : Link → Setting
  assign : Link → Addr → Setting
  add_route : Route → Setting
  write : Str → Str → Setting

pub data Table : Type 0 where
  links addresses routes sysctls : Table

abbrev pub touches : Setting → Table
touches (set_up l) = links
touches (assign l a) = addresses
touches (add_route r) = routes
touches (write path text) = sysctls

module _ (K : Kernel) where
  abbrev pub apply : Setting → K.State → Option Str × K.State
  apply (set_up l) = K.link_set_up l
  apply (assign l a) = K.addr_add l a
  apply (add_route r) = K.route_add r
  apply (write path text) = K.write_file path text

  -- `here` is the namespace of the calling thread, `net` the tables of each namespace. What is
  -- documented: a call acts on the caller's namespace, and a setting on one table of it, but that
  -- an address and a link that comes up may bring routes of their own; entering and leaving a
  -- namespace changes no table, and leaving it goes back to the one before. Files below
  -- /proc/sys/net show the caller's namespace.
  pub record Namespaces : Type 1 where
    pub Net : Type 0
    pub entering : Entering K
    pub here : K.State → Netns
    pub net : K.State → Netns → Net
    pub link : Net → Str → Reply Link
    pub Assigned : Net → Str → IpNet → Type 0
    pub route : Net → IpNet → Option Route
    pub sysctl : Net → Str → Option Str
    pub link_by_name-link : (n : Str) (s : K.State) → K.link_by_name n s ≡ link (net s (here s)) n
    pub name-link : (m : Net) (n : Str) (l : Link) → link m n ≡ got l → l.name ≡ n
    pub here-enter :
        (m : Netns) (s : K.State) → (entering.enter m s).0 ≡ none → here (entering.enter m s).1 ≡ m
    pub here-enter_failed :
        (m : Netns) (s : K.State)
        → (entering.enter m s).0 ≢ none
        → here (entering.enter m s).1 ≡ here s
    pub net-enter : (m n : Netns) (s : K.State) → net (entering.enter m s).1 n ≡ net s n
    pub here-leave : (before s : K.State) → here (entering.leave before s) ≡ here before
    pub net-leave :
        (before : K.State) (n : Netns) (s : K.State) → net (entering.leave before s) n ≡ net s n
    pub here-apply : (c : Setting) (s : K.State) → here (apply c s).1 ≡ here s
    pub net-apply_other :
        (c : Setting) (s : K.State) (n : Netns) → n ≢ here s → net (apply c s).1 n ≡ net s n
    pub link-apply :
        (c : Setting) (s : K.State) (n : Str)
        → touches c ≢ links
        → link (net (apply c s).1 (here s)) n ≡ link (net s (here s)) n
    pub Assigned-apply :
        (c : Setting) (s : K.State) (n : Str) (a : IpNet)
        → touches c ≢ addresses
        → Assigned (net s (here s)) n a
        → Assigned (net (apply c s).1 (here s)) n a
    pub route-apply :
        (c : Setting) (s : K.State) (dst : IpNet) (r : Route)
        → touches c ≢ routes
        → route (net s (here s)) dst ≡ some r
        → route (net (apply c s).1 (here s)) dst ≡ some r
    pub sysctl-apply :
        (c : Setting) (s : K.State) (path : Str)
        → touches c ≢ sysctls
        → sysctl (net (apply c s).1 (here s)) path ≡ sysctl (net s (here s)) path
    pub link-set_up :
        (l : Link) (s : K.State)
        → link (net s (here s)) l.name ≡ got l
        → (K.link_set_up l s).0 ≡ none
        → link (net (K.link_set_up l s).1 (here s)) l.name ≡ got (record l { up = true })
    pub here-link_del : (l : Link) (s : K.State) → here (K.link_del l s).1 ≡ here s
    pub link-link_del :
        (l : Link) (n : Str) (s : K.State)
        → link (net s (here s)) n ≡ got l
        → (K.link_del l s).0 ≡ none
        → link (net (K.link_del l s).1 (here s)) n ≡ refused (codes "Link not found")
    pub Assigned-addr_add :
        (l : Link) (a : Addr) (s : K.State)
        → (K.addr_add l a s).0 ≡ none
        → Assigned (net (K.addr_add l a s).1 (here s)) l.name a.net
    pub addr_list-Assigned :
        (l : Link) (n : Str) (a : IpNet) (s : K.State)
        → link (net s (here s)) n ≡ got l
        → Assigned (net s (here s)) n a
        → K.addr_list l s ≢ got []
    pub route-route_add :
        (r : Route) (s : K.State)
        → (K.route_add r s).0 ≡ none
        → route (net (K.route_add r s).1 (here s)) r.dst ≡ some r
    pub sysctl-write_file :
        (path text : Str) (s : K.State)
        → (K.write_file path text s).0 ≡ none
        → sysctl (net (K.write_file path text s).1 (here s)) path ≡ some text
