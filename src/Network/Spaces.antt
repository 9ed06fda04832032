-- ===== src/Network/Spaces.antt =====
-- A kernel of many namespaces in memory: each is a host of Network/Memory. It has what is assumed
-- of kernels with namespaces.
use purenet.Base.{
  false, lookup-erase, inl, inr, [], subst, sym, ◌≡◌, ◌≢◌, ap, ◌∙◌, true, refl, none, some, Option,
  Str, lookup, erase, ite, arith, Option-cases, Bool-cases, lookup-insert,
}
unfoldable use native.Mathlib.Decide.{ℕ_discrete}
use purenet.Network.Kernel.{Addr, got, Link, Route, Netns, host_netns, netns, Kernel}
use purenet.Network.Entering.{Entering}
use purenet.Network.Apart.{Apart}
use purenet.Network.Memory.{Host, empty_host, memory, find_link, add_link}
use purenet.Inet.{IpNet}
use purenet.Network.Namespaces.{
  Namespaces, Setting, set_up, assign, add_route, write, touches, links, sysctls, apply,
}

unfoldable pub netns_dec : (a b : Netns) → Dec (a ≡ b)
unfolding ℕ_discrete
netns_dec = hlevel ℕ_discrete

pub record Spaces : Type 0 where
  pub current : Netns
  pub hosts : Netns → Host

-- Only the agent's namespace and those that have been made can be entered: here all.
abbrev pub empty_spaces : Spaces
empty_spaces = record { current = host_netns; hosts = λ n. empty_host }

abbrev put : Netns → Host → (Netns → Host) → Netns → Host
put n h hosts m = ite (netns_dec m n) h (hosts m)

-- A call in the current namespace.
abbrev pub in_current : (Host → Option Str × Host) → Spaces → Option Str × Spaces
in_current f s =
    let (e, h) = f (s.hosts s.current) in (e, record s { hosts = put s.current h s.hosts })

-- The link goes from the current namespace to another.
abbrev pub move_link : Link → Netns → Spaces → Option Str × Spaces
move_link l n s =
    let h = s.hosts s.current in
    let left = put s.current (record h { links = erase l.name h.links }) s.hosts in
    (none, record s { hosts = put n (add_link l.name (left n)) left })

abbrev pub spaces : Kernel
spaces = record {
  State = Spaces;
  link_by_name = λ n s. find_link n (s.hosts s.current);
  link_add_veth = λ v. in_current (memory.link_add_veth v);
  link_add_vxlan = λ v. in_current (memory.link_add_vxlan v);
  link_set_up = λ l. in_current (memory.link_set_up l);
  link_set_hardware_addr = λ l mac. in_current (memory.link_set_hardware_addr l mac);
  link_del = λ l. in_current (memory.link_del l);
  addr_add = λ l a. in_current (memory.addr_add l a);
  route_add = λ r. in_current (memory.route_add r);
  route_del = λ r. in_current (memory.route_del r);
  neigh_set = λ n. in_current (memory.neigh_set n);
  neigh_del = λ n. in_current (memory.neigh_del n);
  addr_list = λ l s. memory.addr_list l (s.hosts s.current);
  link_set_ns = move_link;
  get_ns = λ path s. got (netns 1);
  ns_do = λ n act s.
      let (r, t) = act (record s { current = n }) in (r, record t { current = s.current });
  write_file = λ path text. in_current (memory.write_file path text);
  nft_new = λ table s. got tt;
  nft_run = λ ops. in_current (memory.nft_run ops);
}

pub here-apply_lem : (c : Setting) (s : Spaces) → (apply spaces c s).1.current ≡ s.current
here-apply_lem (set_up l) s = refl
here-apply_lem (assign l a) s = refl
here-apply_lem (add_route r) s = refl
here-apply_lem (write path text) s = refl

pub net-apply_lem :
    (c : Setting) (s : Spaces) (n : Netns)
    → n ≢ s.current
    → (apply spaces c s).1.hosts n ≡ s.hosts n
net-apply_lem (set_up l) s n ne = ground (arith, ne)
net-apply_lem (assign l a) s n ne = ground (arith, ne)
net-apply_lem (add_route r) s n ne = ground (arith, ne)
net-apply_lem (write path text) s n ne = ground (arith, ne)

-- What a setting does to the current host.
pub net-current :
    (c : Setting) (s : Spaces)
    → (apply spaces c s).1.hosts s.current ≡ (apply memory c (s.hosts s.current)).1
net-current (set_up l) s = ground arith
net-current (assign l a) s = ground arith
net-current (add_route r) s = ground arith
net-current (write path text) s = ground arith

pub link-apply_lem :
    (c : Setting) (h : Host) (n : Str)
    → touches c ≢ links
    → find_link n (apply memory c h).1 ≡ find_link n h
link-apply_lem (set_up l) h n ne = absurd (ne refl)
link-apply_lem (assign l a) h n ne = ground (arith, Bool-cases (h.owned l.name a.net))
link-apply_lem (add_route r) h n ne = ground (arith, Option-cases (h.routes r.dst))
link-apply_lem (write path text) h n ne = refl

-- An address is held by a link, and listed.
abbrev pub Owned : Host → Str → IpNet → Type 0
Owned h n a = (h.owned n a ≡ true) × (h.addrs ≢ [])

pub apply-Owned :
    (c : Setting) (h : Host) (n : Str) (a : IpNet) → Owned h n a → Owned (apply memory c h).1 n a
apply-Owned (set_up l) h n a e = e
apply-Owned (assign l b) h n a e = elim (Bool-cases (h.owned l.name b.net)) [
  | inl there ↦ (ground (arith, e.0, there), ground (arith, e.1, there))
  | inr new ↦ (ground (arith, e.0, new), ground (arith, new))
]
apply-Owned (add_route r) h n a e = elim (Option-cases (h.routes r.dst)) [
  | inl new ↦ (ground (arith, e.0, new), ground (arith, e.1, new))
  | inr there ↦ (ground (arith, e.0, there), ground (arith, e.1, there))
]
apply-Owned (write path text) h n a e = e

pub addr_add-Owned :
    (l : Link) (a : Addr) (h : Host)
    → (memory.addr_add l a h).0 ≡ none
    → Owned (memory.addr_add l a h).1 l.name a.net
addr_add-Owned l a h done = elim (Bool-cases (h.owned l.name a.net)) [
  | inl there ↦ ground (arith, there, done)
  | inr new ↦ (ground (arith, new), ground (arith, new))
]

pub routes-apply_lem :
    (c : Setting) (h : Host) (dst : IpNet) (r : Route)
    → h.routes dst ≡ some r
    → (apply memory c h).1.routes dst ≡ some r
routes-apply_lem (set_up l) h dst r e = e
routes-apply_lem (assign l b) h dst r e = ground (arith, e, Bool-cases (h.owned l.name b.net))
routes-apply_lem (add_route q) h dst r e = ground (arith, e, Option-cases (h.routes q.dst))
routes-apply_lem (write path text) h dst r e = e

pub files-apply_lem :
    (c : Setting) (h : Host) (path : Str)
    → touches c ≢ sysctls
    → lookup path (apply memory c h).1.files ≡ lookup path h.files
files-apply_lem (set_up l) h path ne = refl
files-apply_lem (assign l b) h path ne = ground (arith, Bool-cases (h.owned l.name b.net))
files-apply_lem (add_route q) h path ne = ground (arith, Option-cases (h.routes q.dst))
files-apply_lem (write p text) h path ne = absurd (ne refl)

abbrev pub spaces_entering : Entering spaces
spaces_entering = record {
  enter = λ n s. (none, record s { current = n });
  leave = λ before s. record s { current = before.current };
  ns_do-entered = λ n act s e. refl;
  ns_do-refused = λ n act s t e. ground (arith, e);
}

abbrev pub spaces_namespaces : Namespaces spaces
spaces_namespaces = record {
  Net = Host;
  here = λ s. s.current;
  net = λ s. s.hosts;
  link = λ h n. find_link n h;
  Assigned = Owned;
  route = λ h. h.routes;
  sysctl = λ h path. lookup path h.files;
  link_by_name-link = λ n s. refl;
  name-link = λ h n l e. ground (arith, e, Option-cases (lookup n h.links));
  entering = spaces_entering;
  here-enter = λ m s e. refl;
  here-enter_failed = λ m s e. absurd (e refl);
  net-enter = λ m n s. refl;
  here-leave = λ before s. refl;
  net-leave = λ before n s. refl;
  here-apply = here-apply_lem;
  net-apply_other = net-apply_lem;
  link-apply =
      λ c s n ne. ap (find_link n) (net-current c s) ∙ link-apply_lem c (s.hosts s.current) n ne;
  Assigned-apply = λ c s n a ne e.
      subst (λ (h : Host). Owned h n a) (sym (net-current c s))
        (apply-Owned c (s.hosts s.current) n a e);
  route-apply = λ c s dst r ne e.
      ap (λ (h : Host). h.routes dst) (net-current c s)
      ∙ routes-apply_lem c (s.hosts s.current) dst r e;
  sysctl-apply = λ c s path ne.
      ap (λ (h : Host). lookup path h.files) (net-current c s)
      ∙ files-apply_lem c (s.hosts s.current) path ne;
  link-set_up = λ l s e done.
      ap (find_link l.name) (net-current (set_up l) s)
      ∙ ground (arith, e, lookup-insert l.name l.name (l.index, true) (s.hosts s.current).links);
  here-link_del = λ l s. refl;
  link-link_del = λ l n s e done. ground (
    arith,
    e,
    Option-cases (lookup n (s.hosts s.current).links),
    lookup-erase n l.name (s.hosts s.current).links,
  );
  Assigned-addr_add = λ l a s done.
      subst (λ (h : Host). Owned h l.name a.net) (sym (net-current (assign l a) s))
        (addr_add-Owned l a (s.hosts s.current) done);
  addr_list-Assigned = λ l n a s e held listed. ground (arith, listed, held.1);
  route-route_add = λ r s done.
      ap (λ (h : Host). h.routes r.dst) (net-current (add_route r) s)
      ∙ ground (arith, done, Option-cases ((s.hosts s.current).routes r.dst));
  sysctl-write_file = λ path text s done.
      ap (λ (h : Host). lookup path h.files) (net-current (write path text) s)
      ∙ ground (arith, lookup-insert path path text (s.hosts s.current).files);
}

abbrev pub spaces_apart : Apart spaces spaces_namespaces
spaces_apart = record {
  here-link_add_veth = λ v s. refl;
  net-link_add_veth_other = λ v s n ne. ground (arith, ne);
  here-link_set_ns = λ l m s. refl;
  net-link_set_ns_other = λ l m s n ne other. ground (arith, ne, other);
  link-link_set_ns_other = λ l m s name ne other.
      ground (arith, ne, other, lookup-insert name l.name (7, false) (s.hosts m).links);
  sysctl-link_set_ns_other = λ l m s name ne other. ground (arith, ne);
  route-link_set_ns = λ l m s dst ne. ground (arith, ne);
  link-set_up_other = λ l s name ne.
      ap (find_link name) (net-current (set_up l) s)
      ∙ ground (arith, ne, lookup-insert name l.name (l.index, true) (s.hosts s.current).links);
  sysctl-write_file_other = λ path text s other ne.
      ap (λ (h : Host). lookup other h.files) (net-current (write path text) s)
      ∙ ground (arith, ne, lookup-insert other path text (s.hosts s.current).files);
  route-route_add_kept = λ q s dst r e.
      ap (λ (h : Host). h.routes dst) (net-current (add_route q) s)
      ∙ ground (arith, e, Option-cases ((s.hosts s.current).routes q.dst));
}
