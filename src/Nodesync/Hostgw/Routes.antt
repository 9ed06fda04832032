-- ===== src/Nodesync/Hostgw/Routes.antt =====
-- The routes that `addRoute` and `delRoute` leave in the kernel.
use purenet.Base.{
  ◌≡◌, ◌≢◌, ◌∙◌, inl, inr, refl, sym, Option, none, some, [], ◌∷◌, Str, codes, str_dec, arith,
  Option-cases,
}
use purenet.Errors.{ok}
use purenet.Inet.{Ip, IpNet, Inet6, parse_ip, parse_cidr}
use purenet.Network.Kernel.{Kernel, Route}
use purenet.Nodesync.Backend.{IsBackend}
use purenet.Nodesync.Hostgw.Defs.{via, add_route, del_route}

-- The main table by destination, and what is documented of the calls: a route is added where none
-- has its destination, else the call says "file exists"; a call leaves other destinations alone.
pub record RouteTable (K : Kernel) : Type 0 where
  pub route : K.State → IpNet → Option Route
  pub route-route_add :
      (r : Route) (s : K.State)
      → (K.route_add r s).0 ≡ none
      → route (K.route_add r s).1 r.dst ≡ some r
  pub route-route_add_exists :
      (r : Route) (s : K.State)
      → (K.route_add r s).0 ≡ some (codes "file exists")
      → (route s r.dst ≢ none) × (route (K.route_add r s).1 r.dst ≡ route s r.dst)
  pub route-route_add_other :
      (r : Route) (s : K.State) (dst : IpNet)
      → dst ≢ r.dst
      → route (K.route_add r s).1 dst ≡ route s dst
  pub route-route_del_other :
      (r : Route) (s : K.State) (dst : IpNet)
      → dst ≢ r.dst
      → route (K.route_del r s).1 dst ≡ route s dst

module _ (K : Kernel) (six : Inet6) (T : RouteTable K) where
  -- The kernel sends the block that the text names to the address that the text names.
  abbrev pub Routed : Str → Str → K.State → Type 0
  Routed cidr ip s =
      (dst : IpNet) × (r : Route) × (parse_cidr six cidr ≡ some dst)
      × (T.route s dst ≡ some r)
      × (r.gw ≡ parse_ip six ip)

  abbrev pub Unrouted : Str → K.State → Type 0
  Unrouted cidr s = (dst : IpNet) → parse_cidr six cidr ≡ some dst → T.route s dst ≡ none

  abbrev pub OtherBlock : Str → Str → Type 0
  OtherBlock cidr cidr' =
      (dst dst' : IpNet)
      → parse_cidr six cidr ≡ some dst
      → parse_cidr six cidr' ≡ some dst'
      → dst ≢ dst'

  -- An `addRoute` without an error, for a block that has no route, routes the block to the node.
  pub add_route-Routed :
      (cidr ip : Str) (s : K.State)
      → Unrouted cidr s
      → (add_route K six cidr ip s).0 ≡ ok tt
      → Routed cidr ip (add_route K six cidr ip s).1
  unfolding add_route
  add_route-Routed cidr ip s clear done = elim (Option-cases (parse_cidr six cidr)) [
    | inl bad ↦ ground (arith, bad)
    | inr (dst, good) ↦ go (parse_ip six ip) refl dst good
  ]
    where
      go :
          (gw : Ip)
          → parse_ip six ip ≡ gw
          → (dst : IpNet) → parse_cidr six cidr ≡ some dst
          → Routed cidr ip (add_route K six cidr ip s).1
      go [] e dst good = ground (arith, e, good)
      go (b ∷ gw) e dst good = (
        dst,
        via dst (b ∷ gw),
        good,
        ground (
          arith,
          e,
          clear dst good,
          T.route-route_add (via dst (b ∷ gw)) s,
          T.route-route_add_exists (via dst (b ∷ gw)) s,
        ),
        sym e,
      )

  -- Where the block has a route with whatever gateway, `addRoute` reports success and leaves it.
  pub add_route_exists :
      (cidr ip : Str) (dst : IpNet) (r : Route) (s : K.State)
      → parse_cidr six cidr ≡ some dst
      → parse_ip six ip ≢ []
      → T.route s dst ≡ some r
      → ((r' : Route) → r'.dst ≡ dst → (K.route_add r' s).0 ≡ some (codes "file exists"))
      → ((add_route K six cidr ip s).0 ≡ ok tt)
        × (T.route (add_route K six cidr ip s).1 dst ≡ some r)
  unfolding add_route str_dec
  add_route_exists cidr ip dst r s good addr there refuses = go (parse_ip six ip) refl
    where
      go :
          (gw : Ip)
          → parse_ip six ip ≡ gw
          → ((add_route K six cidr ip s).0 ≡ ok tt)
            × (T.route (add_route K six cidr ip s).1 dst ≡ some r)
      go [] e = ground (arith, e, addr)
      go (b ∷ gw) e = ground (
        arith,
        e,
        good,
        refuses (via dst (b ∷ gw)) refl,
        T.route-route_add_exists (via dst (b ∷ gw)) s,
      )

  pub add_route_other :
      (cidr ip : Str) (dst : IpNet) (s : K.State)
      → ((own : IpNet) → parse_cidr six cidr ≡ some own → dst ≢ own)
      → T.route (add_route K six cidr ip s).1 dst ≡ T.route s dst
  unfolding add_route
  add_route_other cidr ip dst s other = elim (Option-cases (parse_cidr six cidr)) [
    | inl bad ↦ ground (arith, bad)
    | inr (own, good) ↦ go (parse_ip six ip) refl own good
  ]
    where
      go :
          (gw : Ip)
          → parse_ip six ip ≡ gw
          → (own : IpNet) → parse_cidr six cidr ≡ some own
          → T.route (add_route K six cidr ip s).1 dst ≡ T.route s dst
      go [] e own good = ground (arith, e, good)
      go (b ∷ gw) e own good =
          ground (arith, e, good, T.route-route_add_other (via own (b ∷ gw)) s dst (other own good))

  pub del_route_other :
      (cidr ip : Str) (dst : IpNet) (s : K.State)
      → ((own : IpNet) → parse_cidr six cidr ≡ some own → dst ≢ own)
      → T.route (del_route K six cidr ip s).1 dst ≡ T.route s dst
  unfolding del_route
  del_route_other cidr ip dst s other = elim (Option-cases (parse_cidr six cidr)) [
    | inl bad ↦ ground (arith, bad)
    | inr (own, good) ↦ go (parse_ip six ip) refl own good
  ]
    where
      go :
          (gw : Ip)
          → parse_ip six ip ≡ gw
          → (own : IpNet) → parse_cidr six cidr ≡ some own
          → T.route (del_route K six cidr ip s).1 dst ≡ T.route s dst
      go [] e own good = ground (arith, e, good)
      go (b ∷ gw) e own good =
          ground (arith, e, good, T.route-route_del_other (via own (b ∷ gw)) s dst (other own good))

  -- `addRoute` and `delRoute` are a backend of the handlers.
  abbrev pub hostgw_backend : IsBackend (add_route K six) (del_route K six)
  hostgw_backend = record {
    Installed = Routed;
    Clear = Unrouted;
    Apart = OtherBlock;
    add-Installed = add_route-Routed;
    add-Installed_other = λ cidr ip cidr' ip' s apart (dst, r, good, there, gw). (
      dst,
      r,
      good,
      add_route_other cidr ip dst s (λ own own_good. apart dst own good own_good) ∙ there,
      gw,
    );
    del-Installed_other = λ cidr ip cidr' ip' s apart (dst, r, good, there, gw). (
      dst,
      r,
      good,
      del_route_other cidr ip dst s (λ own own_good. apart dst own good own_good) ∙ there,
      gw,
    );
  }
