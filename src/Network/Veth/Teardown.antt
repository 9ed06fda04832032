-- ===== src/Network/Veth/Teardown.antt =====
-- Setting up and taking down the pair.
use Prim.Native.Nat.{ℕ}
use purenet.Base.{ℤ, ◌≡◌, inl, inr, true, none, List, Str, codes, str_dec, arith, Option-cases}
use purenet.Errors.{ok}
use purenet.Network.Kernel.{Reply-cases, got, refused, Link, Veth, Kernel}
use purenet.Network.Veth.Defs.{generate_host_veth_name, setup_veth, delete_veth}

-- What is documented of links: a query of a name that no link has says "Link not found", and a
-- link that is deleted is gone by its name.
pub record Links (K : Kernel) : Type 0 where
  pub not_found-link_del :
      (name : Str) (l : Link) (s : K.State)
      → K.link_by_name name s ≡ got l
      → (K.link_del l s).0 ≡ none
      → K.link_by_name name (K.link_del l s).1 ≡ refused (codes "Link not found")

module _ (K : Kernel) where
  -- `SetupVeth` returns links only if the kernel took the pair, and they are the links that the
  -- kernel then has under the container's name and the derived name, the host's end first.
  pub setup_veth_ok :
      (sha1 : Str → List ℕ) (if_name id : Str) (mtu : ℤ) (host cont : Link) (s : K.State)
      → (setup_veth K sha1 if_name id mtu s).0 ≡ ok (host, cont)
      → let s' = (setup_veth K sha1 if_name id mtu s).1 in
        (K.link_add_veth
            (record {
              name = if_name;
              flag_up = true;
              mtu = mtu;
              peer_name = generate_host_veth_name sha1 id;
            })
            s
          ≡ (none, s'))
        × (K.link_by_name if_name s' ≡ got cont)
        × (K.link_by_name (generate_host_veth_name sha1 id) s' ≡ got host)
  unfolding setup_veth
  setup_veth_ok sha1 if_name id mtu host cont s done =
      let peer = generate_host_veth_name sha1 id in
      let pair : Veth = record { name = if_name; flag_up = true; mtu = mtu; peer_name = peer } in
      let s' = (K.link_add_veth pair s).1 in
      ground (
        arith,
        Option-cases (K.link_add_veth pair s).0,
        Reply-cases (K.link_by_name if_name s'),
        Reply-cases (K.link_by_name peer s'),
      )

  -- Once the interface is gone, whether by the first `DeleteVeth` or before it, a second one
  -- succeeds and changes nothing.
  pub delete_veth_again :
      (if_name : Str) (s : K.State)
      → Links K
      → (delete_veth K if_name s).0 ≡ ok tt
      → let s' = (delete_veth K if_name s).1 in delete_veth K if_name s' ≡ (ok tt, s')
  unfolding delete_veth str_dec
  delete_veth_again if_name s L done = elim (Reply-cases (K.link_by_name if_name s)) [
    | inr (e, h) ↦ ground (arith, h)
    | inl (link, h) ↦
        ground (arith, h, L.not_found-link_del if_name link s h, Option-cases (K.link_del link s).0)
  ]
