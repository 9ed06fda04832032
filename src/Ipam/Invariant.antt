-- ===== src/Ipam/Invariant.antt =====
-- The two maps of the allocator mirror each other, and hold host addresses of the block only.
use purenet.Base.{
  ◌+◌, ◌≤◌, ◌<◌, ◌≡◌, sym, ap, subst, none, some, Str, str_dec, Dict, lookup, insert, erase,
  NodupKeys, lookup-insert, lookup-erase, insert-NodupKeys, erase-NodupKeys, arith,
}
use purenet.Inet.{Ip4, IsBytes, IpNet, number4, to4, ip_string}
use purenet.Inet.RoundTrip.{parse4-ip_string}
use purenet.Inet.{parse4}
use purenet.Ipam.Defs.{Allocator}
use purenet.Ipam.Scan.{IsBlock, size_of, IsFirstFree}

-- Two addresses with one text are one address.
pub ip_string_injective : (a b : Ip4) → IsBytes a → IsBytes b → ip_string a ≡ ip_string b → a ≡ b
ip_string_injective a b v w e =
    ground (arith, parse4-ip_string a v, parse4-ip_string b w, ap parse4 e)

-- Neither the network address, nor the gateway, nor the broadcast address of the block.
pub record IsHost (n : IpNet) (ip : Ip4) : Type 0 where
  pub base : Ip4
  pub is_v4 : to4 n.ip ≡ some base
  pub bytes : IsBytes ip
  pub above : number4 base + 2 ≤ number4 ip
  pub below : number4 ip + 1 < number4 base + size_of n

pub record IsValid (a : Allocator) : Type 0 where
  pub block : IsBlock a.subnet
  pub keys : NodupKeys a.allocs
  pub forward :
      (cid : Str) (ip : Ip4)
      → lookup cid a.allocs ≡ some ip
      → lookup (ip_string ip) a.used ≡ some cid
  pub backward :
      (s cid : Str)
      → lookup s a.used ≡ some cid
      → (ip : Ip4) × (lookup cid a.allocs ≡ some ip) × (s ≡ ip_string ip)
  pub hosts : (cid : Str) (ip : Ip4) → lookup cid a.allocs ≡ some ip → IsHost a.subnet ip

-- No two containers hold one address.
pub no_double_allocation :
    (a : Allocator) (c d : Str) (ip : Ip4)
    → IsValid a
    → lookup c a.allocs ≡ some ip
    → lookup d a.allocs ≡ some ip
    → c ≡ d
no_double_allocation a c d ip v p q = ground (arith, v.forward c ip p, v.forward d ip q)

-- The updates of `Add` and `Del`, without the disk.
abbrev pub assigned : Str → Ip4 → Allocator → Allocator
assigned cid ip a = record a {
  allocs = insert cid ip a.allocs;
  used = insert (ip_string ip) cid a.used;
}

abbrev pub released : Str → Ip4 → Allocator → Allocator
released cid ip a = record a { allocs = erase cid a.allocs; used = erase (ip_string ip) a.used }

pub IsHost-of_first_free :
    (n : IpNet) (b : IsBlock n) (used : Dict Str) (ip : Ip4)
    → IsFirstFree n b.base used ip
    → IsHost n ip
IsHost-of_first_free n b used ip f = record {
  base = b.base;
  is_v4 = b.is_v4;
  bytes = f.bytes;
  above = omega (arith, f.at_offset, f.after_gateway);
  below = omega (arith, f.at_offset, f.before_broadcast);
}

module _ (a : Allocator) (v : IsValid a) (cid : Str) (ip : Ip4) where
  pub assigned-IsValid :
      lookup cid a.allocs ≡ none
      → lookup (ip_string ip) a.used ≡ none
      → IsHost a.subnet ip
      → IsValid (assigned cid ip a)
  assigned-IsValid new free host = record {
    block = v.block;
    keys = insert-NodupKeys cid ip a.allocs v.keys;
    forward = λ c j h. ground (
      arith,
      lookup-insert c cid ip a.allocs,
      lookup-insert (ip_string j) (ip_string ip) cid a.used,
      v.forward c j,
    );
    backward = λ s c h. elim (str_dec (ip_string ip) s) [
      | yes e ↦ (
        ip,
        ground (arith, lookup-insert c cid ip a.allocs, lookup-insert s (ip_string ip) cid a.used),
        sym e,
      )
      | no ne ↦
          let (j, held, text) =
            v.backward s c (ground (arith, lookup-insert s (ip_string ip) cid a.used)) in
          (j, ground (arith, lookup-insert c cid ip a.allocs), text)
    ];
    hosts = λ c j h. elim (str_dec cid c) [
      | yes e ↦
          let same : ip ≡ j = ground (arith, lookup-insert c cid ip a.allocs) in
          subst (IsHost a.subnet) same host
      | no ne ↦ v.hosts c j (ground (arith, lookup-insert c cid ip a.allocs))
    ];
  }

  pub released-IsValid : lookup cid a.allocs ≡ some ip → IsValid (released cid ip a)
  released-IsValid held = record {
    block = v.block;
    keys = erase-NodupKeys cid a.allocs v.keys;
    forward = λ c j h. ground (
      arith,
      lookup-erase c cid a.allocs,
      lookup-erase (ip_string j) (ip_string ip) a.used,
      v.forward c j,
      v.forward cid ip held,
    );
    backward = λ s c h.
        let (j, was, text) =
          v.backward s c (ground (arith, lookup-erase s (ip_string ip) a.used)) in
        (
          j,
          ground (arith, lookup-erase c cid a.allocs, lookup-erase s (ip_string ip) a.used),
          text,
        );
    hosts = λ c j h. v.hosts c j (ground (arith, lookup-erase c cid a.allocs));
  }
