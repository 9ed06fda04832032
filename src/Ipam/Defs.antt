-- ===== src/Ipam/Defs.antt =====
-- The allocator and its operations, in the order of the source.
use Prim.Native.Nat.{bit_or}
use purenet.Base.{
  ℕ, zero, suc, ◌+◌, ◌-◌, ◌*◌, ◌%◌, ◌^◌, Option, none, some, [], ◌∷◌, ◌++◌, Str, codes, Dict,
  lookup, insert, erase, length, take, ltb, if◌then◌else◌,
}
use purenet.Errors.{GoError, external, errorf, wrapf, Result, ok, err}
use purenet.Inet.{Ip, Ip4, IpNet, Inet6, byte_at, to4, contains, ip_string, parse_ip, parse_cidr}
use purenet.Ipam.Store.{Store, contents, not_exist, failed, decoded, malformed}

abbrev pub state_filename : Str
state_filename = codes "allocations.cbor"

pub record Allocator : Type 0 where
  pub subnet : IpNet
  pub gateway : Ip
  pub data_dir : Str
  pub allocs : Dict Ip4
  pub used : Dict Str

-- `ip[len(ip)-1]++` on a byte. The address of a parsed block is never empty.
unfoldable pub bump_last : Ip → Ip
bump_last [] = []
bump_last (x ∷ []) = (x + 1) % 256 ∷ []
bump_last (x ∷ y ∷ r) = x ∷ bump_last (y ∷ r)

unfoldable pub first_host_ip : IpNet → Ip
unfolding bump_last
first_host_ip subnet = bump_last subnet.ip

unfoldable pub ip_to_uint32 : Ip4 → ℕ
ip_to_uint32 ip = bit_or (bit_or (bit_or (ip.b0 * 2 ^ 24) (ip.b1 * 2 ^ 16)) (ip.b2 * 2 ^ 8)) ip.b3

unfoldable pub uint32_to_ip : ℕ → Ip4
uint32_to_ip n = record { b0 = byte_at n 24; b1 = byte_at n 16; b2 = byte_at n 8; b3 = n % 256 }

unfoldable pub short_id : Str → Str
short_id id = if ltb 12 (length id) then take 12 id else id

unfoldable pub state_path : Allocator → Str
state_path a = a.data_dir ++ (codes "/" ++ state_filename)

-- `1 << k` on an int. From k = 63 the int is negative or 0; the loop below runs for neither.
unfoldable pub one_shl : ℕ → ℕ
one_shl k = if ltb k 63 then 2 ^ k else 0

-- `for offset := …; offset < size-1; offset++`, with the rounds that are left.
unfoldable pub scan_free : Dict Str → ℕ → ℕ → ℕ → Option Ip4
scan_free used base zero offset = none
scan_free used base (suc rounds) offset =
    let ip = uint32_to_ip ((base + offset % 2 ^ 32) % 2 ^ 32) in
    let rest = scan_free used base rounds (offset + 1) in
    elim (lookup (ip_string ip) used) [ none ↦ some ip | some _ ↦ rest ]

unfoldable pub next_free_ip : Allocator → Result Ip4
next_free_ip a = elim (to4 a.subnet.ip) [
  | none ↦ err (errorf "only IPv4 subnets are supported" [])
  | some base ↦
      let size = one_shl (a.subnet.bits - a.subnet.ones) in
      elim (scan_free a.used (ip_to_uint32 base) (size - 1 - 2) 2) [
        | some ip ↦ ok ip
        | none ↦ err (errorf "subnet %s is exhausted" (a.subnet.ip ∷ []))
      ]
]

-- The loop of `persist`: `m[ip.String()] = cid` for every allocation.
unfoldable pub encode : Dict Ip4 → Dict Str → Dict Str
encode [] m = m
encode (e ∷ allocs) m = encode allocs (insert (ip_string e.1) e.0 m)

-- The loop of `load`: an entry that is no IPv4 address in the subnet is skipped.
unfoldable pub load_entry : Inet6 → IpNet → Str × Str → Dict Ip4 × Dict Str → Dict Ip4 × Dict Str
load_entry v6 subnet e (allocs, used) = elim (to4 (parse_ip v6 e.0)) [
  | none ↦ (allocs, used)
  | some ip ↦
      if contains subnet ip then (insert e.1 ip allocs, insert e.0 e.1 used) else (allocs, used)
]

unfoldable pub load_entries : Inet6 → IpNet → Dict Str → Dict Ip4 × Dict Str → Dict Ip4 × Dict Str
load_entries v6 subnet [] acc = acc
load_entries v6 subnet (e ∷ m) acc = load_entries v6 subnet m (load_entry v6 subnet e acc)

abbrev pub tmp_path : Str → Str
tmp_path path = path ++ codes ".tmp"

module _ (S : Store) where
  open S use {Disk, mkdir_all, write_file, rename, remove, read_file, marshal, unmarshal}

  -- `none` is a nil error.
  unfoldable pub persist : Allocator → Disk → Option GoError × Disk
  persist a d = elim (marshal (encode a.allocs [])) [
    | malformed e ↦ (some (wrapf "cbor marshal" [] (external e)), d)
    | decoded b ↦
        let path = state_path a in
        let (w, d1) = write_file (tmp_path path) b d in
        elim w [
          | some e ↦ (some (wrapf "write tmp file" [] (external e)), d1)
          | none ↦
              let (r, d2) = rename (tmp_path path) path d1 in
              elim r [
                | some e ↦
                    (some (wrapf "rename state file" [] (external e)), remove (tmp_path path) d2)
                | none ↦ (none, d2)
              ]
        ]
  ]

  unfoldable pub load : Inet6 → Allocator → Disk → Option GoError × Allocator
  load v6 a d = elim (read_file (state_path a) d) [
    | not_exist ↦ (none, a)
    | failed e ↦ (some (wrapf "read IPAM state file" [] (external e)), a)
    | contents b ↦ elim (unmarshal b) [
      | malformed e ↦ (some (wrapf "decode IPAM state file" [] (external e)), a)
      | decoded m ↦
          let (allocs, used) = load_entries v6 a.subnet m (a.allocs, a.used) in
          (none, record a { allocs = allocs; used = used })
    ]
  ]

  unfoldable pub new : Inet6 → Str → Str → Disk → Result Allocator × Disk
  new v6 pod_cidr data_dir d = elim (parse_cidr v6 pod_cidr) [
    | none ↦ (
      err (
          wrapf "invalid pod CIDR %q" (pod_cidr ∷ [])
            (external (codes "invalid CIDR address: " ++ pod_cidr))),
      d,
    )
    | some subnet ↦
        let a : Allocator = record {
          subnet = subnet;
          gateway = first_host_ip subnet;
          data_dir = data_dir;
          allocs = [];
          used = [];
        } in
        let (m, d1) = mkdir_all data_dir d in
        elim m [
          | some e ↦ (err (wrapf "create IPAM data dir %q" (data_dir ∷ []) (external e)), d1)
          | none ↦
              let (l, a') = load v6 a d1 in elim l [ some e ↦ (err e, d1) | none ↦ (ok a', d1) ]
        ]
  ]

  -- The branch of `add` for a container without an allocation.
  unfoldable pub add_new : Str → Allocator → Disk → Result (Ip4 × Ip) × Allocator × Disk
  add_new cid a d = elim (next_free_ip a) [
    | err e ↦ (err e, a, d)
    | ok ip ↦
        let a' : Allocator = record a {
          allocs = insert cid ip a.allocs;
          used = insert (ip_string ip) cid a.used;
        } in
        let (p, d') = persist a' d in
        elim p [
          | none ↦ (ok (ip, a.gateway), a', d')
          | some e ↦ (
            err (wrapf "persist allocation" [] e),
            record a' { allocs = erase cid a'.allocs; used = erase (ip_string ip) a'.used },
            d',
          )
        ]
  ]

  unfoldable pub add : Str → Allocator → Disk → Result (Ip4 × Ip) × Allocator × Disk
  unfolding add_new
  add cid a d = elim (lookup cid a.allocs) [
    | some ip ↦ (ok (ip, a.gateway), a, d)
    | none ↦ add_new cid a d
  ]

  unfoldable pub del : Str → Allocator → Disk → Option GoError × Allocator × Disk
  del cid a d = elim (lookup cid a.allocs) [
    | none ↦ (none, a, d)
    | some ip ↦
        let a' : Allocator = record a {
          allocs = erase cid a.allocs;
          used = erase (ip_string ip) a.used;
        } in
        let (p, d') = persist a' d in
        elim p [
          | none ↦ (none, a', d')
          | some e ↦ (
            some (wrapf "persist release" [] e),
            record a' {
              allocs = insert cid ip a'.allocs;
              used = insert (ip_string ip) cid a'.used;
            },
            d',
          )
        ]
  ]

unfoldable pub check : Str → Allocator → Result Ip4
check cid a = elim (lookup cid a.allocs) [
  | none ↦ err (errorf "no allocation for container %s" (cid ∷ []))
  | some ip ↦ ok ip
]
