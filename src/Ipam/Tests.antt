-- ===== src/Ipam/Tests.antt =====
-- Runs of pkg/ipam/ipam.go over files in memory, and the theorems at concrete data.
use purenet.Base.{
  ◌≡◌, refl, ◌⊎◌, true, false, Option, none, some, [], ◌∷◌, Str, codes, str_dec, arith,
}
use purenet.Errors.{GoError, Result, ok, err}
use purenet.Inet.{Ip4, IsBytes, Inet6, to4, dec, ip_string, parse_cidr}
use purenet.Inet.Cidr.{cidr_text, parse_cidr-cidr_text}
use purenet.Ipam.Memory.{Files, memory, memory-IsLawful, Files}
use purenet.Ipam.Defs.{
  Allocator, first_host_ip, short_id, next_free_ip, persist, new, add, del, ip_to_uint32,
  uint32_to_ip, scan_free, one_shl, state_path, encode,
}
use purenet.Ipam.Scan.{IsFirstFree, IsExhausted, next_free_ip_lem}
use purenet.Ipam.Invariant.{IsValid}
use purenet.Ipam.Calls.{Adds, InStep, IsSound, add_lem, add-IsSound}
use purenet.Ipam.Release.{Dels, del_lem}
use purenet.Base.{lookup}
use purenet.Ipam.Reuse.{Serves, add_after_del}
use purenet.Ipam.Restart.{IsRestored, new_restart}
use purenet.Ipam.Fresh.{fresh_of, fresh_of-IsValid, new_fresh}
use purenet.Ipam.Capacity.{allocs_bound}
use purenet.Base.{length, ◌≤◌}
use purenet.Ipam.Run.{here, next, adds, reachable_safe, dels, Reach}
use purenet.Ipam.Pool.{given, released, Traces, view, observed, observations, observations-Traces}

-- No IPv6 text is read.
abbrev v6 : Inet6
v6 = record { parse_ip6 = λ s. []; parse_cidr6 = λ s. none }

-- 10.244.1.5, and its block of eight addresses, 10.244.1.0/29.
abbrev node_ip : Ip4
node_ip = record { b0 = 10; b1 = 244; b2 = 1; b3 = 5 }

node_ip-IsBytes : IsBytes node_ip
node_ip-IsBytes = omega arith

abbrev data_dir : Str
data_dir = codes "/var/lib"

abbrev empty_disk : Files
empty_disk = record { files = []; full = false }

abbrev full_disk : Files
full_disk = record { files = []; full = true }

abbrev pool : Allocator
pool = fresh_of node_ip 29 data_dir

pool-IsValid : IsValid pool
pool-IsValid = fresh_of-IsValid node_ip 29 data_dir node_ip-IsBytes (omega arith)

pool-InStep : InStep memory memory-IsLawful pool empty_disk
pool-InStep =
    (new_fresh memory memory-IsLawful v6 node_ip 29 data_dir empty_disk node_ip-IsBytes
      (omega arith) refl refl).2

abbrev c1 : Str
c1 = codes "c1"

abbrev c2 : Str
c2 = codes "c2"

abbrev ip2 : Ip4
ip2 = record { b0 = 10; b1 = 244; b2 = 1; b3 = 2 }

abbrev gateway : Str
gateway = 10 ∷ 244 ∷ 1 ∷ 1 ∷ []

-- `add` with all that it computes through.
run_add : Str → Allocator → Files → Result (Ip4 × Str) × Allocator × Files
unfolding add next_free_ip persist first_host_ip to4 scan_free one_shl state_path ip_string dec
    uint32_to_ip ip_to_uint32 encode
run_add = add memory

run_del : Str → Allocator → Files → Option GoError × Allocator × Files
unfolding del persist state_path ip_string dec encode str_dec
run_del = del memory

abbrev one_held : Allocator
one_held = record pool { allocs = (c1, ip2) ∷ []; used = (codes "10.244.1.2", c1) ∷ [] }

abbrev one_disk : Files
one_disk = record {
  files = (codes "/var/lib/allocations.cbor", (codes "10.244.1.2", c1) ∷ []) ∷ [];
  full = false;
}

first_add : run_add c1 pool empty_disk ≡ (ok (ip2, gateway), one_held, one_disk)
unfolding run_add
first_add = refl

refused_add : (run_add c1 pool full_disk).1 ≡ pool
unfolding run_add
refused_add = refl

last_del :
    run_del c1 one_held one_disk
    ≡ (none, pool, record { files = (codes "/var/lib/allocations.cbor", []) ∷ []; full = false })
unfolding run_del
last_del = refl

one_held-IsSound : IsSound memory memory-IsLawful (one_held, one_disk)
unfolding run_add
one_held-IsSound = add-IsSound memory memory-IsLawful c1 pool empty_disk pool-IsValid pool-InStep

add_ok : (add memory c1 pool empty_disk).0 ≡ ok (ip2, gateway)
unfolding run_add
add_ok = refl

short_id_long : short_id (codes "0123456789abcdef") ≡ codes "0123456789ab"
unfolding short_id
short_id_long = refl

-- The theorems.

reachable_safe_example :
    InStep memory memory-IsLawful
      (add memory c1 pool empty_disk).1
      (add memory c1 pool empty_disk).2
reachable_safe_example =
    (reachable_safe memory memory-IsLawful v6 (codes "10.244.1.5/29") (pool, empty_disk)
      ((add memory c1 pool empty_disk).1, (add memory c1 pool empty_disk).2)
      (pool-IsValid, pool-InStep) (next here (adds c1 pool empty_disk))).0

add_lem_example :
    Adds memory memory-IsLawful c1 pool pool-IsValid empty_disk (add memory c1 pool empty_disk)
add_lem_example = add_lem memory memory-IsLawful c1 pool pool-IsValid empty_disk

del_lem_example : Dels memory memory-IsLawful c1 one_held one_disk (del memory c1 one_held one_disk)
del_lem_example = del_lem memory memory-IsLawful c1 one_held one_disk one_held-IsSound.0

del_gone : (del memory c1 one_held one_disk).0 ≡ none
unfolding run_del
del_gone = refl

c1_holds : lookup c1 one_held.allocs ≡ some ip2
unfolding str_dec
c1_holds = refl

c2_free : lookup c2 (del memory c1 one_held one_disk).1.allocs ≡ none
unfolding run_del
c2_free = refl

-- Another container takes the address that c1 has given back.
add_after_del_example :
    Serves memory memory-IsLawful c2 ip2 (del memory c1 one_held one_disk).1 one_disk
add_after_del_example =
    add_after_del memory memory-IsLawful c1 c2 one_held one_disk one_disk ip2 one_held-IsSound.0
      c1_holds del_gone c2_free

next_free_ip_lem_example :
    ((ip : Ip4) × (next_free_ip one_held ≡ ok ip)
      × IsFirstFree one_held.subnet one_held-IsSound.0.block.base one_held.used ip)
    ⊎ ((e : GoError) × (next_free_ip one_held ≡ err e)
        × IsExhausted one_held one_held-IsSound.0.block)
next_free_ip_lem_example = next_free_ip_lem one_held one_held-IsSound.0.block

cidr_read : parse_cidr v6 (codes "10.244.1.5/29") ≡ some one_held.subnet
unfolding ip_string dec
cidr_read = parse_cidr-cidr_text v6 node_ip 29 node_ip-IsBytes (omega arith)

new_restart_example :
    (b : Allocator) × (new memory v6 (codes "10.244.1.5/29") data_dir one_disk ≡ (ok b, one_disk))
    × IsRestored one_held b
new_restart_example =
    new_restart memory memory-IsLawful v6 one_held one_disk (codes "10.244.1.5/29")
      one_held-IsSound.0 one_held-IsSound.1 cidr_read refl

new_fresh_example : new memory v6 (cidr_text node_ip 29) data_dir empty_disk ≡ (ok pool, empty_disk)
new_fresh_example =
    (new_fresh memory memory-IsLawful v6 node_ip 29 data_dir empty_disk node_ip-IsBytes
      (omega arith) refl refl).0

-- A container that comes and goes.
abbrev held_state : Allocator × Files
held_state = ((add memory c1 pool empty_disk).1, (add memory c1 pool empty_disk).2)

abbrev left_state : Allocator × Files
left_state =
    ((del memory c1 held_state.0 held_state.1).1, (del memory c1 held_state.0 held_state.1).2)

abbrev come_and_gone :
    Reach memory memory-IsLawful v6 (codes "10.244.1.5/29") (pool, empty_disk) left_state
come_and_gone = next (next here (adds c1 pool empty_disk)) (dels c1 held_state.0 held_state.1)

seen :
    observations memory memory-IsLawful v6 (codes "10.244.1.5/29") come_and_gone
    ≡ released c1 ∷ given c1 ip2 ∷ []
unfolding observations observed run_add run_del
seen = refl

observations-Traces_example :
    Traces pool.subnet
      (view pool)
      (observations memory memory-IsLawful v6 (codes "10.244.1.5/29") come_and_gone)
      (view left_state.0)
observations-Traces_example =
    observations-Traces memory memory-IsLawful v6 (codes "10.244.1.5/29") (pool, empty_disk)
      left_state (pool-IsValid, pool-InStep) come_and_gone

allocs_bound_example :
    (length one_held.allocs ≤ 5)
    × ((e : GoError) → next_free_ip one_held ≡ err e → length one_held.allocs ≡ 5)
allocs_bound_example = allocs_bound one_held one_held-IsSound.0
