-- ===== src/Network/Vxlan/Mac.antt =====
-- `VTEPMAC`: one MAC address for each block.
use purenet.Base.{◌≡◌, some, [], ◌∷◌, arith}
use purenet.Inet.{Ip, Ip4, to4}
use purenet.Network.Vxlan.Defs.{vtep_mac}

-- Two IPv4 network addresses have one MAC address only if they are one, and the MAC address of an
-- IPv4 network address is 02:00 with its four bytes.
pub vtep_mac_injective :
    (p q : Ip) (a b : Ip4)
    → to4 p ≡ some a
    → to4 q ≡ some b
    → vtep_mac p ≡ vtep_mac q
    → (a ≡ b) × (vtep_mac p ≡ 0x02 ∷ 0x00 ∷ a.b0 ∷ a.b1 ∷ a.b2 ∷ a.b3 ∷ [])
unfolding vtep_mac
vtep_mac_injective p q a b hp hq e =
    let ep : vtep_mac p ≡ 0x02 ∷ 0x00 ∷ a.b0 ∷ a.b1 ∷ a.b2 ∷ a.b3 ∷ [] = rw (hp, vtep_mac) in
    let eq : vtep_mac q ≡ 0x02 ∷ 0x00 ∷ b.b0 ∷ b.b1 ∷ b.b2 ∷ b.b3 ∷ [] = rw (hq, vtep_mac) in
    (ground arith, ep)
