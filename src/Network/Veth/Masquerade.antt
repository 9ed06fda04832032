-- ===== src/Network/Veth/Masquerade.antt =====
-- `SetupMasquerade` and the rules that it leaves.
use purenet.Base.{List, [], ◌∷◌, Str, codes}
use purenet.Network.Kernel.{Kernel}

-- What leaves the block of the pods for elsewhere is masqueraded.
abbrev pub masquerade_rule : Str → List Str
masquerade_rule pod_cidr =
    codes "ip saddr" ∷ pod_cidr ∷ codes "ip daddr !=" ∷ pod_cidr ∷ codes "masquerade" ∷ []
