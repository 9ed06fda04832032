-- ===== src/Nodesync/Sample.antt =====
-- A node and a controller for the tests.
use purenet.Base.{◌≡◌, ◌≢◌, refl, none, some, [], ◌∷◌, Str, codes, arith}
use purenet.Inet.{IpNet, Inet6, family, parse4, parse_ip, parse_cidr, cut_slash, decimal, scan}
use purenet.Nodesync.Node.{Node, node_internal_ip, Controller}

-- No IPv6 text is read.
abbrev pub six : Inet6
six = record { parse_ip6 = λ s. []; parse_cidr6 = λ s. none }

abbrev pub block : Str
block = codes "10.244.2.0/24"

abbrev pub address : Str
address = codes "192.168.0.7"

abbrev pub net : IpNet
net = record { ip = 10 ∷ 244 ∷ 2 ∷ 0 ∷ []; ones = 24; bits = 32 }

abbrev pub net_read : parse_cidr six block ≡ some net
unfolding parse_cidr family parse4 cut_slash decimal scan
net_read = refl

abbrev pub address_read : parse_ip six address ≢ []
unfolding parse_ip family parse4 scan
address_read = λ e. ground (arith, e)

abbrev pub node2 : Node
node2 = record {
  name = codes "n2";
  pod_cidr = block;
  addresses = record { type = node_internal_ip; address = address } ∷ [];
}

abbrev pub here : Controller
here = record { node_name = codes "n1"; cni_conf_path = []; routes = [] }
