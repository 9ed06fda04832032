-- ===== src/Config.antt =====
-- pkg/config/config.go: the network configuration of a request. `json.Unmarshal` is the parameter
-- `unmarshal`, which gives 0 for an MTU that the text does not have.
use purenet.Base.{ℤ, pos, negsuc, zero, suc, [], Str}
use purenet.Errors.{external, wrapf, Result, ok, err}
use purenet.Network.Kernel.{Reply, got, refused}

pub record NetConf : Type 0 where
  pub cni_version : Str
  pub mtu : ℤ

unfoldable pub default_mtu : ℤ → ℤ
default_mtu (pos zero) = pos 1500
default_mtu (pos (suc n)) = pos (suc n)
default_mtu (negsuc n) = negsuc n

unfoldable pub load_conf : (Str → Reply NetConf) → Str → Result NetConf
unfolding default_mtu
load_conf unmarshal bytes = elim (unmarshal bytes) [
  | refused e ↦ err (wrapf "failed to parse network config" [] (external e))
  | got conf ↦ ok (record conf { mtu = default_mtu conf.mtu })
]
