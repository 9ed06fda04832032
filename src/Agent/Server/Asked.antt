-- ===== src/Agent/Server/Asked.antt =====
-- What `cmdAdd` takes over from the request before the allocation.
use purenet.Base.{◌≡◌, inl, inr, refl, subst, [], ◌∷◌, arith}
use purenet.Errors.{ok}
use purenet.Network.Kernel.{got, Reply-cases, Kernel}
use purenet.Network.Action.{Action, query, exec}
use purenet.Network.Yields.{Yields, Yields-pure, Yields-bind, Yields-then, Yields-weaken}
use purenet.Network.Veth.{enable_proxy_arp}
use purenet.Config.{NetConf, default_mtu, load_conf}
use purenet.Cni.{CniRequest}
use purenet.Agent.Server.Defs.{Pod, Codecs, make_pair, open_pod, prepare}

-- A pod of the request: its version is the one of the request's configuration, the host's interface
-- has no sandbox, and the container's has the request's network namespace.
pub record IsPodOf (C : Codecs) (req : CniRequest) (pod : Pod) : Type 0 where
  pub asked : NetConf
  pub parsed : C.unmarshal_conf req.config ≡ got asked
  pub version : pod.conf.cni_version ≡ asked.cni_version
  pub host_sandbox : pod.host_iface.sandbox ≡ []
  pub cont_sandbox : pod.cont_iface.sandbox ≡ req.netns

module _ (K : Kernel) where
  anything :
      {A : Type 0} {P : K.State → Type 0} (m : Action K.State A) → Yields P m (λ a s. Unit {0})
  anything m = record { at = λ s a p h. tt }

  open_pod-IsPodOf :
      (C : Codecs) (req : CniRequest) (conf asked : NetConf)
      → C.unmarshal_conf req.config ≡ got asked
      → conf.cni_version ≡ asked.cni_version
      → Yields (λ s. Unit {0}) (open_pod K C req conf) (λ pod s. IsPodOf C req pod)
  open_pod-IsPodOf C req conf asked parsed version =
      Yields-bind _ _
        (anything (query (K.get_ns req.netns) "failed to open netns %q" (req.netns ∷ [])))
        (λ ns. Yields-bind _ _ (anything (K.ns_do ns (make_pair K C.sha1 req conf))) (λ links.
          Yields-bind _ _
            (anything (
              query (K.link_by_name links.0.name) "failed to find host veth %q"
                (links.0.name ∷ [])))
            (λ host.
              Yields-then (λ s. Unit {0}) _ _
                (anything (exec (K.link_set_up host) "failed to bring up %q" (links.0.name ∷ [])))
                (Yields-then (λ s. Unit {0}) _ _ (anything (enable_proxy_arp K links.0.name))
                  (Yields-weaken _ (Yields-pure _) (λ pod s q. subst (IsPodOf C req) q.0 (record {
                    asked = asked;
                    parsed = parsed;
                    version = version;
                    host_sandbox = refl;
                    cont_sandbox = refl;
                  })))))))

  pub prepare-IsPodOf :
      (C : Codecs) (req : CniRequest) (pod : Pod) (s : K.State)
      → (prepare K C req s).0 ≡ ok pod
      → IsPodOf C req pod
  unfolding prepare load_conf default_mtu
  prepare-IsPodOf C req pod s done = elim (Reply-cases (C.unmarshal_conf req.config)) [
    | inr (e, h) ↦ ground (arith, h)
    | inl (asked, h) ↦
        let conf : NetConf = record asked { mtu = default_mtu asked.mtu } in
        let opened : (open_pod K C req conf s).0 ≡ ok pod = ground (arith, h, done) in
        (open_pod-IsPodOf C req conf asked h refl).at s pod tt opened
  ]
