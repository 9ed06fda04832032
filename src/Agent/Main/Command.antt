-- ===== src/Agent/Main/Command.antt =====
-- `newAgentCommand` and `main` of cmd/agent/main.go: the command line and the exit status.
use purenet.Base.{ℕ, ◌≡◌, ◌↔◌, inl, inr, List, Str, arith}
use purenet.Errors.{Result, ok, err, Result-cases}
use purenet.Inet.{Inet6}
use purenet.Network.Kernel.{Kernel, Reply, got, refused, Reply-cases}
use purenet.Ipam.Store.{Store, Decoded}
use purenet.Nodesync.Conf.{CniConf}
use purenet.Nodesync.Start.{mode_vxlan}
use purenet.Agent.Main.Defs.{Options, Environment, Process, run, start_up}

-- `Execute` of cobra: from the flags' defaults and the arguments, the options or a usage error.
pub record CommandLine : Type 0 where
  pub parse : Options → List Str → Reply Options

abbrev pub default_options : Options
default_options = record { mode = mode_vxlan }

module _ (K : Kernel) (S : Store) (six : Inet6) (marshal_indent : CniConf → Decoded S.Data) where
  abbrev pub exit_status : {A P : Type 0} → Result A × P → ℕ × P
  exit_status (r, p) = elim r [ ok _ ↦ (0, p) | err e ↦ (1, p) ]

  -- The exit status of the process, and what it leaves.
  unfoldable pub agent_main :
      CommandLine
      → List Str
      → Environment
      → Process K S six marshal_indent
      → ℕ × Process K S six marshal_indent
  unfolding run
  agent_main cobra args E p = elim (cobra.parse default_options args) [
    | refused e ↦ (1, p)
    | got opts ↦ exit_status (run K S six marshal_indent E opts p)
  ]

  -- The agent exits with status 0 exactly if its arguments are understood and, with their options,
  -- it came up as far as to wait for a signal.
  pub agent_main_status :
      (cobra : CommandLine) (args : List Str) (E : Environment) (p : Process K S six marshal_indent)
      → ((agent_main cobra args E p).0 ≡ 0) ↔ (
          (opts : Options) × (cobra.parse default_options args ≡ got opts)
          × ((start_up K S six marshal_indent E opts p).0 ≡ ok tt))
  unfolding agent_main run
  agent_main_status cobra args E p = (
    λ zero. elim (Reply-cases (cobra.parse default_options args)) [
      | inr (e, h) ↦ ground (arith, h, zero)
      | inl (opts, h) ↦ elim (Result-cases (start_up K S six marshal_indent E opts p).0) [
        | inl (u, up) ↦ (opts, h, up)
        | inr (e, failed) ↦ ground (arith, h, failed, zero)
      ]
    ],
    λ (opts, h, up). ground (arith, h, up),
  )
