-- ===== src/Cni/Tests.antt =====
-- Runs of the client over a scripted agent, and the theorems at concrete data.
use purenet.Base.{◌≡◌, ◌↔◌, refl, none, some, [], Str, codes}
use purenet.Errors.{GoError}
use purenet.Cni.Rpc.{CniResponse, as_error}
use purenet.Cni.Client.{
  deadline_exceeded, RpcError, responded, broken, Transport, method_add, method_del, method_check,
}
use purenet.Cni.Shim.{cni_error, CmdArgs, rpc_error, cmd_add, plugin_funcs}
use purenet.Cni.Outcome.{IsTryAgain, IsBusy, plugin_funcs-IsTryAgain}

-- The state is what has been written; the agent answers "r" to everything.
abbrev answer : CniResponse
answer = record { error_code = 0; error_message = []; result = codes "r" }

abbrev agent : Transport
agent = record {
  State = Str;
  new_client = λ target s. none;
  invoke = λ method req s. (responded answer, s);
  write_stdout = λ text s. (none, text);
}

abbrev cmd_args : CmdArgs
cmd_args = record {
  container_id = codes "c1";
  netns = codes "/run/n1";
  if_name = codes "eth0";
  args = [];
  path = [];
  stdin_data = [];
}

abbrev added : cmd_add agent cmd_args [] ≡ (none, codes "r")
unfolding cmd_add as_error
added = refl

abbrev text : GoError → Str
text e = codes "failed"

abbrev late : RpcError
late = record { code = deadline_exceeded; text = codes "late" }

-- An agent whose every call runs into the deadline.
abbrev late_agent : Transport
late_agent = record agent { invoke = λ method req s. (broken late, s) }

told_to_wait : (cmd_add late_agent cmd_args []).0 ≡ some (cni_error 11 (codes "late") [])
unfolding cmd_add rpc_error
told_to_wait = refl

plugin_funcs-IsTryAgain_example :
    (IsTryAgain ((plugin_funcs late_agent).add cmd_args []).0
      ↔ IsBusy late_agent method_add cmd_args [])
    × (IsTryAgain ((plugin_funcs late_agent).del cmd_args []).0
        ↔ IsBusy late_agent method_del cmd_args [])
    × (IsTryAgain ((plugin_funcs late_agent).check cmd_args []).0
        ↔ IsBusy late_agent method_check cmd_args [])
plugin_funcs-IsTryAgain_example = plugin_funcs-IsTryAgain late_agent cmd_args []
