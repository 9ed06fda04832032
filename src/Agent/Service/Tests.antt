-- ===== src/Agent/Service/Tests.antt =====
-- The client and the agent at the two ends of a socket that always works.
use purenet.Base.{◌≡◌, inr, refl, none, some, [], Str, codes, str_dec, lookup, arith}
use purenet.Errors.{ok}
use purenet.Inet.{Ip4}
use purenet.Network.Kernel.{got}
use purenet.Network.Memory as Kernels
use purenet.Ipam.Memory.{memory-IsLawful}
use purenet.Ipam.Memory as Disks
use purenet.Cni.{CniRequest, as_error}
use purenet.Cni.Client.{unimplemented, Reply, broken, Transport, method_add}
use purenet.Cni.Service.{
  request, Registration, find_method, register_cni_backend_server, service_desc, cmd_add_handler,
  cmd_del_handler,
}
use purenet.Cni.Shim.{CmdArgs, build_request}
use purenet.Cni.Shim
use purenet.Agent.Server.{World, CniResult, cmd_add, handle_del}
use purenet.Agent.Server.Sample.{
  codecs, pool-IsValid, world, added, added-IsGood, add_answered, del_done,
}
use purenet.Agent.Service.{
  reply_of, agent_server, IsServedBy, registered, shim_add-held, shim_del-released,
}

-- The state is the agent's, and what has been written.
abbrev Wire : Type 0
Wire = World Kernels.memory Disks.memory × Str

abbrev service : Registration (World Kernels.memory Disks.memory)
service = registered Kernels.memory Disks.memory codecs

abbrev carry : Str → CniRequest → Wire → Reply × Wire
carry path req (w, out) =
    elim (find_method (World Kernels.memory Disks.memory) path service.desc.service_name
      service.desc.methods) [
        | none ↦ (broken (record { code = unimplemented; text = [] }), (w, out))
        | some h ↦
            let (a, w') = h service.server (request req) none w in
            (reply_of codecs.error_text a, (w', out))
      ]

abbrev socket : Transport
socket = record {
  State = Wire;
  new_client = λ target s. none;
  invoke = carry;
  write_stdout = λ text s. (none, (s.0, text));
}

socket-IsServedBy : IsServedBy Kernels.memory Disks.memory codecs socket service (λ s. s.0)
socket-IsServedBy = record {
  carried = λ path h req s found. inr (ground (arith, found), ground (arith, found));
  silent = λ text s. refl;
}

abbrev cmd_args : CmdArgs
cmd_args = record {
  container_id = codes "c1";
  netns = codes "/run/n1";
  if_name = codes "eth0";
  args = [];
  path = [];
  stdin_data = [];
}

shim_add_done : (Shim.cmd_add socket cmd_args (world, [])).0 ≡ none
unfolding Shim.cmd_add agent_server register_cni_backend_server service_desc cmd_add_handler
    find_method str_dec as_error build_request
shim_add_done = ground (arith, add_answered)

shim_add-held_example :
    let s' = (Shim.cmd_add socket cmd_args (world, [])).1 in
    (result : CniResult) × (text : Str) × (ip : Ip4) × ((cmd_add Kernels.memory Disks.memory codecs
        (build_request cmd_args)
        world).0
      ≡ ok result)
    × (codecs.print_to result ≡ got text)
    × (socket.write_stdout text (socket.invoke method_add (build_request cmd_args) (world, [])).1
        ≡ (none, s'))
    × (lookup (codes "c1") s'.0.alloc.allocs ≡ some ip)
shim_add-held_example =
    shim_add-held Kernels.memory Disks.memory codecs socket (λ s. s.0) socket-IsServedBy
      memory-IsLawful cmd_args (world, []) pool-IsValid shim_add_done

shim_del_done : (Shim.cmd_del socket cmd_args (added, [])).0 ≡ none
unfolding Shim.cmd_del agent_server register_cni_backend_server service_desc cmd_del_handler
    find_method str_dec as_error build_request handle_del
shim_del_done = ground (arith, del_done)

shim_del-released_example :
    lookup (codes "c1") (Shim.cmd_del socket cmd_args (added, [])).1.0.alloc.allocs ≡ none
shim_del-released_example =
    shim_del-released Kernels.memory Disks.memory codecs socket (λ s. s.0) socket-IsServedBy
      memory-IsLawful cmd_args (added, []) added-IsGood.0 shim_del_done
