-- ===== src/Lib.antt =====
-- A model of purenet, a CNI plugin for Kubernetes, and the theorems about it.
--
-- The program. On each node a long-running agent (cmd/agent) serves a Unix socket. The container
-- runtime starts a thin client (cmd/purenet) for each event of a pod; it forwards the request to
-- the agent (pkg/cni) and turns the answer into an exit status and an output. The agent
-- (pkg/agent) lets one request in for each container, makes the pod's interfaces
-- (pkg/network/network.go), takes its address from an allocator that keeps its state in a file
-- (pkg/ipam), and reads its settings from the request (pkg/config). It also follows the nodes of
-- the cluster and programs a route or a VXLAN peer for each (pkg/nodesync, pkg/network/vxlan.go).
--
-- The files.
-- - Base, Errors, Inet: lists, maps, strings of bytes, Go's errors, and the part of Go's `net`
--   package that the program relies on. IPv4 is written out; IPv6 text is the parameter `Inet6`.
-- - Ipam: pkg/ipam/ipam.go. `Defs` has the record `Allocator` and `new`, `add`, `del`, `check`,
--   `next_free_ip`, `persist` and `load`, named as in the source. Files and CBOR are the parameter
--   `Store`; what is relied on is `IsLawful`. A method holds the mutex throughout, so that a call
--   is one function from allocator and disk to result, allocator and disk. `Reuse` follows an
--   address from a `Del` to the next `Add`, and `Pool` is the abstract view: who holds which address,
--   and what a caller may see.
-- - Agent/Access: the arbitrator of pkg/agent/server.go, as steps of any number of handlers; in
--   `Weights` and `Draining` the steps until all have returned are counted.
-- - Agent/Isolation: handlers side by side, with their steps of the arbitrator and their calls of
--   the allocator in any order.
-- - Agent/Server: `cmdAdd`, `cmdDel`, `cmdCheck` and the handlers around them. Each calls the
--   allocator once, in one step; a sequence of requests has the allocator's steps in the order in
--   which concurrent requests take its mutex. `Asked` has what `cmdAdd` takes over from a request,
--   and `Again` what it does for a container that it has served before; `Steps`, `Opening` and `Wiring` what `cmdAdd` sets in the agent's and in the pod's namespace, by
--   the rules of Network/Yields, and `Home` that the way back leads to where it began; `Recheck` goes on to
--   `cmdCheck`, `Teardown` has `cmdDel`; `Bystander`, `Undisturbed`, `Coexistence` and `Company` follow the wiring
--   of a pod through the requests of others.
-- - Network: pkg/network. netlink, nftables, namespaces and writes below /proc are the parameter
--   `Kernel`, with a state of any type; an `Action` is a state passed on, and an error keeps what
--   was done before it. `Do` of a namespace belongs to the CNI plugins' library and is the field
--   `ns_do`; what is documented of it is `Entering`. `Tables`, `Separate`, `Removal`, `Links`, `Interfaces` and, in
--   Nodesync/Hostgw/Routes, `RouteTable` say what is relied on, and Network/Memory is a kernel that
--   has it. `Namespaces` and `Apart` say the same of a kernel of many
--   namespaces, and Network/Spaces is one;
--   `NftTable` is for the rules of nftables. `Keeps` and `Yields` are the rules for what an `Action`
--   preserves, and for what it has done when it returns no error.
-- - Nodesync: pkg/nodesync. The handlers of hostgw.go and vxlan.go have the same words but for the
--   calls that program a peer, which are arguments in `Handlers`; `Hostgw` and `Vxlan` give these.
--   `IsBackend` is what the handlers need of the calls; Hostgw/Routes and Vxlan/Overlay fill it.
--   `Replace` compares an update with a deletion and an addition.
--   `Cluster` has the nodes of the cluster and what may come to pass with them and the kernel.
--   `Events` has the functions that both `Run`
--   register, `Start` has `New` and both `Run` up to their return, `Conf` has `writeCNIConfig`.
--   client-go is the parameter `Informer` and, for what it delivers later, a sequence of events.
-- - Cni: pkg/cni/rpc.go, its messages in `Rpc`, its client in `Client`, the server's interface and
--   descriptor in `Service`; and cmd/purenet/main.go in `Shim`. grpc is the parameter `Transport`.
-- - Agent/Service: both ends together. A connection that leads to the agent's registered service,
--   which grpc finds by a method's full name, answers a call of the client as the agent does.
-- - Agent/Main: `run` of cmd/agent/main.go, in stages on the process: kernel, disk, and what the
--   process has registered, listens on and serves; `Command` has `main` and the exit status, with
--   cobra's reading of the arguments as the parameter `CommandLine`.
-- - Config: pkg/config/config.go.
--
-- Numbers. Addresses are numbers below 2 ^ 32, with the wrap-around of `uint32` written out; an
-- `int` shift past 62 bits is written out in `one_shl`. Every loop of the source runs over a list
-- or up to a bound, and is a structural recursion; there is no fuel but the number of rounds of
-- the scan for a free address, which is the bound of the source's loop.
--
-- Not modelled: how cobra reads the flags, the set-up of the log, the JSON codec of
-- grpc, the inside of client-go's informers, the closing of handles, and logging. The handlers of
-- node events run beside the requests; a request is one step here, whatever the kernel has become
-- before it. Texts of errors are kept as formats with their arguments, of a block only its
-- address.
pub mod Base
pub mod Errors
pub mod Inet
pub mod Ipam
pub mod Network
pub mod Nodesync
pub mod Config
pub mod Cni
pub mod Agent
