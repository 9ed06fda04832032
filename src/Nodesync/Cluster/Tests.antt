-- ===== src/Nodesync/Cluster/Tests.antt =====
-- A node that joins a cluster in VXLAN mode, over a kernel in memory.
use purenet.Base.{◌≡◌, refl, inl, true, false, some, [], ◌∷◌, str_dec, lookup, insert, arith}
use purenet.Errors.{ok}
use purenet.Inet.{family, parse4, parse_ip, parse_cidr, cut_slash, decimal, scan, to4}
use purenet.Network.Memory.{
  Host, empty_host, memory, memory_tables, memory_separate, net_dec, at_dec,
}
use purenet.Network.Vxlan.{vxlan_if_name, add_vxlan_peer}
use purenet.Nodesync.Node.{Controller, internal_ip, first_internal}
use purenet.Nodesync.Handlers.{on_add, program}
use purenet.Nodesync.Events.{node, added, deliver}
use purenet.Nodesync.Vxlan.{with_peer, add_peer, del_peer}
use purenet.Nodesync.Vxlan.Overlay.{Tunnelled, vxlan_backend}
use purenet.Nodesync.Sample.{six, block, address, node2, here}
use purenet.Nodesync.Cluster.Defs.{
  Failures, failures, route_of, failures_add, Run, started, heard_added,
}
use purenet.Nodesync.Cluster.Convergence.{Run-converges}

abbrev host : Host
host = record empty_host { links = (vxlan_if_name, (7, true)) ∷ [] }

abbrev after : Controller × Host
after = deliver (add_peer memory six) (del_peer memory six) (added (node node2)) (here, host)

abbrev failed : Failures
failed = failures_add (add_peer memory six) (del_peer memory six) node2 here host (λ m. false)

abbrev run :
    Run
      (add_peer memory six)
      (del_peer memory six)
      (vxlan_backend memory six memory_tables memory_separate)
      here
      failed
      (insert node2.name node2 [])
      (after.0, after.1)
run =
    heard_added node2 (started host) refl (λ n m a b ne hn hm. absurd (ground (arith, ne, hn, hm)))
      (λ full b e link found. inl refl)

-- No call has failed, and the node is on record.
none_failed : failed node2.name ≡ false
unfolding failures_add failures add_peer with_peer add_vxlan_peer internal_ip first_internal
    parse_cidr parse_ip family parse4 cut_slash decimal scan to4 str_dec net_dec at_dec
none_failed = refl

on_record : lookup node2.name after.0.routes ≡ some (route_of node2)
unfolding deliver on_add program add_peer with_peer add_vxlan_peer internal_ip first_internal
    parse_cidr parse_ip family parse4 cut_slash decimal scan to4 str_dec net_dec at_dec
on_record = refl

abbrev programmed : (add_peer memory six block address host).0 ≡ ok tt
unfolding add_peer with_peer add_vxlan_peer parse_cidr parse_ip family parse4 cut_slash decimal scan
    to4 str_dec net_dec at_dec
programmed = refl

Run-converges_example :
    Tunnelled memory six memory_tables node2.pod_cidr (internal_ip node2) after.1
unfolding internal_ip first_internal str_dec
Run-converges_example =
    (Run-converges (add_peer memory six) (del_peer memory six)
        (vxlan_backend memory six memory_tables memory_separate) here failed
        (insert node2.name node2 []) after.0 after.1 refl run node2.name).1
      node2 refl (λ e. ground (arith, e)) (λ e. ground (arith, e)) (λ e. ground (arith, e))
      none_failed
