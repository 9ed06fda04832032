-- ===== src/Agent/Server/Again.antt =====
-- ADD of a container that holds an address already: a retry, or an ADD after one that failed behind
-- the allocation.
use purenet.Network.Kernel.{Kernel}
use purenet.Ipam.Store.{Store}
