-- ===== src/Etcd.antt =====
-- The client of etcd, atframework/service/component/etcdcli.
pub mod Keepalive
pub mod Watcher
pub mod Packer
pub mod Cluster
pub mod Module
