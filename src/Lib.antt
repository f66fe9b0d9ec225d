-- ===== src/Lib.antt =====
-- A model of the services in atframework/service: the gateway that clients connect to, the proxy that
-- connects to the other proxies, and the client of etcd through which they find each other.
--
-- The gateway keeps a session for each connection (atgateway/session.cpp) in a table of sessions
-- (atgateway/session_manager.cpp). A session reads and writes through a protocol object
-- (atgateway/protocols/proto_base.cpp), tells a server of its beginning, its data and its end, and is
-- closed when its traffic passes a limit. The table keeps a session whose connection is lost for a
-- while, and a new connection may take it over. The proxy (atproxy/atproxy_manager.cpp) hears of other
-- proxies from a watcher of etcd and connects to them; a key of etcd (component/etcdcli/
-- etcd_keepalive.cpp) is checked, written, and written again when its value changes;
-- a watcher (component/etcdcli/etcd_watcher.cpp) reads a range of keys and follows its changes; keys and
-- values are packed for it by component/etcdcli/etcd_packer.cpp. The object that they belong to
-- (component/etcdcli/etcd_cluster.cpp) logs in, finds the members of the cluster, keeps a lease alive, tries
-- again what has failed, and deletes the keys that are removed. The module around it
-- (component/modules/etcd_module.cpp) reports the node of an application and hands on the nodes that it
-- hears of. The protocol between the gateway and its clients
-- (atgateway/protocols/inner_v1/libatgw_proto_inner.cpp) cuts a stream of bytes into messages and sends
-- messages as frames of a hash, a length and a body. Ids of sessions come from an allocator that threads
-- share (component/core/timestamp_id_allocator.h).
--
-- Base: the shared names and lemmas: Boolean tests, `int` results, maps, checks by a table.
-- Gateway: one module for a part of the two sources.
--   Codes, Proto (with Guard): error codes, close reasons and the base class, protocols/proto_base.
--   Flags (with Bits), State, Limits, Session, Calls: session.h and session.cpp.
--   Manager, Reconnect, Dispatch, Accept: session_manager.h and session_manager.cpp.
--   Proto/Lifecycle, Limits/Quiet, Session/Keeps, Session/Termination, Calls/Lifecycle, Calls/Quota,
--   Manager/Expiry, Reconnect/Takeover, Reconnect/Activation,
--   Accept/Capacity: what is proved of them.
-- Inner: the protocol of the clients, protocols/inner_v1.
--   Wire: the layout of a frame, and what is taken from libatbus, flatbuffers and the hash function.
--   Reader: alloc_recv_buffer and read; Frames says what a stream holds, apart from any buffer, and Stream
--   (Steps, Calls, Success, Runs, Room) what the calls of read make of it.
--   Sender: try_write, write_msg, write_done, send_kickoff and close; Merging, Order, Progress, Messages,
--   Stays and Closing hold the proofs. Conversation joins a writer and a reader.
--   Crypt: encryption sessions, decrypt_data and dispatch_handshake_verify_ntf; Verify holds the proofs.
--   Crypt/Reconnect: check_reconnect and setup_handshake. Crypt/Post: posts,
--   from send_post to dispatch_data; Delivery holds the proofs.
-- Ids: timestamp_id_allocator; Unique holds the proofs.
-- Proxy: atproxy_manager; Addresses, Schedule, Waiting and Events hold the proofs.
-- Etcd/Keepalive: etcd_keepalive; Delivery, Life and Checks hold the proofs.
-- Etcd/Watcher: etcd_watcher; Resume and Stream hold the proofs.
-- Etcd/Cluster: etcd_cluster: its state, flags and requests for a lease. Cluster/Actors: its keys, watchers,
-- retries and deletions; Members: authorization, members and tick; Replies: what it makes of the replies,
-- close and reset. Lists, Keeps, Life, Ticks, Answers, Closing, Runs, Lease, Pending, Removal and Nodes
-- hold the proofs: Keeps says that what every small step keeps, every operation keeps.
-- Etcd/Module: etcd_module: the documents of nodes and the events about them; Module/Paths: where they
-- stand; Module/Watchers: the add_watcher functions; Module/Start: init, stop, reset and tick. Trip,
-- Start/Reported, Start/Added and Start/Ends hold the proofs, Paths and Watchers their own.
-- Etcd/Packer (with Values): etcd_packer and etcd_def.h; Trip and Range hold the proofs.
-- The Examples modules apply the theorems to concrete values.
--
-- Conventions. A function of the source keeps its name; a long one has helpers, named for what they do,
-- that take over at a lookup or a test. `Outcome` is a result, a null pointer that is followed, or fuel
-- that ran out. The fuel is the depth of the calls of `close_with_manager` inside one another, which is
-- the only recursion without a bound of its own; one level is enough wherever the message about the end
-- of the session passes no limit, and no number of levels is enough for some sessions
-- (Session/Termination). `tick` of the proxy takes as much fuel as there are checks and one more,
-- `on_watch_write` of the watcher as much as there are bytes and one more, and both are proved enough.
-- The loop of the reader takes as much as there are bytes, and a write as much as there are blocks
-- and one or two more. The loop in `init` of etcd_module runs over the turns of libuv's loop that it is
-- given, and is proved to end where its timer runs out in one of them. Pointers to sessions are
-- addresses in a store, and the maps and lists of the table hold addresses.
--
-- What is outside is an argument: the clock, the answers of libuv, libatbus, the HTTP client and
-- protobuf, the calls of a derived protocol class (`ProtoOps`), the ids that sessions get, and the
-- buffers, base64, the hash, the ciphers and the numbers of flatbuffers, each with the behaviour that
-- the code relies on. The calls that a protocol object makes back into the gateway are steps of their
-- own and do not happen inside another call. Times are natural numbers; counters wrap at 2 ^ 64. Of
-- the data that is sent to a client only the length is kept.
--
-- Not modelled: listening and the sockets, logging, the gateway's application (atgateway.cpp), the
-- ciphers of the inner protocol, the steps of its handshake but the last and the check of a
-- reconnection, what it does with messages other than posts, the options and bodies of the requests to
-- etcd, the reload of the configuration of etcd's module, the tools and samples.
pub mod Base
pub mod Gateway
pub mod Proxy
pub mod Etcd
pub mod Ids
pub mod Inner
