-- ===== src/Lib.antt =====
-- LiXS, a lightweight XenStore: the in-memory store with its transactions, the watches, the clients'
-- protocol, and the connections that it runs over.
--
-- How the parts interact. `xenstore` (lib/lixs/xenstore.cc) passes each operation of a client to the
-- `store` (lib/lixs/mstore/store.cc) and, when it succeeds, tells `watch_mgr`
-- (lib/lixs/watch_mgr.cc), which queues calls of the clients' callbacks with `event_mgr`
-- (lib/lixs/event_mgr.cc). The store removes a slash at the end of the path and hands the operation
-- to `simple_access` (lib/lixs/mstore/simple_access.cc), which works on the database at once, or to
-- the `transaction` (lib/lixs/mstore/transaction.cc) that the operation names, which works on its own
-- entries in the records of the same database until it is merged or given up.
--
-- Which file models what:
--   Base          shared names; maps, sets and texts of the C++ standard library as lists
--   Errno         the error codes of the store, and results
--   Util          lib/lixs/util.cc; paths below a path are in Util/Below
--   Permissions   inc/lixs/permissions.hh, lib/lixs/mstore/database.cc
--   Mstore/Database       inc/lixs/mstore/database.hh; the invariant is in Mstore/Database/Sound
--   Mstore/SimpleAccess   lib/lixs/mstore/simple_access.cc
--   Mstore/Transaction    lib/lixs/mstore/transaction.cc; the end of a transaction is in
--                         Mstore/Transaction/Merge
--   Mstore/Store          lib/lixs/mstore/store.cc
--   EventMgr      lib/lixs/event_mgr.cc
--   WatchMgr      lib/lixs/watch_mgr.cc
--   Xenstore      lib/lixs/xenstore.cc
--   DomainMgr     lib/lixs/domain_mgr.cc
--   XsProto       lib/lixs/xs_proto_v1, inc/lixs/xs_proto_v1/xs_proto.hh: the arguments of a request
--                 (Args), permissions and errors as texts (Perms), the requests (Ops), the layout of
--                 a message (Body), the loops that read and write messages (Rx, Tx), and the events
--                 of watches (Watch)
--   Conn, RingConn, SockConn   lib/lixs/ring_conn.cc and lib/lixs/sock_conn.cc
--   Domain        lib/lixs/domain.cc, lib/lixs/sock_client.cc
--   Epoll         lib/lixs/os_linux/epoll.cc
--   UnixSockServer  lib/lixs/unix_sock_server.cc
--   LixsConf      app/lixs_conf.cc
--   System        what the program holds of the system
--   RingConn/Setup, SockConn/Setup, Domain/Setup, UnixSockServer/Setup, DomExc/Setup
--                 the constructors and destructors
--   Xenbus        lib/lixs/xenbus.cc
--   DomExc        lib/lixs/os_linux/dom_exc.cc
--   Log           inc/lixs/log/logger.hh
--   App           app/lixs.cc
--   Tests         the theorems at small inputs
-- A method is a function of the same name that takes the state of its object last and returns the
-- next one, beside its result. References of the source into a map are keys: `at` reads through one
-- and `modify` writes. A `watch_cb*` is a number, and `path_of` gives the path of the object there.
--
-- The multiplexer (`epoll`) queues the callbacks of the connections that are ready. A connection
-- (`ring_conn`, `sock_conn`) calls `process_rx` and `process_tx` of the protocol, which call its `read`
-- and `write`; `process_rx` hands each message to `handle_rx`, whose `op_` functions call `xenstore` and
-- `domain_mgr` and queue an answer. The `process_tx` that `handle_rx` and a watch's callback end with is
-- not part of their models: it is a function of its own.
-- `main` (App) reads the configuration, makes the file of the process's id, and then the server of the
-- sockets, the client on the bus and the handler of exceptions, as the configuration asks; the server and
-- `domain_mgr` make the other clients. The handler of exceptions (DomExc) takes domains out of
-- `domain_mgr` and tells `xenstore` that they are released.
--
-- Bounds and fuel. Functions that walk to the root, in `create`, `register_with_parents` and
-- `fire_parents`, take the length of the path as fuel: each parent is shorter than its path. `del`
-- outside of transactions takes twice the number of records, since each deletion takes a valid path
-- away and each round of a loop deletes one. `del` in a transaction takes the length of the longest
-- path of the database, since a path that is longer has no valid entry there. `run` of the event
-- manager takes fuel, because a callback may queue more. Where fuel runs out in `del` and `run` the
-- result is `none`. The ids of transactions wrap at 2 ^ 32 as `unsigned int` does; the sequence
-- numbers (`long int`) are unbounded here.
--
-- `process_rx` takes three turns for each byte that has arrived, and `process_tx` three for each
-- message of the queue. Indices into the rings, and `bytes` of a connection over rings, are of 32 bits.
--
-- What stands for code of others. `XsWire` is what Xen's headers define of the protocol, `XsRing` the
-- ring's size and mask; the results of event channels, `recv` and `send`, and what a domain does to the
-- shared memory meanwhile, are arguments, and so is the exception that leaves the event manager in
-- `main`, if one does. A write outside of the memory of a message, which C++ leaves undefined, is the
-- result `overflow`, and so is a length of a body that `rx_bytes`, an `int`, cannot hold. The loops take
-- the connection through `Source` (XsProto/Rx/Laws) and `Sink` (XsProto/Tx/Laws), which the rings fill in
-- RingConn/Source and RingConn/Sink, and the requests fill `Handler` in XsProto/Rx/Requests.
--
-- What the program holds of the system is the record `System`: descriptors, event channels, handles,
-- mapped pages and watched descriptors, which the constructors and the destructors change; what the
-- system's calls return is an argument. `lifetime` is what is left after the destructor, or after a
-- constructor that throws.
--
-- Not modelled: the signal handler (app/lixs.cc), which disables the event manager; the messages and the
-- printing of a protocol message for the log; and the tests. What the destructor of a domain does to the
-- xenstore is the argument `ended` of DomainMgr, XsProto/Ops and DomExc; that of `xs_proto` is
-- `unwatch_all` of XsProto/Watch. A request by which a domain's client releases its own domain deletes
-- the object that handles it: what follows is `none`, as for a deletion that does not end.
pub mod Base
pub mod Util
pub mod Errno
pub mod Permissions
pub mod Mstore
pub mod EventMgr
pub mod WatchMgr
pub mod Xenstore
pub mod DomainMgr
pub mod LixsConf
pub mod XsProto
pub mod Conn
pub mod RingConn
pub mod SockConn
pub mod System
pub mod Domain
pub mod Xenbus
pub mod DomExc
pub mod Log
pub mod App
pub mod Epoll
pub mod UnixSockServer
pub mod Tests
