-- ===== src/Lib.antt =====
-- gpool is a connection pool and change-capture library for Go. This library models seven parts of it.
--
-- Pooling: pkg/pooling, the engine behind every pool, a generic `Core[C]` that checks connections
-- out and in under a ceiling that can move. Pooling/Permit.antt (permit.go) is the set of permits
-- that bounds how many callers hold a connection; Pooling/Conn.antt (idle_conn.go, driver.go,
-- discard.go) a pooled connection, the vendor's callbacks and the reasons for a discard;
-- Pooling/Shard.antt (shard.go) one bucket of idle connections; Pooling/Config.antt (config.go) the
-- configuration. Pooling/Core.antt holds the state of the engine (core.go) and the steps its methods
-- share, with one module for each group of methods: Core/Acquire.antt (Acquire, take, connect,
-- acquirePermit), Core/Release.antt (release, recyclable, Handle.Release), Core/Resize.antt
-- (SetMaxConns, trimIdle, EvictIdle) and Core/Maintain.antt (reapExpired, warmUp, Close).
-- Pooling/Stats.antt is Stat. The theorems stand in Core/Accounts and its children, in the modules
-- called Laws, in Permit/Refinement.antt and Permit/Drain.antt, in Core/Idle.antt (what the
-- connections that wait keep to) and in History.antt, which runs the methods in any order.
--
-- A method of the engine is a function on the state that runs as one step, without interruption. Two
-- are cut where they wait for another one: `Acquire` is one function up to where it parks and one
-- from where it wakes, and `Close` is `close_begin` and, once the background goroutine has stopped,
-- `close_end`. A dial stays within its step, with what it gives as an argument: no other call comes
-- between the permit of an `Acquire` and its handle, so the case in which `take` finds every slot
-- taken by a dial or a release under way, and yields, is translated but not reached. A history runs
-- the steps but for `close_end`, which may follow it; no permit comes back during its wait. What the environment decides is an argument: the
-- vendor's callbacks (a record `Driver` of functions), the random shard, the time, what a dial
-- gives, whether a context has ended. int32 counters are integers that may be negative and do not wrap: the code bounds
-- the connections it counts by MaxConnsLimit, an int32. The 64-bit counters of events are natural
-- numbers. Loops run on fuel: `pop_shard` gets one round more than the shard has connections, and
-- `trim_idle` one more than there are idle ones, which is enough because each round takes one off.
-- `take` gets a list of rounds, as many as the caller spins.
--
-- Replication: pkg/vendors/postgres/cdc. Replication/Stream.antt (event_stream.go) has the state of
-- a stream and the handlers of its reader goroutine; Stream/Moves.antt interleaves the reader, the
-- consumer's loop and Close as sequences of moves; Stream/Confirms.antt and Stream/Handlers.antt have
-- the invariant, Stream/Delivery.antt the theorem on histories.
-- Replication/Decode.antt is decoder.go, Replication/Catalog.antt identifier.go. The messages are
-- those that pglogrepl parses; its text of a position is a parameter.
--
-- Replication/Statements.antt is statement.go and config.go, the SQL that a subscriber sends and the
-- configuration that it accepts. Replication/Subscriber.antt (subscriber.go) has a subscriber with
-- its two kinds of connections and Subscriber/Methods.antt its methods, in a monad of its state that
-- may fail. The server is a record of functions on a state of its own, which answers a statement,
-- given as data, with what the code can tell apart. A method holds the mutex, so it is one step. How
-- many connections are open is counted when one is dialled and closed. Subscriber/Outcomes.antt,
-- Steps.antt, Calls.antt and Configured.antt have what all methods keep to; Sound.antt and
-- Lifetime.antt the connections, Resume.antt the position of a stream, and Tracks.antt,
-- Published.antt, Agreement.antt and Histories.antt the tracking list and the publication.
--
-- Proxy: examples/gpoolproxy, a proxy that lends pooled server connections to client connections for
-- a transaction or for a session. Proxy/Statements.antt (statements.go) is the set of prepared
-- statements with its limit, Proxy/Wire.antt the names in wire messages and the Close that the proxy
-- writes. Proxy/Relay.antt (relay.go) has the framing and the copying of messages, Proxy/Backend.antt
-- (backend.go) a server connection with its draining and its rollback, and the callbacks of
-- driver.go that the engine calls on it. Proxy/Session.antt (session.go) has the reconciling of
-- statements, with Session/Rounds.antt for the rounds of a client and what a server answers, and
-- Proxy/Startup.antt (session.go) the handshake, with the two computations of SCRAM as arguments;
-- Proxy/Scram.antt (scram.go, verifier.go) has those, over HMAC, SHA-256 and base64 as parameters,
-- and the text of a stored secret, and Proxy/Users.antt (userlist.go) the list of users that it
-- loads, its file given as lines. Backend/Clean.antt puts the server connection
-- under `release` of the engine. A reader is the list of the bytes that will still arrive and ends
-- where the list does; a writer takes as many bytes as its room says and then fails. What a server
-- answers is such a list too. Loops run on fuel: copying and discarding get one round more than
-- there are bytes, draining one more than bytes, the relay of a server's messages one for each
-- message, the handshake one for each eight bytes and the search of its parameters one for each byte.
--
-- Sql: pkg/sqldriver, the adapter from drivers of database/sql to the engine. Sql/Value.antt
-- (value.go) copies a driver's value to a destination, Sql/Conn.antt (conn.go, pool.go, tx.go) has a
-- connection's transaction and the callbacks that the engine gets, and Sql/Rows.antt (rows.go,
-- row.go) a result set and a single row. The transaction that the database has in progress is part
-- of the state, next to the one that the code remembers; Conn/Unbound.antt puts the adapter under
-- `release` and `pop_idle` of the engine. Floats, times and their texts are a record of functions.
-- The loop of `All` runs on one round more than the driver has answers.
--
-- Binlog: vendors/mysql/cdc, change capture from a binary log. Binlog/Position.antt (position.go) is
-- a place in the log and its text, Binlog/Filter.antt (filter.go) the set of tables, kept as a list of
-- its names, Binlog/Columns.antt (columns.go) the names of a row's columns, Binlog/Rows.antt
-- (decoder.go) the changes of an event, and Binlog/Reader.antt (event_stream.go) the reader's loop
-- with its tracker. A round of the loop comes with the filter at that time and what the catalog would
-- answer, and the consumer takes as many changes as its room says before it closes the stream.
-- Reader/Transactions.antt describes the log as transactions. GTID sets are a third party's, a record
-- of functions, and so are the library's letters of lower case and its digits.
--
-- Registry: pkg/gpool/engine.go, the pools and subscribers that an application registers by name.
--
-- CopyRows: pkg/gpool/copy_rows.go, the cursor over a slice that a bulk copy reads; the loop that
-- reads it, on one round more than there are rows, is a third party's and stands with the theorem.
--
-- Base and its children have the helpers that all of them share. Strings are lists of bytes, maps
-- association lists with one entry for a key.
--
-- Not modelled: the interleaving of two methods of the pooling engine between their atomic
-- operations, the ticker of `maintain`, timeouts, `sync.Once`, sockets, the vendors' pools (drivers
-- with no logic of their own), change capture from SQL Server and the subscriber of MySQL; of
-- pkg/sqldriver what only forwards to the driver (conn_wrapper.go, Exec and Query, convertArgs); of
-- the proxy the derivation of a secret from a password, TLS, the listener, accepting and cancelling
-- of proxy.go, the replay of a server's parameters, and the two directions of a session running at
-- once within a round.
pub mod Base
pub mod Binlog
pub mod CopyRows
pub mod Pooling
pub mod Proxy
pub mod Registry
pub mod Replication
pub mod Sql
