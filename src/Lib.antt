-- ===== src/Lib.antt =====
-- Verification of the juggernaut game server, a fork of the networking core of The Forgotten Server.
--
-- The program. A `ServiceManager` accepts connections; a `Connection` (source/connection.cpp) reads
-- packets into a `NetworkMessage` (source/networkmessage.cpp), checks their Adler-32 checksum
-- (source/tools.cpp) and hands them to a `Protocol` (source/protocol.cpp), which deciphers them with
-- XTEA (source/xtea.cpp). The first message of the login protocol
-- (source/protocollogin.cpp) logs in or creates an account in the database (source/database.cpp), by a
-- task of the dispatcher (source/tasks.cpp). What a protocol sends goes the other way, through an
-- `OutputMessage`
-- (source/outputmessage.h) that grows headers in front of its body.
--
-- The files.
--   Base: numbers, lists, words, byte buffers and option chains that the rest shares.
--   Xtea: source/xtea.cpp. Xtea/Word is a word in a buffer, Xtea/Blocks the cipher of one block,
--   Xtea/Steps the template recursion, Xtea/RoundTrip the inverse.
--   Checksum: `adlerChecksum` of source/tools.cpp; Checksum/Reference is Adler-32.
--   Message: source/networkmessage.h and source/networkmessage.cpp. A buffer is a function from
--   indices to bytes, and an access outside the array is `none`.
--   Output: source/outputmessage.h.
--   Protocol: source/protocol.cpp; Protocol/Frames describes the frame of a sent message.
--   Connection: source/connection.cpp. A handler returns the connection and the list of the calls it
--   makes; Connection/Receive has `parseHeader` and `parsePacket`, Connection/Transport and
--   Connection/EndToEnd join a sender to a receiver; Connection/Reading and Connection/Packets are
--   about the queue while packets are read, Connection/Starting has the steps of a connection's
--   handlers, Connection/Writes is about the order of their writes, and Connection/Closing about what
--   is left of a connection that was closed before they ended.
--   Sha1: `transformToSHA1` of source/tools.cpp; Sha1/Loop is its loop, Sha1/Padding the standard's
--   description. The length of the input is the number of rounds of its loop.
--   Streams: source/fileloader.h.
--   Server: source/server.cpp and source/server.h. Server/World is the step relation of a port,
--   Server/Accepting its invariant, Server/Selection the choice of a protocol, Server/Sharing the
--   services on one port.
--   Tasks: the dispatcher of source/tasks.cpp; Tasks/Waking is the step relation of its threads.
--   Scheduler: source/scheduler.h and source/scheduler.cpp. Scheduler/Ids is about the identifiers of
--   events, Scheduler/Stopping about events that were stopped, and Scheduler/Stranding has the steps
--   of its thread beside those of `shutdown`.
--   Autosend: the `OutputMessagePool` of source/outputmessage.cpp, its sending in Autosend/Sending and
--   its timer in Autosend/Scheduling.
--   Pool: the allocator of source/lockfree.h, with a step for each of its calls; Pool/Owning is about
--   the owners of its blocks.
--   Database: source/database.h and source/database.cpp, with the calls that are made of MySQL and of
--   the lock as a list. Database/Rows is `DBResult`, Database/Columns its columns; Database/Locking
--   and Database/Retrying are about queries; Database/Transaction is `DBTransaction`, and
--   Database/Transacting its use. Database/Interface is what the clients of a database use of it, as
--   a record.
--   DatabaseSchema: source/databasemanager.cpp. DatabaseSchema/Settings is what its queries rely on,
--   DatabaseSchema/Registering the settings, DatabaseSchema/Versions the version,
--   DatabaseSchema/Optimizing `optimizeTables`, DatabaseSchema/Decimals the numbers in the queries.
--   DatabaseTasks: source/databasetasks.cpp; DatabaseTasks/Running is the step relation of its threads.
--   Escape: `escapeString` of source/database.cpp; Escape/Room is about its buffer.
--   Insert: the `DBInsert` of source/database.cpp. Insert/Rendering is the text of a batch,
--   Insert/Progress and Insert/Batches what is sent.
--   Login: source/iologindata.cpp, and in Login/Client the `ProtocolLogin` of
--   source/protocollogin.cpp, both over Database/Interface. Login/Table says what a
--   table of accounts answers to the queries, and Login/Examples has one; Login/Digest is the text of
--   a password's digest, Login/Accounts the creation of an account, Login/Logins the logins,
--   Login/Answers the answers to the client and Login/FirstMessage its first message.
--   Startup: source/game.cpp and source/main.cpp; Startup/Paths and Startup/Loading are about the paths
--   of `mainLoader`, on which each call may also throw what is not caught; Startup/Waiting is about
--   the wait of `main`.
--   Manager: the rest of the `ServiceManager` of source/server.cpp, and the `ConnectionManager` of
--   source/connection.cpp; Manager/Closing is about what they leave open.
--   Shutdown: `Game::shutdown` of source/game.cpp, over the states of Scheduler, Tasks and Manager, and
--   the rounds of the dispatcher that run it; what the other tasks do is a parameter.
--   Shutdown/Drain takes one round for each task, the
--   scheduled ones and the last included.
--   Config: source/configjson.h and source/configjson.cpp, over a data type for JSON values.
--   Config/Shape is about the comparison of keys, Config/Typed about the lookups, and
--   Config/Defaults about the keys that the program asks for.
--   Clients: Login and DatabaseSchema over Database itself: the record of Database/Interface
--   filled with
--   its queries. Clients/Keeping is what every client keeps that the queries keep, Clients/Locking the
--   lock: the code escapes texts on the connection without it, and this is no call of the model.
--   Signals: source/signals.cpp, with the handlers as tasks of Shutdown and a console that they print
--   to; Signals/Handling is the step relation of signals and of the
--   dispatcher's rounds.
--   Rsa: `loadPEM` of source/rsa.cpp; Rsa/KeyText is about its cuts.
--   Address: `convertIPToString` of source/tools.cpp, and the address that `getIP` of
--   source/connection.cpp gives it; Address/Text reads the text back, Address/Peer for a connection.
--
-- Conventions. Integers are natural numbers with the wrap-around written out; targets are
-- little-endian. The compile-time block size of the cipher is an argument. Storage that the program
-- does not initialise holds any bytes. Loops run on fuel that their callers provide: the length of
-- the data for `adlerChecksum`, the block size for the instantiations of `XTEA`. RSA, the sockets,
-- the timers, the clock and MySQL are not part of the repository: RSA is a parameter, and the others
-- appear as the calls made of them and as arguments. The loops of the database run on MySQL's answers,
-- one round for each.
--
-- Where the code has limits of its own, the theorems name them: a buffer that is enciphered has less
-- than 2 ^ 32 bytes, since the loop counter of source/xtea.cpp has 32 bits; the name of a setting
-- has at
-- most 50 characters, the width of its column. A timer's refusal to be cancelled is a field of a
-- connection. The scheduler runs while Autosend schedules, so that `addEvent` refuses nothing.
--
-- Not modelled: reports to the console but for those of the signal handlers;
-- source/luaobject.cpp, which names classes; the branches for
-- Windows. The answers of the configuration and of the database to `mainLoader` are arguments of
-- Startup.
mod Base
pub mod Xtea
pub mod Message
pub mod Checksum
pub mod Output
pub mod Protocol
pub mod Connection
pub mod Streams
pub mod Sha1
pub mod Server
pub mod Tasks
pub mod Rsa
pub mod Address
pub mod Database
pub mod Escape
pub mod Insert
pub mod Autosend
pub mod Scheduler
pub mod Login
pub mod Startup
pub mod DatabaseTasks
pub mod Config
pub mod Manager
pub mod Shutdown
pub mod DatabaseSchema
pub mod Clients
pub mod Signals
pub mod Pool
