-- ===== src/Lib.antt =====
-- hottpd, a small web server: its request path, its connections, its files and its configuration.
--
-- A connection receives bytes (src/buffer.cpp), finds requests in them (src/request.cpp), cleans
-- the path it is asked for (src/request.cpp, `HandleURI`), looks it up below the document root
-- (src/filesystem.cpp) and queues an answer (src/connections.cpp, src/backend_write.cpp), which
-- the socket engine asks it to send on. Connections are accepted, timed out and culled by the main
-- loop (src/inspircd.cpp, src/connectionmanager.cpp, src/cull_list.cpp, src/socket.cpp). Modules
-- are loaded by src/modules.cpp. The configuration comes from src/configreader.cpp.
--
-- Which file is about which part:
--   Base         bytes, lists, tests and numbers, as the C++ library has them.
--   Hex          src/hashcomp.cpp: `utils::hex` and `utils::unhexchar`.
--   Uri          src/request.cpp: `HandleURI`. `scan` is its loop, `State` its two strings and the
--                query; Uri/Walk says what a path means without the loop.
--   Connection   include/connections.h: the state. Connection/Parse and Connection/Request are
--                `CheckRequest`, Connection/Input is `ReadData`, `AddBuffer` and `HandleEvent`,
--                Connection/Output and Connection/Write are `SendHeaders`, `SendError`,
--                `ServeData`, `SendStaticData`, `EndRequest`, `FlushWriteBuf`, `Write` and
--                `ServeFile`, Connection/Response the headers of an answer.
--                Connection/Delivery is about the bytes that go out while a file is served:
--                Delivery/Begin from `ServeData` to the queued head, Delivery/Writable a write
--                event, and Delivery/Delivered all of them until the request ends.
--   Server       src/connectionmanager.cpp, src/cull_list.cpp, the limits of src/socket.cpp and the
--                loop of src/inspircd.cpp: `add` is `Add`, `apply` is `CullList::Apply`, `begin` is
--                what `Run` does before it dispatches events. Server/Steps says what may happen, as
--                steps: connections that are accepted, events of connections, iterations.
--   Docroot      `HandleURI` and `CheckFilePath` one after the other.
--   Headers      include/connections.h: `HTTPHeaders`, sorted by `StrCaseLess`.
--   Files        src/filesystem.cpp: `Stat` with its caches, and `CheckFilePath`.
--   Mime         src/mimetypes.cpp.
--   Wildcard     src/wildcard.cpp: `match` and `csmatch`.
--   Cidr         src/cidr.cpp: `MatchCIDRBits` and `MatchCIDR`, and the overloads of `match`.
--   Tokens       src/hashcomp.cpp: `sepstream` and `stringjoiner`.
--   Bits         src/hashcomp.cpp: `dynamicbitmask`.
--   Duration     src/helperfuncs.cpp: `Duration`.
--   Timers       src/timer.cpp, include/timer.h: `TimerManager`.
--   Engine       src/socketengines/socketengine_epoll.cpp, src/socketengine.cpp: the handlers by
--                descriptor.
--   Modules      src/modules.cpp: the handlers of an event and their priorities, the features and the
--                interfaces; Modules/Loading is `Load` of one file and `Unload`, with src/dynamic.cpp.
--   Config       src/configreader.cpp: `LoadConf`, `ConfValue`, `ConfValueBool` and the counts.
--                Config/Validators has the validators and `DirValid`, Config/Settings the members of
--                include/configreader.h that `Read` fills in, Config/Table the table `Values`,
--                Config/Entries the loop over it, and Config/Read the whole of `Read`, with
--                `LoadAll` of src/modules.cpp and the name of the PID file of src/inspircd.cpp.
--
-- State is passed explicitly. System calls are the fields of the record `Host` of Connection, or
-- the argument `ask` of Files, over a world that no definition looks into; the handlers of modules
-- are the fields of `Hooks`. Bytes are numbers below 256, C strings lists without a NUL.
-- `CheckRequest` runs on fuel, the length of the request buffer and one more: each time it is
-- entered again a whole request has left the buffer. The matcher runs on fuel as well, the number
-- of bytes of the string and the mask each with one more, multiplied, and two more. Running out is a value of
-- its own in both.
--
-- Connections are told apart by the number of their address; what a connection adds to the cull list
-- is its own address, so that the connections of `Server` are those of `Connection` with their
-- entries. The modules called by `Server` and by `Load` act on the world alone. `Run` has no fuel: its
-- iterations are the constructors of a relation. The tokens of a text are read on fuel, one more than
-- there are words. A `long` of `Duration` has 64 bits, and one that overflows is an outcome of its own,
-- as is a text too long for the buffer of `hex`; times and intervals of timers are integers without a
-- bound. `Load` answers for names without `*` and `?`, of files with `.so` in their names; of others
-- nothing is said, and in `Read` a call of `Load` for one of them is an outcome of its own. The clock
-- that gives a new connection its age is read apart from the TIME of the loop, and is assumed not to
-- be behind it. What `configure` writes into the program is the record `Build` of Config/Entries;
-- storing a value through a container of another kind, or more than an array holds, is the outcome
-- `undefined`.
--
-- Not modelled: start-up, signals, the calls of the system around listening sockets and addresses
-- (`BindPorts` is a member of the record `Surroundings`), logging, `Load` of a pattern and the CGI
-- module; the select, kqueue, ports and iocp engines; the port lists of src/hashcomp.cpp; of
-- src/configreader.cpp `ConfValueInteger`, `ReadFile`, `FileExists`, `ValidateMaxTargets` and
-- `ValidateDnsServer`; win/, tools/ and the build.
pub mod Base
pub mod Bits
pub mod Cidr
pub mod Config
pub mod Connection
pub mod Docroot
pub mod Duration
pub mod Engine
pub mod Files
pub mod Headers
pub mod Hex
pub mod Mime
pub mod Modules
pub mod Server
pub mod Timers
pub mod Tokens
pub mod Uri
pub mod Wildcard
