-- ===== src/Lib.antt =====
-- A verification library for the PSDK bridge daemon `psdkd`, which answers JSON-RPC requests in UDP
-- datagrams and drives a DJI aircraft through the vendor's Payload SDK.
--
-- The parts and the files that model them:
--
-- - include/drone_types.h: Types.antt. Error codes and the records that pass between the layers. An
--   enumeration that a request may fill with any `int` (CameraMode, ObstacleAvoidMode) is an integer.
-- - core/proto/rpc.h, core/proto/rpc.c: Proto.antt. `rpc_parse`, `rpc_request_free`, the two reply
--   builders and the three parameter readers. Proto/Parsing.antt and Proto/Framing.antt hold lemmas.
-- - core/server/udp_server.c: Server/Udp.antt. `udp_server_poll` strips a datagram and hands it to the
--   callback; `udp_server_send` is one call of sendto. Server/Setup.antt: its creation and end.
-- - core/server/tcp_server.c, which the daemon does not use: Server/Tcp.antt (the client table, accept,
--   send, close, end), Server/Tcp/Receive.antt (reading, lines, events), Server/Setup.antt (creation).
--   Server/Calls.antt: the system calls of both servers, as a trace with the newest first.
--   Server/Tcp/Service.antt: what the stream server offers, as connections with a partial line each;
--   Server/Setup/Serving.antt relates the server to it.
-- - core/handler/handler.c: Handler.antt (state, senders, uptime), Handler/Reads.antt,
--   Handler/Writes.antt and Handler/Kmz.antt (one function per handler), Handler/Dispatch.antt
--   (`handle_rpc`: `select` is the ladder's test, `run` the call in its branch, `dispatch` both with the
--   release of the request).
-- - bsp/drone_ctrl.h: Ctrl.antt, a record of operations which the dispatcher takes as a parameter.
-- - bsp/drone_ctrl.c: Ctrl/Stub.antt (the build without PSDK_REAL) and Ctrl/Real.antt (the build with
--   it: Topics.antt for the cached samples and the callbacks, Reads.antt, Writes.antt, Waypoint.antt for
--   the upload, the start and the end). Both fill the record, in Stub.antt and in Real/Build.antt.
-- - bsp/psdk_hal.c, bsp/psdk_init.c: Boot.antt, the calls of the SDK's core in order.
--   Boot/Console.antt: `psdk_console_cb`, which hands the SDK's own log to that of the daemon.
-- - core/log/log.h, core/log/log.c: Log.antt, the level and the lines printed.
-- - app/main.c: App.antt (`main`, `run_daemon`, the poll loop), App/Args.antt (the options),
--   App/Loop.antt (`g_running`, the signal handler and the loop that tests it), App/Usage.antt (the
--   texts of the options and the level of the log), App/Samples.antt (rounds of the loop with
--   callbacks of the SDK between them), App/Requests.antt, App/Commands.antt and App/Decoded.antt (a
--   run as requests, as operations of the layer, and how a datagram is read as one),
--   App/Permitted.antt (the SDK calls that a request may lead to), App/Build.antt (how the two builds
--   fill the parts that main starts and ends).
-- - tools/ffs_init.c: Tools/Ffs.antt, the descriptors and the event loop of the USB gadget.
-- - Session.antt: what a request comes to over the two builds of the drone control layer. Session/Mock.antt:
--   what the mock drone shows behind a run.
--
-- State is passed explicitly. A request acts on a `World`: the static variables of handler.c, the
-- counts of json-c root objects created and released, the state of the drone control layer, and the
-- calls of sendto so far. The real layer's state holds its static variables, the SDK calls so far, and
-- the files and buffers that an upload holds.
--
-- Parameters, for code that is not of the repository: json-c (`JsonC`), the DJI SDK and stdio (`Sdk`,
-- `FileIo`: the answer to a call may depend on all calls before it), and floating point (`Floating`).
-- What a theorem needs of them is a hypothesis of the theorem. The readings of the monotonic clock are
-- arguments, and so are the answers to the system calls of the servers and of ffs_init.
--
-- Bounds: a `char` array is a list of bytes without the terminating NUL; `snprintf` gives the text cut
-- to the buffer and the length of the whole text. Conversions to `uint32_t` and `uint64_t` are written
-- out, and so is the wrap-around of an addition of `int32_t` values (Prelude/Words.antt); C leaves its
-- overflow undefined, and a theorem about such a sum has a range as a hypothesis. Bytes that an upload
-- stores behind the end of its buffer are counted in the state of the real layer and have no other
-- effect there; C leaves what follows undefined. Decimal printing has twenty digits of fuel, which
-- hold every 64-bit number. The other loops of the sources are structural recursion.
--
-- The loop of main, which goes on until a signal arrives, has the number of tests of `g_running` as its
-- fuel in App/Loop.antt; elsewhere a run of the daemon is as many rounds as are given.
--
-- Not modelled: which messages the other parts write to the log (their functions keep no log; only the
-- callbacks that the SDK calls for a message do, on a log of their own), scripts, build files and the
-- configuration that only the SDK reads.
pub mod App
pub mod Boot
pub mod Ctrl
pub mod Floating
pub mod Handler
pub mod Log
pub mod Prelude
pub mod Proto
pub mod Server
pub mod Session
pub mod Tests
pub mod Tools
pub mod Types
