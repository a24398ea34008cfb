-- ===== src/Lib.antt =====
-- r0rpc: a server that lets an HTTP caller run a call on a device. A device holds a session in the
-- hub (internal/rpc/hub.go) and takes jobs from the session's queue; a call picks a session of its
-- group, queues a job, and waits on a channel for the result that the device submits.
--
-- Rpc models internal/rpc/hub.go. Job has its jobs, results and errors; Queue the bounded queue
-- `jobQueue`; State the record `Hub`; Hub the registration of clients (`Register`, `Touch`,
-- `Unregister`, `OnlineClients`); Dispatch the choice of a session (`pickSession`) and the slots
-- for calls in flight (`AcquireDispatchSlot`, `releaseDispatchLocked`); Results the calls that
-- wait and those that are over (`storeWaiter`, `expireWaiter`, `SubmitResult`). Each function is
-- one critical section of the mutex that the Go code holds; Ops runs any list of them, which is
-- any interleaving of the goroutines. Pointers to sessions, and channels of results, are places in
-- lists of the hub, so that a goroutine keeps its session when the client is gone. A channel that
-- is closed and replaced is a number that grows.
--
-- Rpc also has the methods that take the mutexes several times. Invoke models `Invoke`: a schedule has
-- what the other goroutines do between its critical sections, and the choices of its `select`s.
-- Goroutine is a small language of such methods, which log what they do, and Poll models
-- `AcquireDispatchSlot` and the two methods `Poll` in it; a loop that waits has as many turns as its
-- schedule has pauses, and is still waiting behind the last.
--
-- Web models internal/web/client_ws.go: Frame has the frames of a WebSocket connection
-- (`writeFrame`, `ReadMessage`) as functions on bytes; Sessions has the table of the clients'
-- current connections (`replace`, `clearIfCurrent`); Login has the logins of callers and their
-- cache (internal/web/http.go, `authenticateInvokeRequest`); Writer and Reader have the two loops of
-- a device's connection (`clientWSWriterLoop`, `clientWSReaderLoop`), and PayloadCodec the decoding of
-- results (internal/web/payload_codec.go), whose formats are arguments. The loop of `ReadMessage` runs on
-- fuel, one more than there are bytes; each of its turns takes two bytes at least.
--
-- Config models internal/config/config.go: Values has the getters, File the parser of the file's
-- lines (`parseConfigFile`), its Grammar what a line says, and Config the settings and their clamps
-- (`Load`). An `int` of Go is an integer whose product by a constant wraps around at 64 bits.
--
-- App models the daily metrics of internal/app/persist_batch.go and internal/store/store.go:
-- Metrics has the deltas of a batch (`runPersistBatch`, `AddTotals`) and the writes to the table;
-- Totals adds up rows as the database does. The database is a parameter with its documented law,
-- and its statements succeed. The loop over the statements runs on as much fuel as there are rows.
--
-- App also models internal/app/app.go: Groups has `EnsureGroupActive`; Invoke, with its Outcome, has `InvokeRPC` and
-- the tasks that it queues for the store, the outcome of the hub's `Invoke` being an argument;
-- Presence has the cache that limits how often a client's presence is written
-- (`shouldFlushPresence`, `cleanupPresenceCache`); Clients has the logins and the calls of the devices
-- (`LoginClient`, and in Calls `PollClient`, `SubmitClientResult`, `TouchClientPresence`) on the hub, with
-- the tokens of internal/auth/jwt.go, whose library is an interface with its law.
--
-- App/Persist has the queue of these tasks (`enqueuePersist`, `persistWorker`) and their batches
-- (`runPersistBatch`), with the statements that fail as arguments. A worker runs on as much fuel as
-- the queue has tasks, since each of its turns takes one at least; a worker that waits for more is
-- not modelled.
--
-- Web also has handlers of internal/web/http.go: Calls the answer to a caller (`handleInvoke`); Devices
-- the logins, polls, results and logouts of devices over HTTP; Tokens who may use a route
-- (`requireRole`, `verifyClientWSClaims`, and `VerifyTokenFromRequest` of internal/app/app.go); Monitor
-- what is shown of devices, groups and queues (`applyRealtimeDeviceStates`, `handleRPCClientQueue`).
-- The bodies of requests stand decoded, or are none if they are not JSON.
--
-- Store models tables of internal/store/store.go as maps: Users the accounts (`CreateUser`,
-- `AuthenticateUser`, the updates), Groups the groups with their handlers (`CreateGroup`,
-- `UpdateGroupStatus`), Requests the rows of calls (`CreateRPCRequest`, `CompleteRPCRequests`). Their
-- statements do what SQL documents and do not fail but for the unique key; the collation is a
-- function from names to sort keys, and bcrypt an interface with its law. The loop over the
-- statements runs on as much fuel as there are rows.
--
-- Not modelled: the other SQL statements and the reports (internal/store/store.go), the handlers of
-- users and reports (internal/web/http.go), the upgrade of a connection to a WebSocket
-- (internal/web/client_ws.go), start-up (cmd), the clients and examples, which are other programs.
pub mod Prelude
pub mod Rpc
pub mod App
pub mod Config
pub mod Store
pub mod Web
