-- ===== src/Lib.antt =====
-- The push notification system: a server that stores notifications and delivers them to connected
-- devices, and the client on a device. This library models the parts of it that decide what is
-- delivered, and proves what they promise.
--
-- The parts, and where they are:
--   Base       what all parts share: tests, lists, Go's strings as lists of bytes (Base/Texts), maps
--              as association lists (Base/Dict), int64 as a 64-bit pattern (Base/Int64), slices with
--              their backing array (Base/Slice), and results with an error (Base/Results).
--   Protocol   protocol/messages.go: the messages. Protocol/Messages has the records and Split;
--              Protocol/Split the loop that sends a message in parts, for any kind of message, and
--              Protocol/Wire the wire format of protocol/protocol.go.
--   Store      server/store: Store/ChannelId has the channel ids and Store/Filter the two filters of
--              store.go; Store/InMemory the store of inmemory.go, a map from channel ids to channels,
--              with its tokens in Store/InMemory/Token and what Scrub leaves in Store/InMemory/Scrubs.
--   Broker     server/broker: Broker/Session has what a session keeps, Broker/Exchanges the exchanges
--              of exchanges.go, Broker/Simple the goroutine of simple/simple.go as a step function on
--              events, with its registry; Broker/Simple/Casts has what an event changes, and
--              Broker/Simple/Replaced a device that connects again.
--   Api        server/api/handlers.go: Api/Errors has the errors of the API, Api/Requests the requests
--              and their checks, Api/PendingStore the interface of server/store/store.go with the
--              in-memory store as one, Api/Handlers the handlers, and Api/Serve what stands between
--              them and HTTP. Api/Broadcasts follows a request to broadcast to the broker's sessions.
--   Client     client/session: Client/Session has the session's fields, its hosts and its delays,
--              Client/SeenState what it remembers, where that is kept in memory
--              (seenstate/seenstate.go) and not in SQLite (seenstate/sqlseenstate.go), and
--              Client/Messages the loop over the server's messages with a handler for each.
--              Client/Keeper has the start of a session and the goroutine that keeps its connection,
--              beside the calls of Dial.
--              Client/Mailbox has the messages held for an application (client/service/mbox.go), and
--              Client/Redialer the states of an auto redialer (util/redialer.go), with its attempts.
--   Session    server/session/session.go: the loop of a device's session on the server, a round for
--              each ping and each exchange, with the ping timer and the network's answers; what a
--              round delivers is in Session/Delivery and Session/Notified, the way through
--              store, broker and session in Session/Forwarded and Session/Announced, and the timer
--              over a run of rounds in Session/Timer and Session/Rounds. Session/Opening has the
--              opening of a session and its end.
--   Helpers    launch_helper/kindpool.go: the pool of the helpers that handle messages on the device,
--              a step for each of the inputs, ends of helpers and time limits that its loop waits for.
--   Statistics server/statistics/statistics.go: the counters, with their rings as sliding windows.
--   Examples   the results at concrete inputs, and tests of the definitions.
--
-- The request handlers store notifications in the store and ask the broker for a delivery; the broker
-- reads a snapshot of the channel and feeds exchanges to the sessions; a session prepares each
-- exchange, sends its message in parts, and on an acknowledgement raises the client's level of a
-- broadcast channel or drops the delivered notifications from the store.
--
-- Conventions. Go's strings and byte slices are lists of bytes; a nil slice is the empty one. The
-- result `none` of a function that otherwise gives a value is a run-time panic. A pointer to a
-- structure that is changed in place is its entry in a map, which the change replaces. Time is a
-- number of nanoseconds, and time.Now() is an argument. int64 wraps around; int and lengths, which
-- count things held in memory, do not. What Go's libraries do on JSON and base64 is a parameter.
-- Locks make each method one step; the goroutines of the broker and of a session are functions of
-- the sequence of events that they receive. Loops over a list recur on the list; the loop that sends
-- a message in parts has fuel, and one unit for each element and one more are proved enough; the loop
-- of connect has one unit for each host and one more, which are proved enough too.
--
-- Not modelled: the sockets, TLS and HTTP below the handlers, the client's TLS configuration, its
-- D-Bus services and desktop integration, configuration files, logging, SQLite, and the copies of
-- net/http and murmur3 in http13client and external.
pub mod Api
pub mod Base
pub mod Broker
pub mod Client
pub mod Examples
pub mod Helpers
pub mod Protocol
pub mod Session
pub mod Statistics
pub mod Store
