-- ===== src/Lib.antt =====
-- A model of trafficAnalysis: security alerts are taken from a probe or a request, become events
-- in a store, are worked on by users and agents, and are shown to clients over a socket hub.
--
-- Parts and files:
--   Base, Dict, Value: Boolean tests, lists, texts, sorting (an insertion sort for sort.Slice, which
--     promises no order of equal elements; the model keeps theirs), Go maps with string keys, and
--     the values of decoded JSON (map[string]any).
--   Domain: internal/domain/models.go. One record per struct; Domain.Roles has the roles and
--     NormalizeMessage, Domain.Roles.Normal the normal form of messages.
--   Store: internal/store/memory.go and common.go. The record MemoryStore has a field per field of
--     the struct, and each method is a function of the same name: Users, Events, Messages, Work
--     (tasks, actions, commands, executions, summaries) and Sync (fingerprints, cursors, pushed
--     events, the audit log). Rows has what the lists by event share. A method holds the lock from
--     its first line to its last, so Store.Trace models concurrent use as a list of calls.
--   Service: internal/service/services.go, event_mapping.go and messages.go. Ingest is
--     ProcessLyEvent, Sync is RunSyncOnce, Create is CreateEventFromRequest, Mapping the mapping of
--     an alert. A service is a function on World, which has the store, the number of readings of
--     the clock and of remote calls, and what was published.
--     Service.Agents is internal/service/agents.go: Plans has what the agents decide, Steps and
--     Workflow RunAgentWorkflow, which runs on a Stage: a World and the registered publisher.
--   Hub: internal/socketio/hub.go. Sessions are objects in a store of objects, since a session that
--     the hub no longer lists may still be held; Hub.Packets is handleEnginePacket and
--     handleSocketEvent, Hub.Queue drainPackets, Hub.Polling the handlers of HTTP and WebSocket
--     requests, Hub.Steps the steps that change a hub.
--   Realtime: internal/realtime/realtime.go. Worker: internal/worker/rabbit_worker.go.
--   Driving: internal/httpapi/driving_mode_hooks.go, the workflow that is run after a request that
--     created an event.
--   Api: internal/httpapi/server.go. A handler is a function on Server (the desk of Driving and the
--     tokens) that gives a Reply: Accounts has users and passwords, Events the events and their
--     work, Internal the routes for the probe, Engineer the chat of engineer_context.go, Modes the
--     driving mode, Hooks the broadcasts of socketio_broadcast_hooks.go and the automation, Encode
--     the JSON of replies, Routes the table of handlers. Service.Prompts is service/prompts.go.
--   Ly: internal/lyserver/handlers.go and query_handlers.go. A handler is a function on Journal,
--     the statements that were sent to the database so far; Settings, Lists and Queries have the
--     handlers, Statements the texts that Queries sends, Catalogue all the texts that are sent.
--   Autopilot: internal/autopilot/autopilot.go, with insertCompat in Autopilot.Columns and
--     RunForEvent in Autopilot.Flight, on Flown: the statements sent so far and the publisher.
--   Config: internal/config/config.go. Client: internal/client, with Client.Shadow for
--     flowshadow.go and Client.Model for llm.go.
--   Tests: examples.
--
-- A request is answered by a handler, which calls the services and the store; the answer is what the
-- hooks read to broadcast a message to the hub or to run the workflow for a new event. The worker and
-- the services add messages to the store; the worker and the hub's own events broadcast through the
-- hub. lyserver has its own database and shares no state with the rest.
--
-- Conventions: int64 counters wrap around (inc64), and where a theorem needs that they do not it
-- bounds the number of calls. Times are nanoseconds from Go's zero time. Go ranges over a map in
-- any order, so code that does takes the order as an argument. Loops are structural: the retry
-- loop counts its attempts down, drainPackets counts the room in its batch down from fifteen.
--
-- Parameters: the clock, random ids, SHA-256, JSON encoding and decoding, the environment, and the
-- answers of the remote systems and of the databases of lyserver and the autopilot are fields of
-- Outside, Crew, Tools, Draws, Backend, Site, Ly, Pilot and Web; no law is asked of them. Go's
-- ServeMux decides which route a request has, so a route is an argument.
--
-- The parser of addresses reads texts of digits and dots, which are all that it is given; a number
-- is printed by at most twenty digits.
--
-- Not modelled: the SQL store, schemas and demo rows (SQL that the database executes), the
-- proxy (streams that are copied), the connection to RabbitMQ, and process set-up.
pub mod Api
pub mod Base
pub mod Config
pub mod Autopilot
pub mod Client
pub mod Dict
pub mod Value
pub mod Domain
pub mod Store
pub mod Service
pub mod Hub
pub mod Ly
pub mod Realtime
pub mod Worker
pub mod Driving
pub mod Tests
