-- ===== src/Lib.antt =====
-- Oxicast, a client for Google Cast devices, as a model with the theorems about it. Paths are those of
-- the repository.
--
-- The parts, and how they interact. A `CastClient` (src/client.rs) holds a write channel, a request
-- tracker, a state holder and an event channel, which it shares with three tasks. The writer task
-- frames messages onto the TLS stream, and the reader task reads them (src/client/framing.rs) and
-- routes each (src/client/router.rs): a message answers a pending request
-- (src/client/request_tracker.rs), updates the state holder (src/state.rs), raises an event
-- (src/event.rs) or is answered by a PONG. The heartbeat task (src/client/heartbeat.rs) sends PINGs and
-- watches for silence. A command registers a request, sends a message built by src/channel, waits
-- for the answer, and reads it with the router's parsers. `disconnect`, `reconnect` and the auto-reconnect
-- task stop the tasks and start them again. The file server (src/serve.rs) and the scans for devices
-- (src/discovery.rs) meet the client only in `serve_and_cast` and in `DeviceInfo::connect`.
--
-- The files, and the code that they model.
--   Common: helpers on lists, options, tests and machine integers.
--   Types, Ns, Event, State, Error: src/types.rs, src/channel/ns.rs, src/event.rs, src/state.rs and
--     src/error.rs, with the source's names.
--   Message: `CastMessage` of src/proto_gen.rs, and `build_message`. Message/Auth has the messages of
--     device authentication, Message/Names the names of the enumerations.
--   Serde: the operations of serde_json that the code calls, as a record, with their laws; an instance.
--   Tracker: `RequestTracker`, one function per method. A sender is the number of its oneshot channel.
--     Tracker/Spec is what it promises, without a counter that wraps and without a table.
--   Framing: `read_message` and `write_message`, over a record of stream operations and one of prost's.
--   Heartbeat: the messages; Heartbeat/Task is `spawn_heartbeat_task` as a loop over its ticks,
--     and Heartbeat/Timing puts the ticks on a clock.
--   Channel: the message builders of src/channel/media.rs, receiver.rs and connection.rs.
--   Router: `route` with a function per namespace; Router/Parse has the three parsers.
--     Router/Traffic is what the tasks do while a command waits.
--   Discovery: the two scans of src/discovery.rs, over rounds of what the mdns-sd crate answers.
--     Discovery/Reference has the definition without a loop that the scans are compared with.
--   Serve: `serve_file` and `parse_range`; Serve/Decimal is `str::parse::<u64>`. Serve/Registry is
--     `FileServer`, with the counter of ids passed on, and Serve/Hex the text of an id.
--   Client/State, Request, Device, Receiver, Playback, Queue, Raw: the commands, as functions of the
--     client's state that return a result and the new state, chained by `do` as the code chains them
--     by `?`.
--   Client/Loops: `writer_loop` and `reader_loop`, over a stream, until they end by themselves.
--   Client/Casting: `serve_and_cast`, of the file server and `load_media`.
--   Client/Builder: `CastClientBuilder` and `from_builder`. Client/Connection is the TLS connection of
--     src/client/connection.rs, over what the libraries answer.
--   Client/Life: the exits of the tasks, `disconnect` and `reconnect_with_attempt`, cut into actions
--     at the points where other tasks run. Client/Life/Retry and Client/Backoff are
--     `spawn_auto_reconnect`, and Client/Life/Recovery runs it with `reconnect_with_attempt`.
--   Client/Lifecycle: `disconnect` and `reconnect` whole: the actions of Client/Life, and what they send
--     and forget.
--   Client/Calls: requests of several clones of the client at the same time, as a step relation.
--   Tests: runs on concrete inputs.
--
-- How the model stands to the code. An `f64` or `f32` is its IEEE 754 bit pattern. An integer keeps
-- its width: `as u32` and `as i32` are written out, and the request counter wraps at 2^32. The cast
-- from `f64` to `f32` and the text of an `i64` are parameters. A channel is the log of what was
-- offered to it, newest first; whether tokio keeps an offer is the `accepted` flag of an action.
-- `register` is one step, with its two `fetch_add` calls and its insertion behind the lock; so is
-- the rest of `disconnect` after it has cleared `alive`, with the locks and the joins that it
-- awaits. What happens while a command waits is given to it: the messages that the reader routes,
-- the PINGs of the heartbeat task, and how the wait ended. Error texts leave out the values that the
-- code formats into them. A `Duration` is in nanoseconds, and an operation that would panic on
-- overflow gives none.
--
-- The loops are structural: over the ticks of the heartbeat task, over the rounds that `launch_app` or a
-- scan waits through, over the attempts that are left, over a list of messages. Only `reader_loop` has
-- fuel, one for each read, and one more than the stream has bytes is enough, since a read that gives a
-- message takes bytes; and the text of a file's id has 16 digits at most, which hold a `u64`.
--
-- Not modelled: sockets and TLS, which are libraries, and the threads that a scan runs on; the content
-- type and CORS headers of an answer; clones of the client that change the application or the media
-- session while a command runs; tracing.
pub mod Common
pub mod Ns
pub mod Types
pub mod Serde
pub mod Message
pub mod Error
pub mod Event
pub mod Tracker
pub mod Framing
pub mod State
pub mod Heartbeat
pub mod Channel
pub mod Router
pub mod Serve
pub mod Discovery
pub mod Client
pub mod Tests
