-- ===== src/Lib.antt =====
-- The verification library of rtp_mux.
--
-- rtp_mux is a stream multiplexer over RTP. A session has two lanes, an interactive one and a bulk
-- one on the adjacent port. The server accepts each lane on its own, reads its hello and holds the
-- first lane of a pair until the second comes; the sessions of one client form a group, whose streams
-- move to the newest session. A client stream's write half sends through a background task that can
-- be rebound to another session while it runs.
--
-- The parts and their files, with what each models:
--   Prelude       Tests into Bool, lists, association lists, results and panics; no code.
--   Shared        src/shared.rs: addresses, lane classes, the constants, bulk_lane_addr.
--   Admission     src/admission.rs: PendingLaneRegistry. One function per method: try_admit,
--                 register_admitted, confirm_reservation, pair_wait_step, reinsert_ready_lane,
--                 cancel_reservation, next_expiry, expire, and drop_permit for the drop of a permit.
--                 Types has the data, Permits and Balance follow the permits, System interleaves
--                 the calls, Pairing and Expiry relate them, Waiting has the loop of wait_for_pair.
--   LaneAccept    src/server.rs: spawn_lane_accept from the hello to pair_lanes, cut at its awaits,
--                 over the registry of Admission, with the rejections of LaneRejection. Expiry has
--                 a round of run_pending_lane_expiry.
--   Bind          src/server.rs: bind_adjacent_pair.
--   LaneRejection src/lane_rejection.rs: the classes, their metrics, the log and its windows.
--   AcceptError   src/accept_error.rs: the backoff of a listener whose accepts fail.
--   Group         src/group.rs: SessionPairRegistry and PairMember: is_full, join, register_writer,
--                 the drop of a member. Members interleaves them. Drivers has GroupDriverScope:
--                 submissions, the drain of a driver, reaping, and the shutdown; its field
--                 reaped logs the drains that were joined.
--   WriteHalf     src/migrating_write_half.rs: the polls of writes, flushes and the shutdown.
--                 Background has the task that the half spawns, one function for a turn of its loop,
--                 and the rebind slot, a rebind being two steps; Stream joins both sides.
--   TupleStats    src/explorer/tuple_stats.rs: the statistics and the probes of a path.
--   Explorer      src/explorer/mod.rs and path_score.rs: PathExplorer, over the TupleStats of each
--                 path. Score has the costs and the verdicts, Selection what the standard library
--                 does for min_by, max_by and swap_remove.
--   CrossSession  src/connector/cross_session.rs: Session, SessionGuard and StreamRebind: open_stream,
--                 track_if_current, track, latest_generation, rebind_streams. System interleaves
--                 them, each call of track in its steps between the locks.
--   Connector     src/connector/mod.rs: run_connector, one function for each event of its loop:
--                 dial_ended, session_joined, router_joined and handle_command; over CrossSession
--                 for the streams and Explorer for the paths. Dialing has start_dial, install_session and
--                 prune_dead_addresses, Commands the commands and the calls of the client, Retry the
--                 attempts of a dial (src/connector/dial.rs), Waking the explorers' wake-ups with
--                 refill_candidates, System any sequence of events.
--   ClientStream  src/client_stream.rs: the reader state with the loop of poll_reader_state, and the
--                 polls of a client stream, over the half of WriteHalf. Calls has polls in a row,
--                 Origin the whole stream.
--   ByteCount     src/byte_count.rs: the byte counters of a session.
--   TaskScope     src/task_scope.rs: finish_with_first and abort_and_reap.
--   Json          src/tools/json.rs: the parser on bytes and both writers. Types has the values, Utf8
--                 and Numbers what the code uses of the standard library, Strings, Scan and Parser
--                 the parser, Writer the writers, Grammar a grammar with every spelling of strings and
--                 numbers, independent of both.
--
-- How the code is read. What a method does under one lock of a mutex is one step on the state that it guards. A call
-- that an unwrap or an expect can fail returns an Outcome. Rust's ownership of permits and members
-- is a list of those that are held, in the steps of Admission.System, Group.Members and
-- CrossSession.System; who holds an Arc of a session is a test that each event is given. Nonces,
-- group tokens, IP addresses, bytes, openers and writers are natural numbers. Instants and
-- durations are milliseconds, in TupleStats, Explorer and Connector nanoseconds; they are not
-- bounded. Counters that wrap or saturate do so in the model. Maps are association lists whose keys
-- are distinct. What the mux and rtp crates, tokio, the sockets and the random numbers answer is an
-- argument of each function: a poll's World, the peer's Hello, the Sockets, the wakes of a wait.
-- The f64 averages of TupleStats are the record Averages and the f64 arithmetic of Explorer the
-- record Floats, of which TotalOrder says what IEEE 754 says of total_cmp; for Json, f64's
-- Display and parse are the record Text, and TextLaws what Rust documents of them. Most loops are a
-- recursion on a list of what the loop receives; bind_adjacent_pair, a dial, a refill and the walk
-- over successors run on a number of rounds that the source bounds, the loop of poll_reader_state on
-- three rounds, which are all it takes, and the parser of Json on twice the length of its text and
-- one more, since each call or round takes a byte or makes one call, its loop over a string on the
-- length of what is left and one more. A text is the list of its bytes, a String that of its
-- characters.
--
-- Not modelled: one attempt of a dial, the session watchers and the final exit of the connector,
-- and the serve loop. ServerStream (src/stream.rs) passes its polls on. The sockets of the
-- candidates and the lane settings (src/lane_transport.rs) hand records to the rtp crate. The test
-- kit, the binaries and the measurement tools but their JSON codec do not serve traffic. The texts of
-- rejections and log lines are not modelled, except the messages that AcceptError keeps and the metric names.
pub mod Prelude
pub mod Shared
pub mod Admission
pub mod AcceptError
pub mod LaneRejection
pub mod Group
pub mod WriteHalf
pub mod Bind
pub mod TaskScope
pub mod ByteCount
pub mod TupleStats
pub mod LaneAccept
pub mod Explorer
pub mod CrossSession
pub mod Connector
pub mod ClientStream
pub mod Json
