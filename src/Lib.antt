-- ===== src/Lib.antt =====
-- netperf, a network performance test in Rust for WebAssembly: its statistics and reports, the
-- protocol and workers of its p2 build, and the tests of its p3 build.
--
-- A client and a server talk over a control socket in JSON frames. The server drives the state of a
-- test: it asks the client to connect data streams, starts the load once all are there, and ends
-- the test when each stream has ended; then both sides exchange their results. Every stream has a
-- worker, which moves data until its time is up and reports what it moved.
--
-- crates/netperf-core/src/stats.rs: Core.Stats holds the result types, Core.Sort the sort of the
-- samples, Core.Dist `Dist::from_samples`. `usize` has 32 bits, as on wasm32-wasip2, and arithmetic
-- wraps as in a release build. crates/netperf-core/src/ui.rs: Core.Ui and Core.LatencyUi have what
-- its reports say, line by line; Core.Ui.Sums, Core.Ui.Agreement and Core.LatencyUi.Lines are about
-- the two summaries.
-- crates/netperf-p2/src/common: P2.Data is data.rs with consts.rs and the options of a client;
-- P2.Control the messages of control.rs, P2.Result its error extraction and the results of fallible
-- code; P2.NetUtils the frames of net_utils.rs; P2.PerfTest the state of a test, perf_test.rs;
-- P2.StreamWorker the loop of stream_worker.rs, and P2.StreamWorker.Run what is around that loop.
-- crates/netperf-p2/src/controller.rs: P2.Controller has the record and the registration of streams,
-- P2.Controller.Run the handlers of messages and states, P2.Controller.Loop `run_controller`.
-- P2.Controller.Protocol is what a server's controller may do, as a relation of steps over the state
-- and the number of streams; P2.Controller.Run.Stages and Rounds take the handlers to steps, and
-- P2.Controller.Refines the loop. Gathering, Completes, Whole, Waiting and Registry are about a test
-- on a server, Dialing, Joining, Finishes and WholeClient on a client, Workers, Closing and Fuel on
-- both sides; Validity, Run.Validity and Loop.Validity about what every call keeps.
-- P2.Controller.Report is `print_results`.
-- crates/netperf-p2/src/server.rs: P2.Server has the accept loop, over the connections that it meets
-- and what the controller does between them, and the creation of a test.
-- crates/netperf-p2/src/client.rs: P2.Client has the negotiation that leads to a client's test.
-- P2.Session joins these to the controller: the client as a whole, and what a server does with the
-- first connection of a test. P2.Session.Script says what is sent and which connections and notices
-- are met in a whole test; Sides is about each side of it, Ends, Results and Sums about both, Hosts
-- starts at the accept loop. crates/netperf-p2/src/lib.rs: P2.Program is `run`, from the options of
-- crates/netperf-p2/src/common/opts.rs on, and P2.Program.Hosting is about both sides from there.
-- crates/netperf-p3/src/lib.rs: P3.Roles has the directions and roles, P3.Frames the frames,
-- P3.Transfer the data loops and both sides of a data connection, P3.Session a whole test on either
-- side, P3.Run the program from its options on, over the sockets of the host. What the writes and
-- reads of a connection meet is an argument: the bytes that each write gives back with the times of
-- the clock, and the portion of each read. `none` or `pending` is a wait that they do not end. The
-- futures that carry a stream to its socket end when the stream is closed. A client's side gives
-- back what its stream has carried as well as its statistics, and what a server reads is matched
-- with that.
--
-- Calls return a result and the new state, with `err` for an error, `panic` for a panic, and
-- `diverged` for a wait that nothing ends in the model's inputs. What other crates do is a
-- parameter with its documented behaviour as laws: sockets (P2.Transport.Transport, with Reads,
-- Writes and Duplex), serde_json (P2.Transport.Json), channels, tasks and connections (P2.Runtime).
-- Tests.Network and Tests.Texts instantiate all of them.
--
-- Fuel: `read_loop` gets the announced length, and each of its rounds reads a byte at least;
-- `create_loop` gets the number of streams to make, and each of its rounds registers one, or none
-- does because the next number is taken; `run` takes its fuel as an argument, and its schedule says
-- what each wait is answered with. Two rounds for each entry of the schedule and two more are
-- enough, since a round waits, ends the loop, or leaves TestStart; the text of a port gets the five
-- digits that a `u16` has at most. A worker's events and reads are lists in the order of their
-- calls.
--
-- A HashMap is a list of its entries, and a mutex that is held for one access at a time a plain
-- field. A float that is printed is the number and the unit that it is made of, and the one test of
-- a float is a parameter. Logging, the layout and colours of a line, the command line, the set-up of
-- sockets, the exhaustion of memory, `yield_now` of the p3 build, which leaves a turn to other
-- tasks, and the host program of that build, which only sets up a runtime and calls the component,
-- are not modelled. What comes of the task of a worker is fixed where it is started (Runtime.spawn)
-- and is not tied to the messages that it is sent, and a worker of its own is P2.StreamWorker.Run.
pub mod Prelude
pub mod Core
pub mod P2
pub mod P3
pub mod Tests
