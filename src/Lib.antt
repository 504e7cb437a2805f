-- ===== src/Lib.antt =====
-- The Maybenot simulator (crates/maybenot-simulator), which simulates a client and a server that
-- each run an instance of the Maybenot framework (crates/maybenot) over a network with a delay and a
-- bottleneck.
--
-- The simulator keeps one `SimQueue`, which holds an `EventQueue` of four binary heaps for each
-- side; a `SimState` for each side, with the machines' scheduled actions and internal timers and the
-- blocking of outgoing traffic; and one `NetworkBottleneck`. The main loop picks the next event,
-- lets the network react to it, hands it to the framework of its side, schedules the actions that
-- the framework returns, and records the event in the trace.
--
-- Files and the code they are about, under crates/maybenot-simulator/src/ where no crate is named:
--   Event: crates/maybenot/src/event.rs, and `Timer` and `TriggerAction` of
--     crates/maybenot/src/action.rs
--   SimEvent: `SimEvent`, its order and `event_to_usize`, lib.rs
--   BinaryHeap: the standard library's binary heap
--   EventQueue: queue_event.rs; EventQueue/Kinds, EventQueue/Every: what each heap holds;
--     EventQueue/Peek: what `peek` and `pop` give; EventQueue/NormalPackets: `no_normal_packets`
--   SimQueue: queue.rs; SimQueue/Sides: each event stands on its own side; SimQueue/Covered: no event
--     lies before the delay that is subtracted from it; SimQueue/Blocked: the packets that blocking
--     holds back
--   SimState: `SimState` and `ScheduledAction`, lib.rs; `Integration`, integration.rs;
--     SimState/Samples: integrations whose delays can be sampled
--   Integration: `BinDist` and its `sample`, integration.rs; Integration/Sampled: the bin it takes;
--     Integration/Drawn: when it returns; Integration/New: `BinDist::new`; Integration/New/Sorted
--   QueuePeek: queue_peek.rs; its child modules: the bounds of the peeks, what is due, and the heap
--     that `peek_queue` names
--   Delay: delay.rs; Delay/Bounds
--   Network: `NetworkBottleneck` and `WindowCount`, network.rs; Network/Window, Network/Aggregate
--   NetworkStack: `sim_network_stack`, network.rs; NetworkStack/Fits: it returns;
--     NetworkStack/Bounds: how late its events are
--   Timers: `do_internal_timer` and `do_scheduled_action`, lib.rs
--   TriggerUpdate: `trigger_update`, lib.rs
--   PickNext: `pick_next`, lib.rs; PickNext/Work and PickNext/Termination: its recursion ends;
--     PickNext/Time: its time; PickNext/Peeked, PickNext/Ready and PickNext/Total: it returns;
--     PickNext/Places and PickNext/Keeps: what it keeps of the world
--   Simulator: `SimulatorArgs` and the loop of `sim_advanced`, lib.rs; Simulator/Trace;
--     Simulator/Sides: `SimState::new` with the framework of crates/maybenot; Simulator/Start: `sim`,
--     `SimulatorArgs::new`, `RngSource` and the beginning of `sim_advanced`; Simulator/Returns and
--     Simulator/Ends: the loop from a world that is ready; Simulator/Simulated: from text to trace
--   Platform: what crates/maybenot takes from `f64`, `f32` and the crates rand and rand_distr
--   Verdict: crates/maybenot/src/error.rs, and the results of validation
--   Dist: crates/maybenot/src/dist.rs; Dist/Sampling
--   Action: `Action`, crates/maybenot/src/action.rs, and crates/maybenot/src/counter.rs
--   State: crates/maybenot/src/state.rs and constants.rs; State/RoundTrip
--   Machine: `Machine` and its `validate`, crates/maybenot/src/machine.rs; Machine/Sound, Machine/Nan
--   Framework: the state of `Framework` and the limits of actions, crates/maybenot/src/framework.rs,
--     and the two operations of time.rs on durations that have a body; Framework/Transition:
--     `transition`, `update_counter`, `schedule_action`, `decrement_limit`; Framework/Events:
--     `process_event` and `trigger_events`; Framework/New: `Framework::new`; the other child modules:
--     valid states, the steps, that they end and return, and the counts
--   Machine/Serial: `new`, `serialize`, `name` and `from_str` of crates/maybenot/src/machine.rs;
--     Machine/Stored: machines that are written and read
--   Parsing: crates/maybenot/src/parsing.rs, the first version of the format; Parsing/Bounds
--   ParseTrace: `parse_trace` and `parse_trace_advanced`, lib.rs; ParseTrace/Loaded and
--     ParseTrace/Invariant: the queue that they return; SimQueue/Sound
--   Ffi: crates/maybenot-ffi/src/lib.rs and error.rs; Ffi/Calls: ffi.rs and `on_events`; Ffi/Started
--     and Ffi/Answers: the two calls that a user makes
--   Text: lines, splits, trims and numbers of the standard library; Text/Numbers
--   Attempt: the results of code that returns a `Result` and may panic
--   TriggerUpdate/Running: `trigger_update` with that framework behind the interface `Env`;
--     TriggerUpdate/Covered: the events that it pushes
--   Base, Outcome: shared names and lemmas, and the results of calls that may panic
--   Tests and its child modules: the theorems on concrete worlds, machines, texts and formats
--
-- What a function changes through `&mut` it takes and returns. A panic is a value of `Outcome`: an
-- `unwrap` of `None`, an index out of bounds, a failed assert, an `Instant` that would lie before
-- the earliest one, a slice of a text off the boundary of a character. An `Instant` is the number of
-- nanoseconds since the earliest instant and a `Duration` a number of nanoseconds, both natural
-- numbers without a bound: the panics of sums and products of times that are too large for their
-- types are not modelled, and no theorem is about them. `Instant - Instant` stops
-- at zero, as it does in the standard library, and at `Duration::MAX`. A `usize` has 64 bits.
-- A binary heap is the list of its elements, the greatest first; of elements that compare equal,
-- which the standard library returns in no order that it states, the one that was pushed first stands
-- first. The debug notes and the log are left out.
--
-- The machines of a framework never change; `Framework` holds them beside the state that does, `Core`.
-- `u64` additions wrap, as in a release build. The texts of errors are reasons without the values
-- that they print. A map from events of the crate enum_map is a function, and its `from_usize` a
-- parameter. The type `Platform` holds the operations on floating point numbers, the random numbers
-- and the distributions of rand_distr; `Laws` states what is relied on of them: `low` is less than
-- `high` when they are neither equal nor `high` less than `low`, of numbers that are no NaN, and
-- `gen_range` returns on a range that is finite and not empty.
--
-- `BinDist::sample` is a definition of its own, over the numbers that `Numbers` holds; to the simulator
-- it is a parameter, which may panic: theorems that exclude this ask that the delays can be sampled
-- (`CanIntegrate` of SimState/Samples), and Integration/Drawn says when `BinDist::sample` returns.
-- `Env` is the interface to what the simulator only calls: `Framework::trigger_events` on a
-- framework's state and the samples of the integration's delay distributions. Its functions are
-- parameters of every definition that calls them, so the theorems hold of every framework.
--
-- `pick_next` calls itself until it has an event; in the model it takes fuel. `pending_work` counts
-- the pending aggregate delays, the set timers and actions and the active blockings, and one more
-- than that is enough. The main loop takes fuel of the caller's choice, since the code need not end
-- when neither the trace nor the iterations are limited. As much fuel as the limit of iterations is
-- enough.
--
-- The record `Formats` holds what crates/maybenot calls of base64, zlib, bincode and sha256 for its
-- machines, `Readers` what the parser of the first format calls of hex, zlib and byteorder, with the
-- cast to `f32`; `Decodes`, `ReadsArrays` and `ReadsEnough` state what is relied on. One `read` of the
-- zlib decoder gives the beginning of a text, and not always all of it, which `from_str` takes for
-- granted. A text is a list of bytes, and that of a trace a list of code points. The start of a trace,
-- `Instant::now()`, is a parameter, and so are the times in the foreign function interface.
--
-- A pointer of the foreign function interface is `none` when it is null, and else what it points to;
-- memory that may be uninitialized is a slot that is `none` until it is written. What the caller of an
-- unsafe function promises, such as the size of a buffer, is a panic of its own where it is broken.
--
-- `transition` and `update_counter` call each other. `transition` takes fuel, and `trigger_events`
-- gives it three: a counter that is zeroed raises one of two flags, which stay until the next call of
-- `trigger_events`, and only a flag that is raised leads to a further call.
--
-- `simulate` is the whole of `sim_advanced`: it makes the two sides and the network, and `sim_advanced`
-- of Simulator is the loop from there on. `RngSource` selects the thread's generator or a seeded one;
-- both are parameters, and so is the handle that `thread_rng()` gives.
--
-- The map of numbers that the JSON of a distribution is read as is the list of its entries in the
-- order in which it is iterated, from the parameter `Json`.
--
-- Not modelled: `maybenot_version`; `Display` and `Debug`.
pub mod Attempt
pub mod Integration
pub mod Text
pub mod Base
pub mod BinaryHeap
pub mod Event
pub mod SimEvent
pub mod Outcome
pub mod EventQueue
pub mod SimQueue
pub mod SimState
pub mod QueuePeek
pub mod Delay
pub mod Network
pub mod NetworkStack
pub mod Timers
pub mod TriggerUpdate
pub mod PickNext
pub mod Simulator
pub mod Platform
pub mod Verdict
pub mod Dist
pub mod Action
pub mod State
pub mod Machine
pub mod Ffi
pub mod Parsing
pub mod ParseTrace
pub mod Framework
pub mod Tests
