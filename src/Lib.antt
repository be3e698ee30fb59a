-- ===== src/Lib.antt =====
-- A model of STREAM-FDL, which watches the nodes and topics of a running robot system, detects
-- faults in their attributes and builds the subgraph that a fault spreads through.
--
-- The parts and their files (paths from the root of the repository):
--   * CircularBuffer: the buffer of recent values of src/fault-detection/circular-buffer.{hpp,cpp}.
--     The iterator is an offset; `push`, `offset_from` (`current(offset)`), `full`, `empty`;
--     CircularBuffer.Statistics has `getMean` and `getStdDev`.
--   * AtomicCounter: src/dynamic-subgraph/atomic-counter.{hpp,cpp}; a `size_t` that wraps around.
--   * DoubleLinkedList: src/dynamic-subgraph/double-linked-list.{hpp,cpp}. The elements lie in a heap,
--     a map from addresses; `new` returns an address that is an argument; freed addresses are empty,
--     and their use is the fault `dangling`.
--   * StdMap: what the sources use of `std::map` with its comparator.
--   * MemberPtr, Members: handles with use counters, nodes and topics with their updates and
--     attributes (src/dynamic-subgraph/member-base.{hpp,cpp}, members.{hpp,cpp}).
--   * DataStore, GraphView: src/dynamic-subgraph/data-store.{hpp,cpp}. DataStore has the lookups and
--     requests, DataStore.Messages the messages of a round of `run`, DataStore.Collect the collection
--     of unused members, DataStore.Retry `tryMakeIpcClient`, DataStore.Start the constructor,
--     DataStore.Found and DataStore.Requested the two cases of a lookup;
--     DataStore.Live and DataStore.Held have what is known of the elements behind handles;
--     DataStore.Casts has `asNode` and `asTopic` of src/dynamic-subgraph/members.cpp,
--     DataStore.Typed what holds of every member. DataStore.Kept is the interface of what the
--     operations on the store keep, and the modules Kept of the other parts carry it through every
--     operation. GraphView has the pending updates, GraphView.Full the view of the full graph.
--   * Graph: the subgraph of src/dynamic-subgraph/graph.{hpp,cpp}, whose vertices are handles that
--     count; Graph.Counting is about their counters, Graph.Drawing is a round of `visualise`.
--   * Blindspots, DynamicSubgraph: the search for blind spots and the main loop of
--     src/dynamic-subgraph/dynamic-subgraph.{hpp,cpp}; DynamicSubgraph.Turn is about a whole round.
--   * Watchlist: src/fault-detection/watchlist.{hpp,cpp}.
--   * FaultDetection: src/fault-detection/fault-detection.{hpp,cpp}; FaultDetection.Round is a round
--     of `run`, FaultDetection.Ready is about rounds that return.
--   * PluginManager: src/fault-detection/plugin-manager.{hpp,cpp}, with the dynamic loader as a
--     parameter.
--   * Program: src/main.cpp with its exit codes, and the rounds of the threads as turns in any order;
--     Program.Detecting and Program.Steady are about turns that return; DynamicSubgraph.Start has
--     the constructors that `main` calls.
--   * Pacing: what the loops wait for at the end of a round; Locks: `ScopeLock` of src/common.hpp;
--     Members.Printing: the operators `<<` of member-base.cpp, atomic-counter.cpp and common.hpp.
--   * MsgQueueMonitor: src/msg-queue-monitor.cpp, with `msgrcv` as a parameter.
--   * Prelude: shared types, tests and lemmas, and what holds of the result of code where it returns
--     (Prelude.After); Examples: the theorems at concrete inputs.
--
-- The main loop (DynamicSubgraph) asks the data store for updates and for the full graph, takes the
-- alerts of the fault detection, and puts members on the watchlist; the fault detection reads the
-- members on the watchlist and their attributes. Members live in the lists of the data store, and
-- the other parts hold handles to them, so the store is passed through every operation that copies
-- or destroys a handle of its own: also the vertices of the graph, and the alerts that the main loop
-- has got, which go at the end of its round.
-- Each loop is modelled round by round; a call that holds a lock is one step.
--
-- Failed assertions, exceptions and undefined behaviour are values of `Fault`. Searches through the
-- linked list and the attempts to connect run on fuel; the theorems on them say which fuel is enough
-- (more rounds than elements), and the search for blind spots has one round for each vertex.
-- Doubles are a record of operations without laws (Prelude.Double); the inter-process channel is the
-- record `Channel`; the clock, the shared memory and the reply of the database are arguments.
--
-- Not modelled: the execution of plugins, which has no body; the pictures of the graph, the JSON parser
-- and the logging macros, which are input and output; the signal handler; the destructors at the end of
-- the program; interleavings within a round of a thread, but for the alerts.
mod Prelude
pub mod CircularBuffer
pub mod AtomicCounter
pub mod DoubleLinkedList
pub mod StdMap
pub mod Members
pub mod MemberPtr
pub mod Graph
pub mod GraphView
pub mod Blindspots
pub mod DataStore
pub mod Watchlist
pub mod FaultDetection
pub mod DynamicSubgraph
pub mod PluginManager
pub mod Pacing
pub mod Program
pub mod Locks
pub mod MsgQueueMonitor
pub mod Examples
