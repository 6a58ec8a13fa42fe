-- ===== src/Lib.antt =====
-- The v-kernelx kernel (src/ of the repository): vectors of `u128` components that are certified,
-- moved, drained, put in escrow and settled, with a ledger of hashed events beside them.
--
-- The parts. `KernelEngine` (src/engine.rs) holds a store (src/storage.rs) and a consensus policy
-- (src/consensus.rs). Each of its methods reads a vector, computes the new one by a pure function of
-- its own file (src/transfer.rs, src/drain.rs, src/projection.rs, src/reconstruction.rs,
-- src/origin.rs, src/certification.rs), validates it (src/validation.rs), stores it, keeps a record
-- of the change if the policy accepts it (src/record.rs), and appends an event (src/event.rs) whose
-- hashes (src/hash.rs) are taken over canonical bytes (src/serialization.rs). A region (src/region.rs)
-- is created by an event of its own and read back from it. The events form a graph by their parents
-- (src/dag.rs), which is validated before the history is replayed (src/replay.rs); a snapshot
-- (src/snapshot.rs) keeps what a replay led to. Scripts (src/interpreter.rs) call the engine line by
-- line. Around the engine stand the C functions (src/ffi.rs), which keep it behind a mutex beside the
-- last error and the ids of the requests seen, and the Python class (src/python_api.rs).
--
-- The files.
--   State              src/state.rs: the records, constructors and checks of `VectorStateV1`
--   State.Bytes        src/state.rs: the canonical bytes and the state root, with the proofs about
--                      them below it
--   Error              src/error.rs, and the result type
--   Components         the component lists that several files share, and sums over them
--   Certification, Transfer, Drain, Projection, Reconstruction, Origin, Consensus, Snapshot, Hash,
--   Signature, Validation, Record, Event, Serialization, Storage, Query, Wallet
--                      the Rust file of the same name; Record also has `transfer_record`
--   Float              the tests on an `f64` that validation makes
--   Region             src/region.rs: Region.Types has the data, Region.Request the checks of a
--                      request, Region.Genesis the event of a new region, Region.Core the core,
--                      Region.Reading what is read off events, and the other children the proofs
--   Dag                src/dag.rs; Dag.Kahn is the loop of Kahn's algorithm, which the source has
--                      three times, Dag.Conflicts the report of conflicts, and the other children
--                      the proofs
--   Replay             src/replay.rs; Replay.Entity is the order of one entity's events, and the
--                      other children the proofs
--   Interpreter        src/interpreter.rs; Interpreter.Params reads the parameters of an
--                      instruction, Interpreter.Refinement relates scripts to sessions of calls
--   Sdk, Developer     src/sdk.rs and src/developer.rs: the wrapper of the engine, and a simulation
--   Ffi                src/ffi.rs: Ffi.Handle has the handle, its mutex and the texts, Ffi.Attempt
--                      functions that return a `Result`, Ffi.Requests the requests and their checks,
--                      Ffi.Json the JSON values, Ffi.Events the reports and summaries, Ffi.Execution
--                      what is executed, Ffi.Entries, Ffi.Reading and Ffi.Lookups the exported
--                      functions, Ffi.Calls the sessions of calls, Ffi.Commands which methods of the
--                      engine a call stands for, and the other children the proofs
--   Python             src/python_api.rs and the functions of src/lib.rs: Python.Objects converts
--                      Python objects, Python.Requests reads the request of a region, Python.Kernel
--                      is the class, and Python.Refinement relates scripts to sessions of calls
--   External           what the kernel calls and does not implement
--   Engine             src/engine.rs: the helpers; Engine.Monad is the form of a method,
--                      Engine.Operations the methods that change vectors, Engine.Queries those that
--                      read and `create_region`, Engine.Metrics `metrics`, Engine.Induction the
--                      sessions of calls, and the other children the proofs
--   Base               numbers, texts, maps, sorting and lists
--   Tests              each result at a concrete input
--
-- The correspondence. A Rust `u64`, `u128`, `u16` or `u32` is a natural number, with `saturating_`
-- operations at the bound of `u128` and `+` modulo the width, which is the release profile: overflow
-- wraps and `debug_assert_eq!` is not there. A `String` is the list of its UTF-8 bytes, a
-- `BTreeMap<String, V>` the list of its entries in the order of the keys, an `f64` its bit pattern,
-- and `sort_by` a stable insertion sort. A method is a function from the engine to a result and an
-- engine: what was written before an error stays written. `json!` panics on a `u128` that it cannot
-- hold, so a panic is a result too. The generic store is `MemoryStore`, whose reads cannot fail.
-- The clock is an argument: `now i` is what the i-th call of `now_ms` in the method returns. Loops are
-- structural recursion over the lists that the Rust loops run through, and the nonce search recurses
-- on its number of attempts. Only the loop of Kahn's algorithm takes fuel, as many turns as there
-- are events, and it is proved that it ends within them on all events.
--
-- A call of a C function returns, panics, or waits for a lock for ever. Calls come from one thread, so
-- a lock that is taken is held by the call itself; by the documentation of `Mutex::lock` it is then
-- not given. The guard of a lock lives to the end of the function that holds it, and the guard inside
-- the error of a poisoned lock to the end of its `match`. A null pointer is `none`. A Python object is
-- a tree, by the first conversion that takes it.
--
-- Parameters. BLAKE3, the keys, signatures and checks of Ed25519, the printing, parsing and number
-- conversion of `serde_json`, hex printing, the upper case of Unicode, and the bits of an `f64`
-- quotient are fields of `External`. Of them it is assumed, where a region is read back and where a
-- snapshot is verified, that a digest is not blank: a collision of BLAKE3 is a case of the conclusion
-- where one matters. The texts that serde_json writes and reads for the C functions and the Python
-- class are the fields of `Serde` (Ffi.Requests) and `PythonSerde` (Python.Kernel), and the encoder
-- and decoder of a snapshot are arguments; nothing is assumed of them.
--
-- Not modelled: `kernel_string_free`, which frees memory, the threads behind a handle, the arguments
-- of a Python call as pyo3 extracts them, and the clients in other languages.
pub mod Base
pub mod Error
pub mod State
pub mod Components
pub mod Certification
pub mod Transfer
pub mod Drain
pub mod Projection
pub mod Reconstruction
pub mod Event
pub mod Serialization
pub mod External
pub mod Ffi
pub mod Float
pub mod Query
pub mod Record
pub mod Consensus
pub mod Snapshot
pub mod Storage
pub mod Signature
pub mod Hash
pub mod Origin
pub mod Region
pub mod Wallet
pub mod Validation
pub mod Dag
pub mod Replay
pub mod Engine
pub mod Interpreter
pub mod Sdk
pub mod Python
pub mod Developer
mod Tests
