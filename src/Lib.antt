-- ===== src/Lib.antt =====
-- ForthDB: a fact database whose slots are stacks of definitions, in two implementations, the
-- instruction streams between them, the transactions that become such streams, and the worlds that
-- commits make, with their log file.
--
-- Kernel models rust/crates/forthdb-core/src/lib.rs, the database in terms of texts that
-- shared_wrapper.rs exports as `LegacyForthDb`:
--   Kernel/Value      atoms, terms, facts, patterns and values (`Atom`, `Term`, `Fact`, `Pattern`)
--   Kernel/Store      `DefinitionStore`: the log, the slot heads and the slot histories
--   Kernel/Index      `insert_index` and `remove_index`
--   Kernel/View       `CurrentView`: seven indexes of the definitions that are slot heads
--   Kernel/Binding    `Binding`, a sorted map from variables to values
--   Kernel/Unify      `unify_pattern` and what it calls
--   Kernel/Db         `ForthDb`: `define` and `forget` change the store and the view together
--   Kernel/Query      `query` and `walk_query`, a join that picks the pattern with the fewest
--                     candidates first
--   Kernel/Symbols    display names, symbols and the compilation of source terms
-- Kernel/Store/Stacks is the specification of a store, a stack of facts for a slot; the invariant of
-- the whole database is in Kernel/Db/Sound, its preservation in Kernel/Db/Steps, and sequences of
-- operations are in Kernel/Db/Runs. Kernel/Query/Spec is the specification of a query.
--
-- Kernel/Shared models shared_types_v5.rs, shared_view_v2.rs and shared_db_v2.rs beside that file, the
-- database that the worlds run: define and forget replace a record in the indexes where the other
-- database takes it out and puts the next in, and `validate` compares signatures. Its reads and
-- queries, which follow the steps of those in Kernel, are not modelled again.
--
-- StackVm models rust/crates/forthdb-world/src/stack_vm.rs, the same database in terms of numbers,
-- changed by programs that are accepted or rejected as a whole:
--   StackVm/Instruction  opcodes, instructions and programs
--   StackVm/Record       records, slot deltas, index deltas, roots and the record hash
--   StackVm/Arena        `PodArena`
--   StackVm/Exec         the errors, and a state monad in which a panic is a value
--   StackVm/Workspace    `Workspace`, its operand stack and its reads
--   StackVm/Execute      the trial of a program: checkpoint, instructions, acceptance or rollback
--   StackVm/Epoch        published roots and reads at a root
--   StackVm/Index        which index deltas a query pattern matches, and the search for its key
--   StackVm/Snapshot     a workspace loaded from a physical snapshot
--   StackVm/Depth        the stack discipline of a program, as a typing
-- StackVm/Log is the specification of the record log: a stack of facts for a slot, replayed. The
-- invariant of a workspace is in StackVm/Execute/Sound, and sequences of calls in
-- StackVm/Epoch/History.
--
-- SemanticIsa models rust/crates/forthdb-world/src/semantic_isa.rs, the bytes of an instruction
-- stream: SemanticIsa/Utf8 is the check of a string, SemanticIsa/Cursor the reads and writes of
-- numbers and strings, SemanticIsa/Stream the frame.
--
-- Lowering models rust/crates/forthdb-world/src/transaction_ast.rs, transactions written with names
-- and their lowering to a frame of SemanticIsa that StackVm runs:
--   Lowering/Syntax      transactions, operations and atoms
--   Lowering/Context     `StrRef`, `LoweringContext`, and a state monad with errors and panics
--   Lowering/Handles     the vectors of handles: sorting, `dedup_by` and the searches
--   Lowering/Lower       the two passes and the dictionaries
--   Lowering/Reference   `lower_to_sisa_reference` of the tests, over ordered sets and maps
-- Lowering/Plan is the lowering on names instead of handles, which both are shown to be;
-- Lowering/Faults says which transactions are refused, Lowering/Depth that lowered programs keep to
-- their operands and locals.
--
-- FileStore models rust/crates/forthdb-world/src/file_store.rs, the log file of commit frames:
--   World/Commit         `CommitFrame` and `Operation` of rust/crates/forthdb-world/src/lib.rs
--   FileStore/Payload    the bytes of a frame and their decoder
--   FileStore            records and `decode_file`; the file is its bytes
--   FileStore/Store      opening and appending; the answers of the system to a write are arguments
-- FileStore/Written and FileStore/Recovery describe the log of a sequence of frames.
--
-- World models rust/crates/forthdb-world/src/lib.rs, the versions of the database that commits make
-- one after another, on the database of Kernel/Shared:
--   World/Replay           the identity of a world, a hash, candidates, and the replay of frames
--   World/Database         the trait `CommitStore`, transactions, validators and `commit`
--   World/Database/Stores  the store in memory, the store on a file, and opening a file again
-- A world is its kernel and its frames. A commit holds a lock, so commits come one after another. Two
-- worlds with one identity are taken to be equal where a theorem says so, since an identity is a hash.
--
-- A `String` and a `Vec<u8>` are lists of bytes. A hash map is an association list with one entry for
-- a key, and a set of ids a strictly sorted list, since the source depends on no order of theirs. A
-- panic is the value `none` or `panic`. Fixed-width sums saturate where the source says so and
-- wrap elsewhere, as they do in a release build.
-- `definitions` walks on fuel, the length of the log: a record's previous head is older than it.
-- `walk_query` walks on fuel, the number of patterns: a call takes one out. A number is printed with
-- 20 digits at most, enough for 64 bits. `decode_file` loops on fuel, one more than the file's bytes:
-- every record has some.
--
-- Not modelled: the capacities that only reserve memory, the layouts of `repr(C)`, formatted
-- messages, the index queries of a root (`query_slots`, `compact_base`) and the layered snapshots,
-- the projections that a world builds on demand for queries, the other files, the journals,
-- queues, threads and locks of forthdb-world, the full validation, the shards and the freeing
-- thread of the shared database, and the programs around the crates.

pub mod Prelude
pub mod Kernel
pub mod StackVm
pub mod SemanticIsa
pub mod Lowering
pub mod World
pub mod FileStore
