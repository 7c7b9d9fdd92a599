-- ===== src/Lib.antt =====
-- A model of the virtual machine, its circuit, the memory manager, the state manager and the network
-- node of this repository, with the theorems on what they do.
--
-- The parts and how they meet. `VM::execute` (src/vm.rs) runs a program of bytes on a stack machine
-- with a gas meter. `MemoryManager` (src/memory) keeps pages, permissions, segments, a garbage
-- collector and a cache of reads; the machine does not use it. `ZKVM` (src/lib.rs) runs the
-- machine and makes proofs by `ProofSystem` (src/proof.rs). `ConsensusEngine`, `PeerManager` and
-- `StateSync` (src/network) are the state machines of a node; `NetworkManager` passes messages and
-- peers on to the first and the last of them. `VMCircuit` (src/circuit.rs) is what `ZKVM` proves.
-- `StateManager` (src/state) keeps accounts in a trie, with a cache; the others do not use it.
-- `Debugger` (src/debug) steps a machine.
--
-- Where what is:
--   Base     shared helpers: tests and equality, lists, maps, machine words, the outcomes of calls.
--   Vm       src/vm.rs: values (Vm/Value), the gas schedule (Vm/Gas), the context (Vm/Context), one
--            function per arm of the match (Vm/Step), the loop and the getters (Vm/Run). Vm/Expr has
--            the independent evaluator of arithmetic programs, Vm/Typing a type system for programs.
--   Memory   src/memory: Permissions, PageTable, Segment, Gc, Cache (`LRUCache`) and Manager
--            (`MemoryManager`), each with its theorems below it.
--   Network  src/network: Message, Consensus, Peer, Peers (`PeerManager`), Sync, Manager
--            (`NetworkManager`); Sets is `HashSet`.
--   Proof    src/proof.rs: making and verifying proofs with the cache.
--   Zkvm     src/lib.rs: the wrapper of the machine, its circuit and its record.
--   Circuit  src/circuit.rs: the circuit and its states, the arms of the loop (Circuit/Steps) and
--            `synthesize` (Circuit/Synthesis); Circuit/System has the constraint system.
--   State    src/state: `MerklePatriciaTrie` (State/Trie) and `StateManager`, its reads, updates
--            and proofs (State/Reads, State/Updates, State/Proofs).
--   Crypto   src/crypto: keys and signatures, and the symmetric cipher. Messages and transactions are
--            signed in Network/Signing.
--   Debug    src/debug: breakpoints, profiling and the trace.
--   Tests    in each of them: runs at concrete inputs.
--
-- Conventions. A method of an object is a function from its state to an outcome and the next state;
-- an outcome is a value, an error or a panic, and what was written before an error or a panic stays
-- written. An integer of the machine is its bit pattern and keeps its wrap-around; `checks` says
-- whether the build checks for overflow, and both builds are covered. A hash map is an association
-- list, in the order in which it is walked; a string is its bytes. Clocks are arguments.
--
-- Fuel. `run` (the loop of `VM::execute`) takes one turn more than the program has bytes, and
-- every turn moves the program counter on; `sweep` takes one turn for each segment and one more.
-- `extend_memory` (the loop of STORE) takes one turn more than the number of the step. None runs
-- out. `continue_execution` (the debugger's loop) comes to an end or to a lock in one turn. All else is
-- structural recursion.
--
-- Parameters: Blake2b, Blake2s, Blake3 and Keccak, bincode, bellman with its fields, k256, aes_gcm, the
-- cache of the lru crate, the database of patricia_trie (its
-- `TrieDBMut::new`, given no root, starts from the empty trie), the modules of src/state that the repository
-- does not have (storage, snapshots, circuit), and what the debugger asks of a machine that src/vm.rs
-- does not offer. Locks are left out but for three that are taken while they are held: in `allocate`
-- (Memory/Manager), in `update_state` (State/Updates) and in `step` (Debug). Not modelled are the end
-- of src/state/mod.rs, which breaks off, and the swarm and the event loop of `NetworkManager`.
pub mod Base
pub mod Vm
pub mod Memory
pub mod Network
pub mod Proof
pub mod Zkvm
pub mod Circuit
pub mod Crypto
pub mod Debug
pub mod State
