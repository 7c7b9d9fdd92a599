-- ===== src/Debug/Tests.antt =====
-- The theorems on the debugger at work, with a machine that is its program counter.
use zkmips_zkvm_impl_in_rust.Base.{
  ℕ, ◌≤◌, length, ◌+◌, ◌≡◌, refl, true, [], ◌∷◌, some, ok, arith, nat_eq,
}
use zkmips_zkvm_impl_in_rust.Base.Map.{lookup}
use zkmips_zkvm_impl_in_rust.Memory.Manager
use zkmips_zkvm_impl_in_rust.Debug.{Machine, Breakpoint, TraceEntry, Debugger, entry, record_trace}
use zkmips_zkvm_impl_in_rust.Debug.Running.{
  Hit, continue_times, Snapshot, Appended, continue_execution_lem, record_trace_lem,
}

abbrev counter : Machine ℕ
counter = record {
  step = λ pc. (ok tt, pc + 1);
  pc = λ pc. pc;
  current_opcode = λ pc. 1;
  get_stack = λ pc. [];
  get_memory = λ pc. [];
  get_gas_used = λ pc. 0;
  last_gas_cost = λ pc. 3;
}

abbrev at_two : Breakpoint
at_two = record { address = 2; condition = some []; hit_count = 0; enabled = true }

abbrev debugged : Debugger ℕ
debugged = record {
  vm = 2;
  memory = Manager.new (record { page_size = 4096; gc_threshold = 1_048_576; cache_size = 1000 });
  breakpoints = (2, at_two) ∷ [];
  call_stack = [];
  execution_trace = [];
  opcode_stats = [];
}

-- Execution is continued three times.
continue_execution_lem_example :
    Hit counter 3 at_two debugged (continue_times counter 5 0 1 3 debugged)
unfolding lookup
continue_execution_lem_example = continue_execution_lem counter 4 0 1 3 debugged at_two refl refl

abbrev traced : Debugger ℕ
traced = record debugged { execution_trace = entry counter 6 2 ∷ [] }

record_trace_lem_example :
    (e : TraceEntry) × Snapshot counter 6 2 e
    × Appended debugged.execution_trace e traced.execution_trace
    × (length traced.execution_trace ≤ 10_000)
    × (traced ≡ record debugged { execution_trace = traced.execution_trace })
unfolding record_trace
record_trace_lem_example = record_trace_lem counter 6 debugged traced (omega arith) refl
