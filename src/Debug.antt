-- ===== src/Debug.antt =====
-- src/debug/mod.rs: `Debugger`. It asks the machine for a step, its program counter and more, which
-- src/vm.rs does not offer: these are parameters. Clocks are arguments, and the counters of the
-- statistics stay far from 2 ^ 64.
pub mod Running
mod Tests
use mathlib.Core.List.{reverse}
use Prim.Native.Nat.{min}
use zkmips_zkvm_impl_in_rust.Base.{
  ℕ, zero, suc, ◌+◌, Bool, true, false, List, [], ◌∷◌, ◌++◌, Option, none, some, ltb, length,
  remove_at, if◌then◌else◌, Outcome, ok, err, panic, Exec, Attempt, done, blocked, nat_eq,
}
use zkmips_zkvm_impl_in_rust.Base.Map.{lookup, insert, remove}
use zkmips_zkvm_impl_in_rust.Base.Method.{Method, pure, lift, next, ◌>>=◌}
use zkmips_zkvm_impl_in_rust.Base.Word.{slice}
use zkmips_zkvm_impl_in_rust.Memory.Address.{MemoryAddress, MemoryError}
use zkmips_zkvm_impl_in_rust.Memory.Manager
use zkmips_zkvm_impl_in_rust.Memory.Manager.{MemoryManager}
use zkmips_zkvm_impl_in_rust.Vm.Value.{Value, VmError}

pub record Machine (V : Type 0) : Type 0 where
  pub step : Exec VmError V Unit
  pub pc : V → ℕ
  pub current_opcode : V → ℕ
  pub get_stack : V → List Value
  pub get_memory : V → List (MemoryAddress × List ℕ)
  pub get_gas_used : V → ℕ
  pub last_gas_cost : V → ℕ

pub record Breakpoint : Type 0 where
  pub address : ℕ
  pub condition : Option (List ℕ)
  pub hit_count : ℕ
  pub enabled : Bool

pub record StackFrame : Type 0 where
  pub function_name : List ℕ
  pub pc : ℕ
  pub locals : List (List ℕ × Value)
  pub stack : List Value
  pub memory : List (MemoryAddress × List ℕ)

pub record TraceEntry : Type 0 where
  pub timestamp : ℕ
  pub opcode : ℕ
  pub pc : ℕ
  pub stack_snapshot : List Value
  pub memory_snapshot : List (MemoryAddress × List ℕ)
  pub gas_used : ℕ

-- The average depth of the stack, a floating point number, is left out.
pub record OpcodeStats : Type 0 where
  pub count : ℕ
  pub total_gas : ℕ
  pub total_time : ℕ

pub record Debugger (V : Type 0) : Type 0 where
  pub vm : V
  pub memory : MemoryManager
  pub breakpoints : List (ℕ × Breakpoint)
  pub call_stack : List StackFrame
  pub execution_trace : List TraceEntry
  pub opcode_stats : List (ℕ × OpcodeStats)

unfoldable pub new : {V : Type 0} → V → MemoryManager → Debugger V
new vm memory = record {
  vm = vm;
  memory = memory;
  breakpoints = [];
  call_stack = [];
  execution_trace = [];
  opcode_stats = [];
}

-- `self.call_stack.last()`
abbrev pub last_locals : List StackFrame → List (List ℕ × Value)
last_locals [] = []
last_locals (frame ∷ []) = frame.locals
last_locals (frame ∷ next_frame ∷ frames) = last_locals (next_frame ∷ frames)

module _ {V : Type 0} where
  unfoldable pub add_breakpoint : ℕ → Option (List ℕ) → Debugger V → Debugger V
  add_breakpoint address condition d = record d {
    breakpoints =
        insert address
          (record { address = address; condition = condition; hit_count = 0; enabled = true })
          d.breakpoints;
  }

  unfoldable pub remove_breakpoint : ℕ → Debugger V → Debugger V
  remove_breakpoint address d = record d { breakpoints = remove address d.breakpoints }

  unfoldable pub get_stack_trace : Debugger V → List StackFrame
  get_stack_trace d = d.call_stack

  unfoldable pub get_local_variables : Debugger V → List (List ℕ × Value)
  get_local_variables d = last_locals d.call_stack

  -- A read goes through the cache of the manager, which it changes.
  unfoldable pub inspect_memory : Bool → MemoryAddress → ℕ → Exec MemoryError (Debugger V) (List ℕ)
  inspect_memory checks address size d = (
    (Manager.read checks address size d.memory).0,
    record d { memory = (Manager.read checks address size d.memory).1 },
  )

  unfoldable pub get_execution_trace : ℕ → ℕ → Debugger V → Outcome VmError (List TraceEntry)
  get_execution_trace start end d =
      let len = length d.execution_trace in slice d.execution_trace (min start len) (min end len)

abbrev pub condition_holds : Option (List ℕ) → Bool
condition_holds (some condition) = true
condition_holds none = true

-- `check_breakpoint_condition`, which does not look at the condition.
unfoldable pub check_breakpoint_condition : Breakpoint → Bool
check_breakpoint_condition breakpoint = condition_holds breakpoint.condition

abbrev pub trace_limit : ℕ
trace_limit = 10_000

module _ {V : Type 0} (machine : Machine V) where
  abbrev pub or_default : Option OpcodeStats → OpcodeStats
  or_default (some stats) = stats
  or_default none = record { count = 0; total_gas = 0; total_time = 0 }

  -- What is counted before the lock of the machine is asked for.
  abbrev pub counted : ℕ → ℕ → Debugger V → Debugger V
  counted opcode duration d =
      let stats = or_default (lookup opcode d.opcode_stats) in
      record d {
        opcode_stats =
            insert opcode
              (record stats { count = stats.count + 1; total_time = stats.total_time + duration })
              d.opcode_stats;
      }

  abbrev pub charged : ℕ → Debugger V → Debugger V
  charged opcode d =
      let stats = or_default (lookup opcode d.opcode_stats) in
      record d {
        opcode_stats =
            insert opcode
              (record stats { total_gas = stats.total_gas + machine.last_gas_cost d.vm })
              d.opcode_stats;
      }

  -- `held` says whether the caller holds the write lock of the machine.
  unfoldable pub update_profiling : Bool → ℕ → ℕ → Method VmError (Debugger V) Unit
  update_profiling true opcode duration d = blocked
  update_profiling false opcode duration d =
      done (ok tt, charged opcode (counted opcode duration d))

  abbrev pub entry : ℕ → V → TraceEntry
  entry now vm = record {
    timestamp = now;
    opcode = machine.current_opcode vm;
    pc = machine.pc vm;
    stack_snapshot = machine.get_stack vm;
    memory_snapshot = machine.get_memory vm;
    gas_used = machine.get_gas_used vm;
  }

  abbrev pub limited : List TraceEntry → List TraceEntry
  limited trace = if ltb trace_limit (length trace) then remove_at 0 trace else trace

  unfoldable pub record_trace : ℕ → Method VmError (Debugger V) Unit
  record_trace now d =
      done
        (ok tt, record d { execution_trace = limited (d.execution_trace ++ (entry now d.vm ∷ [])) })

  -- The machine steps under its write lock, which is held to the end.
  unfoldable pub step : ℕ → ℕ → Method VmError (Debugger V) Unit
  unfolding update_profiling record_trace
  step now elapsed d =
      (do
        _ ← update_profiling true (machine.current_opcode (machine.step d.vm).1) elapsed
        _ ← record_trace now
        lift (machine.step d.vm).0)
        (record d { vm = (machine.step d.vm).1 })

  abbrev pub hit : Breakpoint → Debugger V → Debugger V
  hit b d = record d {
    breakpoints = insert (machine.pc d.vm) (record b { hit_count = b.hit_count + 1 }) d.breakpoints;
  }

  abbrev pub stops : Option Breakpoint → Debugger V → Bool × Debugger V
  stops none d = (false, d)
  stops (some b) d =
      if b.enabled
      then (check_breakpoint_condition (record b { hit_count = b.hit_count + 1 }), hit b d)
      else (false, d)

  -- Whether the loop is left, and the debugger with the hit counted.
  unfoldable pub at_breakpoint : Debugger V → Bool × Debugger V
  unfolding check_breakpoint_condition
  at_breakpoint d = stops (lookup (machine.pc d.vm) d.breakpoints) d

  -- `self.step().await?`, and then the rest of the loop.
  abbrev pub again :
      (Debugger V → Option (Attempt (Outcome VmError Unit × Debugger V)))
      → Attempt (Outcome VmError Unit × Debugger V)
      → Option (Attempt (Outcome VmError Unit × Debugger V))
  again rest blocked = some blocked
  again rest (done (ok _, d)) = rest d
  again rest (done (err e, d)) = some (done (err e, d))
  again rest (done (panic, d)) = some (done (panic, d))

  -- The loop with `fuel` turns, or `none` where these were not enough.
  unfoldable pub continue_execution :
      ℕ → ℕ → ℕ → Debugger V → Option (Attempt (Outcome VmError Unit × Debugger V))
  unfolding at_breakpoint step
  continue_execution zero now elapsed d = none
  continue_execution (suc fuel) now elapsed d =
      let rest : Debugger V → Option (Attempt (Outcome VmError Unit × Debugger V)) =
        continue_execution fuel now elapsed in
      if (at_breakpoint d).0
      then some (done (ok tt, (at_breakpoint d).1))
      else again rest (step now elapsed (at_breakpoint d).1)
