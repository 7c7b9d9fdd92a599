-- ===== src/Debug/Running.antt =====
-- src/debug/mod.rs: stepping, running to a breakpoint, and the trace.
use zkmips_zkvm_impl_in_rust.Base.{
  zero, ℕ, suc, ◌+◌, ◌≤◌, ◌<◌, ◌≡◌, ◌⊎◌, inl, inr, refl, ap, ◌∙◌, subst, true, false, List, [], ◌∷◌,
  ◌++◌, Option, none, some, length, length-append, remove_at, Bool-cases, ltb, ◌==◌, Outcome, ok,
  done, blocked, Attempt, arith, nat_eq,
}
use zkmips_zkvm_impl_in_rust.Base.Map.{lookup, lookup-insert, lookup-insert_self}
use zkmips_zkvm_impl_in_rust.Vm.Value.{VmError}
use zkmips_zkvm_impl_in_rust.Debug.{
  Machine, Breakpoint, TraceEntry, Debugger, update_profiling, record_trace, step, at_breakpoint,
  continue_execution, hit, stops, condition_holds, entry, limited, trace_limit,
  check_breakpoint_condition,
}

module _ {V : Type 0} (machine : Machine V) where
  -- `step` waits for a lock that it holds.
  pub step-blocked : (now elapsed : ℕ) (d : Debugger V) → step machine now elapsed d ≡ blocked
  unfolding step update_profiling
  step-blocked now elapsed d = refl

  condition_holds_lem : (c : Option (List ℕ)) → condition_holds c ≡ true
  condition_holds_lem (some c) = refl
  condition_holds_lem none = refl

  stops-enabled :
      (b : Breakpoint) (d : Debugger V)
      → b.enabled ≡ true
      → stops machine (some b) d ≡ (true, hit machine b d)
  unfolding check_breakpoint_condition
  stops-enabled b d e = rw (e, condition_holds_lem b.condition) refl

  continue_execution-enabled :
      (fuel now elapsed : ℕ) (d : Debugger V) (b : Breakpoint)
      → lookup (machine.pc d.vm) d.breakpoints ≡ some b
      → b.enabled ≡ true
      → continue_execution machine (suc fuel) now elapsed d ≡ some (done (ok tt, hit machine b d))
  unfolding continue_execution at_breakpoint
  continue_execution-enabled fuel now elapsed d b l e = rw (l, stops-enabled b d e) refl

  -- The debugger behind a call that came back without an error; otherwise it is as it was.
  abbrev pub resumed :
      Debugger V → Option (Attempt (Outcome VmError Unit × Debugger V)) → Debugger V
  resumed d (some (done (ok _, t))) = t
  resumed d _ = d

  -- `continue_execution` so many times, with so many turns each.
  unfoldable pub continue_times : ℕ → ℕ → ℕ → ℕ → Debugger V → Debugger V
  unfolding continue_execution
  continue_times fuel now elapsed zero d = d
  continue_times fuel now elapsed (suc n) d =
      continue_times fuel now elapsed n (resumed d (continue_execution machine fuel now elapsed d))

  -- The debugger `t` is `d` but for the breakpoint at the program counter, which was hit `n` times.
  pub record Hit (n : ℕ) (b : Breakpoint) (d t : Debugger V) : Type 0 where
    pub others : t ≡ record d { breakpoints = t.breakpoints }
    pub counted :
        lookup (machine.pc d.vm) t.breakpoints ≡ some (record b { hit_count = b.hit_count + n })
    pub apart :
        (a : ℕ) → (machine.pc d.vm == a) ≡ false → lookup a t.breakpoints ≡ lookup a d.breakpoints

  hit-Hit :
      (n : ℕ) (b : Breakpoint) (d t : Debugger V)
      → Hit n (record b { hit_count = b.hit_count + 1 }) (hit machine b d) t
      → Hit (suc n) b d t
  hit-Hit n b d t h = record {
    others = h.others;
    counted = h.counted ∙ ap (λ k. some (record b { hit_count = k })) (omega arith);
    apart = λ a q.
        h.apart a q
        ∙ ground (
          arith,
          lookup-insert (machine.pc d.vm) a (record b { hit_count = b.hit_count + 1 })
              d.breakpoints,
        );
  }

  -- However often execution is continued at a breakpoint that is enabled, whatever its condition, the
  -- machine does not move: each time the hit is counted and nothing else has changed.
  pub continue_execution_lem :
      (fuel now elapsed n : ℕ) (d : Debugger V) (b : Breakpoint)
      → lookup (machine.pc d.vm) d.breakpoints ≡ some b
      → b.enabled ≡ true
      → Hit n b d (continue_times (suc fuel) now elapsed n d)
  unfolding continue_times
  continue_execution_lem fuel now elapsed zero d b l e = record {
    others = refl;
    counted = l ∙ ap (λ k. some (record b { hit_count = k })) (omega arith);
    apart = λ a q. refl;
  }
  continue_execution_lem fuel now elapsed (suc n) d b l e =
      rw (continue_execution-enabled fuel now elapsed d b l e) (
        hit-Hit n b d _ (
          continue_execution_lem fuel now elapsed n (hit machine b d) _
            (lookup-insert_self (machine.pc d.vm) _ d.breakpoints) e))

-- The entry has what the machine answers, and the time.
pub record Snapshot {V : Type 0} (machine : Machine V) (now : ℕ) (vm : V) (e : TraceEntry)
    : Type 0 where
  pub timed : e.timestamp ≡ now
  pub at_opcode : e.opcode ≡ machine.current_opcode vm
  pub at_pc : e.pc ≡ machine.pc vm
  pub stack : e.stack_snapshot ≡ machine.get_stack vm
  pub memory : e.memory_snapshot ≡ machine.get_memory vm
  pub gas : e.gas_used ≡ machine.get_gas_used vm

-- The trace `l` with `e` put to it, in `r`: the oldest entry goes if there are 10000 already.
abbrev pub Appended : List TraceEntry → TraceEntry → List TraceEntry → Type 0
Appended l e r =
    ((length l < 10_000) × (r ≡ l ++ (e ∷ [])))
    ⊎ ((length l ≡ 10_000)
        × (oldest : TraceEntry) × (kept : List TraceEntry) × (l ≡ oldest ∷ kept)
        × (r ≡ kept ++ (e ∷ [])))

limited-Appended :
    {V : Type 0} (machine : Machine V) (l : List TraceEntry) (e : TraceEntry)
    → length l ≤ 10_000
    → Appended l e (limited machine (l ++ (e ∷ [])))
unfolding remove_at
limited-Appended machine [] e h = inl (omega arith, refl)
limited-Appended machine (x ∷ l) e h =
    elim (Bool-cases (ltb trace_limit (length (x ∷ (l ++ (e ∷ [])))))) [
      | inl full ↦ inr (ground (arith, length-append l (e ∷ [])), x, l, refl, rw full refl)
      | inr room ↦ inl (ground (arith, length-append l (e ∷ [])), rw room refl)
    ]

Appended-length : (l r : List TraceEntry) (e : TraceEntry) → Appended l e r → length r ≤ 10_000
Appended-length l r e (inl (lt, q)) = rw q (omega (arith, length-append l (e ∷ []), lt))
Appended-length l r e (inr (full, oldest, kept, split, q)) =
    rw q (omega (arith, length-append kept (e ∷ []), full, ap length split))

module _ {V : Type 0} (machine : Machine V) where
  -- A trace of at most 10000 entries gets one for the machine as it stands, as its last, and the oldest
  -- goes only where there were 10000: there are at most 10000 again. Nothing else of the debugger changes.
  pub record_trace_lem :
      (now : ℕ) (d t : Debugger V)
      → length d.execution_trace ≤ 10_000
      → record_trace machine now d ≡ done (ok tt, t)
      → (e : TraceEntry) × Snapshot machine now d.vm e
        × Appended d.execution_trace e t.execution_trace
        × (length t.execution_trace ≤ 10_000)
        × (t ≡ record d { execution_trace = t.execution_trace })
  unfolding record_trace
  record_trace_lem now d t h q =
      let e = entry machine now d.vm in
      let same : record d { execution_trace = limited machine (d.execution_trace ++ (e ∷ [])) }
          ≡ t =
        cc in
      let put : Appended d.execution_trace e t.execution_trace =
        subst (Appended d.execution_trace e) (ap (λ x. x.execution_trace) same)
          (limited-Appended machine d.execution_trace e h) in
      (
        e,
        record {
          timed = refl;
          at_opcode = refl;
          at_pc = refl;
          stack = refl;
          memory = refl;
          gas = refl;
        },
        put,
        Appended-length d.execution_trace t.execution_trace e put,
        subst (λ x. x ≡ record d { execution_trace = x.execution_trace }) same refl,
      )
