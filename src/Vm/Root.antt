-- ===== src/Vm/Root.antt =====
-- What `VM::execute` does to the gas, the storage, the logs and the state root.
use zkmips_zkvm_impl_in_rust.Base.{
  ℕ, ◌≤◌, ◌≡◌, ◌≢◌, ◌⊎◌, inl, inr, Bool, List, [], some, take, replicate, Outcome, ok, err, panic,
  arith,
}
use zkmips_zkvm_impl_in_rust.Vm.Value.{VmError}
use zkmips_zkvm_impl_in_rust.Vm.Context.{
  ExecutionContext, compute_state_root, storage_bytes, sort_by_key, log_bytes,
}
use zkmips_zkvm_impl_in_rust.Vm.Run.{
  Vm, new, execute, conclude, get_storage, get_logs, get_gas_remaining, get_state_root,
}
use zkmips_zkvm_impl_in_rust.Vm.Frame.{Frame, order, step-Frame}
use zkmips_zkvm_impl_in_rust.Vm.Loop.{run-keeps, execute_inv}

module _ (h : List ℕ → List ℕ) (checks : Bool) where
  conclude-Frame :
      (v w : Vm) (r q : Outcome VmError Unit) (c : ExecutionContext)
      → Frame v.context c
      → conclude h v r c ≡ (q, w)
      → (get_gas_remaining w ≤ get_gas_remaining v)
        × (get_storage w ≡ get_storage v)
        × (get_logs w ≡ get_logs v)
        × (w.program ≡ v.program)
  unfolding compute_state_root get_storage get_logs get_gas_remaining
  conclude-Frame v w (ok x) q c f e = ground arith
  conclude-Frame v w (err x) q c f e = ground arith
  conclude-Frame v w panic q c f e = ground arith

  -- However `VM::execute` ends, the gas left is at most the gas before, and the contract storage,
  -- the logs and the program are what they were.
  pub execute_frame :
      (v w : Vm) (q : Outcome VmError Unit)
      → execute h checks v ≡ some (q, w)
      → (get_gas_remaining w ≤ get_gas_remaining v)
        × (get_storage w ≡ get_storage v)
        × (get_logs w ≡ get_logs v)
        × (w.program ≡ v.program)
  execute_frame v w q e =
      let (r, c, x, y) = execute_inv h checks v w q e in
      conclude-Frame v w r q c
        (run-keeps h checks v.program order (step-Frame h checks v.program) _ _ _ _ x) y

  root_of_empty :
      (c : ExecutionContext)
      → c.storage ≡ []
      → c.logs ≡ []
      → (compute_state_root h c).state_root ≡ take 32 (h [])
  unfolding compute_state_root storage_bytes sort_by_key log_bytes
  root_of_empty c s l = rw (s, l)

  conclude-root :
      (p : List ℕ) (w : Vm) (r q : Outcome VmError Unit) (c : ExecutionContext)
      → Frame (new p).context c
      → conclude h (new p) r c ≡ (q, w)
      → ((q ≡ ok tt) × (get_state_root w ≡ take 32 (h [])))
        ⊎ ((q ≢ ok tt) × (get_state_root w ≡ replicate 32 0))
  unfolding new get_state_root
  conclude-root p w (ok x) q c f e =
      inl (ground arith, ground (arith, root_of_empty c f.storage f.logs))
  conclude-root p w (err x) q c f e = inr (ground arith, ground arith)
  conclude-root p w panic q c f e = inr (ground arith, ground arith)

  -- For every program the root is the same: after a run without an error it is the hash of no
  -- bytes at all, whatever the program stored, and after an error or a panic it is 32 zero bytes.
  pub execute_root :
      (p : List ℕ) (w : Vm) (q : Outcome VmError Unit)
      → execute h checks (new p) ≡ some (q, w)
      → ((q ≡ ok tt) × (get_state_root w ≡ take 32 (h [])))
        ⊎ ((q ≢ ok tt) × (get_state_root w ≡ replicate 32 0))
  execute_root p w q e =
      let (r, c, x, y) = execute_inv h checks (new p) w q e in
      conclude-root p w r q c
        (run-keeps h checks (new p).program order (step-Frame h checks (new p).program) _ _ _ _ x) y
