-- ===== src/Vm/Arms.antt =====
-- What the arithmetic and the memory arms of `VM::execute` compute.
use zkmips_zkvm_impl_in_rust.Base.{
  ℕ, ◌+◌, ◌%◌, ◌^◌, ◌<◌, ◌≡◌, Bool, true, false, List, ◌∷◌, ok, panic, arith, ◌>>◌, nat_eq,
}
use zkmips_zkvm_impl_in_rust.Base.Int.{◌+ℤ◌}
use zkmips_zkvm_impl_in_rust.Base.Map.{insert, lookup-insert_self}
use zkmips_zkvm_impl_in_rust.Base.Word.{add_i64, signed, fits, modulus, signed-add}
use zkmips_zkvm_impl_in_rust.Vm.Value.{Value, int}
use zkmips_zkvm_impl_in_rust.Vm.Context.{ExecutionContext}
use zkmips_zkvm_impl_in_rust.Vm.Step.{op_add, op_store, op_load}

module _ (c : ExecutionContext) (a b : ℕ) (s : List Value) (e : c.stack ≡ int b ∷ int a ∷ s) where
  -- ADD on two words whose exact sum is an `i64` replaces them by the word that means that sum,
  -- in either build.
  pub op_add_exact :
      (checks : Bool)
      → a < 2 ^ 64
      → b < 2 ^ 64
      → fits (signed a +ℤ signed b) ≡ true
      → (w : ℕ) × (signed w ≡ signed a +ℤ signed b)
        × (op_add checks c
            ≡ (ok tt, record c { stack = int w ∷ s; program_counter = c.program_counter + 1 }))
  unfolding op_add add_i64
  op_add_exact checks ha hb h = ((a + b) % modulus, signed-add a b ha hb h, ground arith)

  -- ADD on two words whose exact sum is no `i64` panics in the build with overflow checks, and
  -- otherwise leaves the sum modulo 2 ^ 64.
  pub op_add_overflow :
      fits (signed a +ℤ signed b) ≡ false
      → ((op_add true c).0 ≡ panic)
        × (op_add false c ≡ (
          ok tt,
          record c { stack = int ((a + b) % 2 ^ 64) ∷ s; program_counter = c.program_counter + 1 },
        ))
  unfolding op_add add_i64
  op_add_overflow h = (ground arith, ground arith)

-- A value stored at an address is what a LOAD of that address, run next, puts back on the stack;
-- the rest of the machine is as STORE left it, one step further.
pub store_load :
    (c : ExecutionContext) (x : ℕ) (v : Value) (s : List Value)
    → c.stack ≡ int x ∷ v ∷ s
    → (op_store >> (λ d. (ok tt, record d { stack = int x ∷ d.stack })) >> op_load) c ≡ (
      ok tt,
      record c {
        stack = v ∷ s;
        memory = insert x v c.memory;
        program_counter = c.program_counter + 2;
      },
    )
unfolding op_store op_load
store_load c x v s e = ground (arith, lookup-insert_self x v c.memory)
