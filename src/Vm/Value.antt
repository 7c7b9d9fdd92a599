-- ===== src/Vm/Value.antt =====
-- src/vm.rs: the values on the stack, the call frames, the logs and the errors.
-- An `i64`, `u64` or `usize` is its bit pattern, a byte is a number below 256, and an array of
-- bytes is a list. The message of a `MemoryError` is the address that it prints.
use zkmips_zkvm_impl_in_rust.Base.{ℕ, Bool, List}

mutual
  pub data Value : Type 0 where
    int : ℕ → Value
    bool : Bool → Value
    bytes : List ℕ → Value
    address : List ℕ → Value
    contract : ContractData → Value

  -- The code, the storage and the balance.
  pub data ContractData : Type 0 where
    contract_data : List ℕ → ContractStorage → ℕ → ContractData

  -- The `HashMap` inside a contract, from keys to values.
  pub data ContractStorage : Type 0 where
    empty_storage : ContractStorage
    stored : List ℕ → Value → ContractStorage → ContractStorage

pub data VmError : Type 0 where
  stack_underflow stack_overflow : VmError
  invalid_opcode : ℕ → VmError
  memory_error : ℕ → VmError
  contract_not_found : VmError
  gas_limit_exceeded : VmError

pub record CallFrame : Type 0 where
  pub caller : List ℕ
  pub callee : List ℕ
  pub value : ℕ
  pub gas_limit : ℕ
  pub code : List ℕ
  pub return_data : List ℕ

pub record Log : Type 0 where
  pub address : List ℕ
  pub topics : List (List ℕ)
  pub payload : List ℕ
