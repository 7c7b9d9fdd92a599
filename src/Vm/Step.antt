-- ===== src/Vm/Step.antt =====
-- src/vm.rs: one function for each arm of the `match opcode` in `VM::execute`, and one turn of the
-- loop. `checks` says whether the build checks for overflow. A program, being a `Vec`, is shorter
-- than 2 ^ 63 bytes, so that `program_counter + 1` and `+ 2` do not overflow.
use zkmips_zkvm_impl_in_rust.Base.{
  ℕ, ◌+◌, Bool, List, [], ◌∷◌, Option, none, some, leb, eqb, if◌then◌else◌, length, get_elem?,
  get_or, take, replicate, Outcome, ok, err, panic, pure, fail, lift, ◌>>=◌, ◌>>◌, nat_eq,
}
use zkmips_zkvm_impl_in_rust.Base.Map.{lookup, insert}
use zkmips_zkvm_impl_in_rust.Base.Word.{add_i64, mul_i64, add_usize, slice}
use zkmips_zkvm_impl_in_rust.Vm.Value.{
  Value, int, bytes, address, contract, ContractData, contract_data, empty_storage, VmError,
  stack_underflow, stack_overflow, invalid_opcode, memory_error, contract_not_found, CallFrame,
}
use zkmips_zkvm_impl_in_rust.Vm.Gas.{gas_cost}
use zkmips_zkvm_impl_in_rust.Vm.Context.{ExecutionContext, Op, use_gas}

-- What the loop does after an arm: another turn, or `break`.
pub data Flow : Type 0 where
  next stop : Flow

abbrev pub gets : {A : Type 0} → (ExecutionContext → A) → Op A
gets f c = (ok (f c), c)

-- `self.program[i]`.
abbrev pub index : List ℕ → ℕ → Outcome VmError ℕ
index program i = elim (get_elem? program i) [ some b ↦ ok b | none ↦ panic ]

abbrev pub push : Value → Op Unit
push v c = (ok tt, record c { stack = v ∷ c.stack })

abbrev pub advance : ℕ → Op Unit
advance n c = (ok tt, record c { program_counter = c.program_counter + n })

-- `stack.pop()` matched against `Some(Value::Int(v))`: what is popped stays popped on a mismatch.
abbrev pub as_int : Value → Outcome VmError ℕ
as_int (int v) = ok v
as_int _ = err stack_underflow

abbrev pub as_address : Value → Outcome VmError (List ℕ)
as_address (address a) = ok a
as_address _ = err stack_underflow

unfoldable pub pop_value : Op Value
pop_value c = elim c.stack [
  | [] ↦ (err stack_underflow, c)
  | v ∷ s ↦ (ok v, record c { stack = s })
]

unfoldable pub pop_int : Op ℕ
pop_int c = elim c.stack [
  | [] ↦ (err stack_underflow, c)
  | v ∷ s ↦ (as_int v, record c { stack = s })
]

unfoldable pub pop_address : Op (List ℕ)
pop_address c = elim c.stack [
  | [] ↦ (err stack_underflow, c)
  | v ∷ s ↦ (as_address v, record c { stack = s })
]

-- `memory.get(&(address[0] as usize))` matched against `Some(Value::Contract(c))`.
abbrev pub as_contract : Option Value → Outcome VmError ContractData
as_contract (some (contract d)) = ok d
as_contract _ = err contract_not_found

unfoldable pub contract_at : List ℕ → Op ContractData
contract_at a c = (as_contract (lookup (get_or a 0 0) c.memory), c)

-- PUSH
unfoldable pub op_push : List ℕ → Op Unit
op_push program = do
  pc ← gets (λ c. c.program_counter)
  value ← lift (index program (pc + 1))
  depth ← gets (λ c. length c.stack)
  if leb 1024 depth then fail stack_overflow else do push (int value); advance 2

-- ADD and MUL
unfoldable pub op_add : Bool → Op Unit
unfolding pop_int
op_add checks = do b ← pop_int; a ← pop_int; r ← lift (add_i64 checks a b); push (int r); advance 1

unfoldable pub op_mul : Bool → Op Unit
unfolding pop_int
op_mul checks = do b ← pop_int; a ← pop_int; r ← lift (mul_i64 checks a b); push (int r); advance 1

-- STORE
unfoldable pub op_store : Op Unit
unfolding pop_int pop_value
op_store = do
  addr ← pop_int
  value ← pop_value
  λ c. (ok tt, record c { memory = insert addr value c.memory })
  advance 1

-- LOAD
abbrev pub or_missing : ℕ → Option Value → Outcome VmError Value
or_missing addr (some v) = ok v
or_missing addr none = err (memory_error addr)

unfoldable pub op_load : Op Unit
unfolding pop_int
op_load = do
  addr ← pop_int
  memory ← gets (λ c. c.memory)
  value ← lift (or_missing addr (lookup addr memory))
  push value
  advance 1

module _ (blake2b512 : List ℕ → List ℕ) where
  -- CREATE
  unfoldable pub op_create : Bool → List ℕ → Op Unit
  unfolding pop_int use_gas
  op_create checks program = do
    value ← pop_int
    code_size ← pop_int
    creation ← gets (λ c. c.gas_config.contract_creation)
    use_gas creation
    pc ← gets (λ c. c.program_counter)
    to ← lift (add_usize checks (pc + 1) code_size)
    code ← lift (slice program (pc + 1) to)
    push (address (take 32 (blake2b512 code)))
    push (contract (contract_data code empty_storage value))
    advance (1 + code_size)

  -- SHA3
  unfoldable pub op_sha3 : Bool → List ℕ → Op Unit
  unfolding pop_int
  op_sha3 checks program = do
    size ← pop_int
    offset ← pop_int
    to ← lift (add_usize checks offset size)
    range ← lift (slice program offset to)
    push (bytes (take 32 (blake2b512 range)))
    advance 1

-- CALL
unfoldable pub push_frame : List ℕ → ℕ → ℕ → ContractData → Op Unit
unfolding replicate
push_frame target value gas_limit (contract_data code storage balance) c =
    let frame : CallFrame = record {
      caller = replicate 32 0;
      callee = target;
      value = value;
      gas_limit = gas_limit;
      code = code;
      return_data = [];
    } in
    (ok tt, record c { call_stack = frame ∷ c.call_stack })

unfoldable pub op_call : Op Unit
unfolding pop_int pop_address contract_at push_frame
op_call = do
  target ← pop_address
  value ← pop_int
  gas_limit ← pop_int
  found ← contract_at target
  push_frame target value gas_limit found
  advance 1

-- RETURN: the range is read only if there is a frame.
abbrev pub return_to : Bool → List ℕ → ℕ → ℕ → List CallFrame → Op Unit
return_to checks program offset size [] = pure tt
return_to checks program offset size (frame ∷ frames) = do
  to ← lift (add_usize checks offset size)
  range ← lift (slice program offset to)
  λ c. (ok tt, record c { call_stack = record frame { return_data = range } ∷ frames })

unfoldable pub op_return : Bool → List ℕ → Op Unit
unfolding pop_int
op_return checks program = do
  size ← pop_int
  offset ← pop_int
  frames ← gets (λ c. c.call_stack)
  return_to checks program offset size frames
  advance 1

-- BALANCE
abbrev pub balance_of : ContractData → ℕ
balance_of (contract_data code storage balance) = balance

unfoldable pub op_balance : Op Unit
unfolding pop_address contract_at
op_balance = do a ← pop_address; found ← contract_at a; push (int (balance_of found)); advance 1

-- The arms of the match.
pub data Instr : Type 0 where
  i_push i_add i_mul i_store i_load i_create i_call i_return i_sha3 i_balance i_stop : Instr
  i_invalid : ℕ → Instr

unfoldable pub decode : ℕ → Instr
decode opcode =
    if eqb opcode 0x01
    then i_push
    else if eqb opcode 0x02
    then i_add
    else if eqb opcode 0x03
    then i_mul
    else if eqb opcode 0x04
    then i_store
    else if eqb opcode 0x05
    then i_load
    else if eqb opcode 0x0B
    then i_create
    else if eqb opcode 0x0C
    then i_call
    else if eqb opcode 0x0D
    then i_return
    else if eqb opcode 0x0E
    then i_sha3
    else if eqb opcode 0x0F
    then i_balance
    else if eqb opcode 0xFF
    then i_stop
    else i_invalid opcode

module _ (blake2b512 : List ℕ → List ℕ) (checks : Bool) (program : List ℕ) where
  unfoldable pub exec_instr : Instr → Op Flow
  exec_instr i_push = do op_push program; pure next
  exec_instr i_add = do op_add checks; pure next
  exec_instr i_mul = do op_mul checks; pure next
  exec_instr i_store = do op_store; pure next
  exec_instr i_load = do op_load; pure next
  exec_instr i_create = do op_create blake2b512 checks program; pure next
  exec_instr i_call = do op_call; pure next
  exec_instr i_return = do op_return checks program; pure next
  exec_instr i_sha3 = do op_sha3 blake2b512 checks program; pure next
  exec_instr i_balance = do op_balance; pure next
  exec_instr i_stop = pure stop
  exec_instr (i_invalid opcode) = fail (invalid_opcode opcode)

  -- One turn of the loop: fetch, charge, execute.
  unfoldable pub step : Op Flow
  unfolding use_gas
  step = do
    pc ← gets (λ c. c.program_counter)
    opcode ← lift (index program pc)
    config ← gets (λ c. c.gas_config)
    use_gas (gas_cost config opcode)
    exec_instr (decode opcode)
