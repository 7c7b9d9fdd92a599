-- ===== src/Vm/Context.antt =====
-- src/vm.rs: `ExecutionContext`, its gas meter and its state root. The stack and the call stack
-- have the newest entry first. Blake2b, a library, is the parameter `blake2b512`.
use zkmips_zkvm_impl_in_rust.Base.{
  ℕ, ◌-◌, Bool, true, false, List, [], ◌∷◌, ◌++◌, ltb, eqb, if◌then◌else◌, take, replicate, ok, err,
  Exec,
}
use zkmips_zkvm_impl_in_rust.Base.Word.{to_le_bytes}
use zkmips_zkvm_impl_in_rust.Vm.Value.{
  Value, int, bool, bytes, address, contract, contract_data, VmError, gas_limit_exceeded, CallFrame,
  Log,
}
use zkmips_zkvm_impl_in_rust.Vm.Gas.{GasConfig, default_gas_config}

pub record ExecutionContext : Type 0 where
  pub stack : List Value
  pub memory : List (ℕ × Value)
  pub storage : List (List ℕ × Value)
  pub program_counter : ℕ
  pub gas_remaining : ℕ
  pub gas_config : GasConfig
  pub call_stack : List CallFrame
  pub state_root : List ℕ
  pub logs : List Log

-- A method of the machine.
abbrev pub Op : Type 0 → Type 0
Op A = Exec VmError ExecutionContext A

unfoldable pub new_context : ℕ → ExecutionContext
unfolding replicate
new_context gas_limit = record {
  stack = [];
  memory = [];
  storage = [];
  program_counter = 0;
  gas_remaining = gas_limit;
  gas_config = default_gas_config;
  call_stack = [];
  state_root = replicate 32 0;
  logs = [];
}

unfoldable pub use_gas : ℕ → Op Unit
use_gas amount c =
    if ltb c.gas_remaining amount
    then (err gas_limit_exceeded, c)
    else (ok tt, record c { gas_remaining = c.gas_remaining - amount })

-- The bytes that a stored value feeds to the hash.
unfoldable pub value_bytes : Value → List ℕ
value_bytes (int i) = to_le_bytes 8 i
value_bytes (bool true) = 1 ∷ []
value_bytes (bool false) = 0 ∷ []
value_bytes (bytes b) = b
value_bytes (address a) = a
value_bytes (contract (contract_data code storage balance)) = code ++ to_le_bytes 8 balance

-- The order of byte arrays, and the sort by key.
unfoldable pub bytes_ltb : List ℕ → List ℕ → Bool
bytes_ltb [] [] = false
bytes_ltb [] (y ∷ ys) = true
bytes_ltb (x ∷ xs) [] = false
bytes_ltb (x ∷ xs) (y ∷ ys) = if eqb x y then bytes_ltb xs ys else ltb x y

unfoldable pub insert_by_key : List ℕ × Value → List (List ℕ × Value) → List (List ℕ × Value)
unfolding bytes_ltb
insert_by_key e [] = e ∷ []
insert_by_key e (x ∷ xs) =
    let rest = insert_by_key e xs in if bytes_ltb x.0 e.0 then x ∷ rest else e ∷ x ∷ xs

unfoldable pub sort_by_key : List (List ℕ × Value) → List (List ℕ × Value)
unfolding insert_by_key
sort_by_key [] = []
sort_by_key (x ∷ xs) = insert_by_key x (sort_by_key xs)

unfoldable pub storage_bytes : List (List ℕ × Value) → List ℕ
unfolding value_bytes
storage_bytes [] = []
storage_bytes ((k, v) ∷ rest) = k ++ (value_bytes v ++ storage_bytes rest)

unfoldable pub topic_bytes : List (List ℕ) → List ℕ
topic_bytes [] = []
topic_bytes (t ∷ ts) = t ++ topic_bytes ts

unfoldable pub log_bytes : List Log → List ℕ
unfolding topic_bytes
log_bytes [] = []
log_bytes (l ∷ ls) = l.address ++ (topic_bytes l.topics ++ (l.payload ++ log_bytes ls))

unfoldable pub compute_state_root : (List ℕ → List ℕ) → ExecutionContext → ExecutionContext
compute_state_root blake2b512 c = record c {
  state_root = take 32 (blake2b512 (storage_bytes (sort_by_key c.storage) ++ log_bytes c.logs));
}
