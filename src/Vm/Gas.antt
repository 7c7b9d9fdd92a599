-- ===== src/Vm/Gas.antt =====
-- src/vm.rs: the gas schedule.
use zkmips_zkvm_impl_in_rust.Base.{ℕ, List, [], ◌∷◌, none, some, nat_eq}
use zkmips_zkvm_impl_in_rust.Base.Map.{lookup}

pub record GasConfig : Type 0 where
  pub base : ℕ
  pub op_cost : List (ℕ × ℕ)
  pub memory_expansion : ℕ
  pub contract_creation : ℕ

abbrev pub default_gas_config : GasConfig
default_gas_config = record {
  base = 2;
  op_cost =
      (0x01, 3)
      ∷ (0x02, 5)
      ∷ (0x03, 5)
      ∷ (0x04, 20)
      ∷ (0x05, 20)
      ∷ (0x06, 8)
      ∷ (0x07, 10)
      ∷ (0x08, 3)
      ∷ (0x09, 3)
      ∷ (0x0A, 3)
      ∷ (0x0B, 400)
      ∷ (0x0C, 40)
      ∷ (0x0D, 5)
      ∷ (0x0E, 50)
      ∷ (0x0F, 20)
      ∷ [];
  memory_expansion = 3;
  contract_creation = 32000;
}

-- The cost that the loop charges before it looks at the opcode.
unfoldable pub gas_cost : GasConfig → ℕ → ℕ
gas_cost g opcode = elim (lookup opcode g.op_cost) [ some cost ↦ cost | none ↦ g.base ]
