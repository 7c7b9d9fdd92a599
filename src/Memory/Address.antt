-- ===== src/Memory/Address.antt =====
-- src/memory/mod.rs: addresses and errors.
use zkmips_zkvm_impl_in_rust.Base.{ℕ, ◌≡◌, ◌↔◌, Bool, true, ◌&&◌, eqb, Eq, arith}

pub record MemoryAddress : Type 0 where
  pub segment_id : ℕ
  pub page_id : ℕ
  pub offset : ℕ

pub data MemoryError : Type 0 where
  page_fault segment_fault permission_denied : ℕ → MemoryError
  out_of_memory : MemoryError

abbrev pub address_beq : MemoryAddress → MemoryAddress → Bool
address_beq a b =
    eqb a.segment_id b.segment_id && (eqb a.page_id b.page_id && eqb a.offset b.offset)

pub address_beq_iff : (a b : MemoryAddress) → (address_beq a b ≡ true) ↔ (a ≡ b)
address_beq_iff a b = ground arith

instance abbrev pub address_eq : Eq MemoryAddress
address_eq = record { beq = address_beq; beq_iff = address_beq_iff }
