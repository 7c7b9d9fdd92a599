-- ===== src/Memory/Permissions.antt =====
-- src/memory/permissions.rs: access permissions as three bits of a byte.
pub mod Laws
use Prim.Native.Nat.{bit_and, bit_or}
use zkmips_zkvm_impl_in_rust.Base.{ℕ, ◌-◌, Bool, eqb, if◌then◌else◌, List, [], ◌∷◌}

pub record AccessPermissions : Type 0 where
  pub bits : ℕ

pub data Permission : Type 0 where
  no_access read write execute : Permission

-- `permission as u8`
abbrev pub as_u8 : Permission → ℕ
as_u8 no_access = 0
as_u8 read = 1
as_u8 write = 2
as_u8 execute = 4

unfoldable pub new : Bool → Bool → Bool → AccessPermissions
new can_read can_write can_execute =
    let bits : ℕ = 0 in
    let bits : ℕ = if can_read then bit_or bits 1 else bits in
    let bits : ℕ = if can_write then bit_or bits 2 else bits in
    let bits : ℕ = if can_execute then bit_or bits 4 else bits in record { bits = bits }

unfoldable pub has_permission : AccessPermissions → Permission → Bool
has_permission a p = eqb (bit_and a.bits (as_u8 p)) (as_u8 p)

unfoldable pub add_permission : AccessPermissions → Permission → AccessPermissions
add_permission a p = record { bits = bit_or a.bits (as_u8 p) }

-- `!x` on a byte is 255 - x.
unfoldable pub remove_permission : AccessPermissions → Permission → AccessPermissions
remove_permission a p = record { bits = bit_and a.bits (255 - as_u8 p) }

unfoldable pub can_read : AccessPermissions → Bool
unfolding has_permission
can_read a = has_permission a read

unfoldable pub can_write : AccessPermissions → Bool
unfolding has_permission
can_write a = has_permission a write

unfoldable pub can_execute : AccessPermissions → Bool
unfolding has_permission
can_execute a = has_permission a execute

-- `AccessPermissions::default()`
abbrev pub read_write : AccessPermissions
read_write = record { bits = 3 }

unfoldable pub bitand : AccessPermissions → AccessPermissions → AccessPermissions
bitand a b = record { bits = bit_and a.bits b.bits }

unfoldable pub bitor : AccessPermissions → AccessPermissions → AccessPermissions
bitor a b = record { bits = bit_or a.bits b.bits }

unfoldable pub from_u8 : ℕ → AccessPermissions
from_u8 bits = record { bits = bit_and bits 7 }

-- `r`, `w`, `x` or a dash in each place, as `Display` writes them.
unfoldable pub display : AccessPermissions → List ℕ
unfolding can_read can_write can_execute
display a =
    (if can_read a then b'r' else b'-')
    ∷ (if can_write a then b'w' else b'-')
    ∷ (if can_execute a then b'x' else b'-')
    ∷ []
