-- ===== src/Memory/Permissions/Laws.antt =====
-- Permission bits as sets of permissions.
use Prim.Native.Nat.{bit_and}
use zkmips_zkvm_impl_in_rust.Base.{
  ℕ, ◌<◌, ◌≡◌, refl, Bool, true, false, not, ◌&&◌, ◌||◌, ltb, ltb→lt, arith,
}
use zkmips_zkvm_impl_in_rust.Base.Tables.{up_to, up_to-at, same, same_sound}
use zkmips_zkvm_impl_in_rust.Memory.Permissions.{
  AccessPermissions, Permission, no_access, read, write, execute, new, has_permission,
  add_permission, remove_permission, can_read, can_write, can_execute, bitand, bitor, from_u8,
}

-- The three bits; every constructor of the type gives no others.
pub record IsValid (a : AccessPermissions) : Type 0 where
  pub low : a.bits < 8

-- Two permissions are the same one, and one is granted whatever the bits are.
abbrev pub equal : Permission → Permission → Bool
equal no_access no_access = true
equal read read = true
equal write write = true
equal execute execute = true
equal _ _ = false

abbrev all_permissions : (Permission → Bool) → Bool
all_permissions f = f no_access && (f read && (f write && f execute))

all_permissions_sound :
    (f : Permission → Bool) (p : Permission) → all_permissions f ≡ true → f p ≡ true
all_permissions_sound f no_access h = ground arith
all_permissions_sound f read h = ground arith
all_permissions_sound f write h = ground arith
all_permissions_sound f execute h = ground arith

abbrev of : ℕ → AccessPermissions
of b = record { bits = b }

-- `new` grants exactly what it is asked for.
pub new_can :
    (r w x : Bool)
    → (can_read (new r w x) ≡ r) × (can_write (new r w x) ≡ w) × (can_execute (new r w x) ≡ x)
unfolding new can_read can_write can_execute
new_can true true true = (refl, refl, refl)
new_can true true false = (refl, refl, refl)
new_can true false true = (refl, refl, refl)
new_can true false false = (refl, refl, refl)
new_can false true true = (refl, refl, refl)
new_can false true false = (refl, refl, refl)
new_can false false true = (refl, refl, refl)
new_can false false false = (refl, refl, refl)

-- What an operation grants, over every set of bits and both permissions.
add_law : Permission → Permission → ℕ → Bool
unfolding add_permission has_permission
add_law p q b =
    same (has_permission (add_permission (of b) p) q) (has_permission (of b) q || equal p q)

remove_law : Permission → Permission → ℕ → Bool
unfolding remove_permission has_permission
remove_law p q b =
    same (has_permission (remove_permission (of b) p) q)
      (has_permission (of b) q && (not (equal p q) || equal q no_access))

law_table :
    all_permissions (λ p. all_permissions (λ q. up_to 8 (λ b. add_law p q b && remove_law p q b)))
    ≡ true
unfolding up_to add_law remove_law
law_table = refl

laws : (p q : Permission) (b : ℕ) → b < 8 → (add_law p q b && remove_law p q b) ≡ true
laws p q b lt =
    up_to-at 8 (λ b. add_law p q b && remove_law p q b) b
      (all_permissions_sound (λ q. up_to 8 (λ b. add_law p q b && remove_law p q b)) q
        (all_permissions_sound
          (λ p. all_permissions (λ q. up_to 8 (λ b. add_law p q b && remove_law p q b))) p
          law_table))
      lt

and_true : (a b : Bool) → (a && b) ≡ true → (a ≡ true) × (b ≡ true)
and_true a b h = ground arith

-- Adding a permission grants that one and keeps the others; removing one takes that one away and
-- keeps the others, but for the empty permission, which every set grants.
pub has-add_remove :
    (a : AccessPermissions) (p q : Permission)
    → IsValid a
    → (has_permission (add_permission a p) q ≡ (has_permission a q || equal p q))
      × (has_permission (remove_permission a p) q
          ≡ (has_permission a q && (not (equal p q) || equal q no_access)))
unfolding add_law remove_law
has-add_remove a p q v =
    let h = and_true (add_law p q a.bits) (remove_law p q a.bits) (laws p q a.bits v.low) in
    (same_sound _ _ h.0, same_sound _ _ h.1)

-- `&` and `|` of two sets.
set_law : Permission → ℕ → ℕ → Bool
unfolding bitand bitor has_permission
set_law q b c =
    same (has_permission (bitand (of b) (of c)) q)
      (has_permission (of b) q && has_permission (of c) q)
    && (same (has_permission (bitor (of b) (of c)) q)
          (has_permission (of b) q || has_permission (of c) q)
        && ltb (bit_and b c) 8)

set_table : all_permissions (λ q. up_to 8 (λ b. up_to 8 (set_law q b))) ≡ true
unfolding up_to set_law
set_table = refl

-- `&` grants what both sets grant, and `|` what one of them grants.
pub has-bitand-bitor :
    (a b : AccessPermissions) (q : Permission)
    → IsValid a
    → IsValid b
    → (has_permission (bitand a b) q ≡ (has_permission a q && has_permission b q))
      × (has_permission (bitor a b) q ≡ (has_permission a q || has_permission b q))
unfolding set_law
has-bitand-bitor a b q v w =
    let t = all_permissions_sound (λ q. up_to 8 (λ b. up_to 8 (set_law q b))) q set_table in
    let row = up_to-at 8 (λ b. up_to 8 (set_law q b)) a.bits t v.low in
    let cell = up_to-at 8 (set_law q a.bits) b.bits row w.low in
    let h = and_true _ _ cell in (same_sound _ _ h.0, same_sound _ _ (and_true _ _ h.1).0)

from_table : up_to 256 (λ b. ltb (bit_and b 7) 8) ≡ true
unfolding up_to
from_table = refl

-- A set made from any byte has only the three bits.
pub from_u8-IsValid : (b : ℕ) → b < 256 → IsValid (from_u8 b)
unfolding from_u8
from_u8-IsValid b lt = record {
  low = ltb→lt _ _ (up_to-at 256 (λ b. ltb (bit_and b 7) 8) b from_table lt);
}
