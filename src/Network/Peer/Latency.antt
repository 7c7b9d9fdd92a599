-- ===== src/Network/Peer/Latency.antt =====
-- The latencies of a peer.
use Prim.Native.Nat.{min, max}
use zkmips_zkvm_impl_in_rust.Base.{
  ℕ, suc, ◌+◌, ◌-◌, ◌*◌, ◌/◌, ◌%◌, ◌^◌, ◌≤◌, ◌<◌, ◌≡◌, refl, Bool, Option, none, some, arith, ok,
}
use native.Mathlib.Nat.{le-div_iff_mul-le, div-le_of_le-mul, mul-le-mul_right}
use zkmips_zkvm_impl_in_rust.Base.Word.{add_usize, sub_usize, mul_usize, div_usize}
use zkmips_zkvm_impl_in_rust.Network.Peer.{PingStats, update_latency, min_with, max_with, avg_with}

-- The least, the average and the greatest latency, in order.
abbrev pub Between : Option ℕ → Option ℕ → Option ℕ → Type 0
Between none none none = Unit {0}
Between (some lo) (some av) (some hi) = (lo ≤ av) × (av ≤ hi)
Between _ _ _ = ⊥

abbrev pub Ordered : PingStats → Type 0
Ordered s = Between s.min_latency s.avg_latency s.max_latency

mean_bounds :
    (n lo av hi latency : ℕ)
    → lo ≤ av
    → av ≤ hi
    → lo ≤ latency
    → latency ≤ hi
    → (lo ≤ (av * n + latency) / suc n) × ((av * n + latency) / suc n ≤ hi)
mean_bounds n lo av hi latency a b c d = (
  (le-div_iff_mul-le (ground arith)).1 (omega (arith, mul-le-mul_right n a)),
  div-le_of_le-mul (suc n) (omega (arith, mul-le-mul_right n b)),
)

avg_with_lem :
    (checks : Bool) (latency n av : ℕ) (s : PingStats)
    → av * n + latency < 2 ^ 64
    → n < 2 ^ 64
    → avg_with checks latency (suc n) (some av) s ≡ (ok ((av * n + latency) / suc n), s)
unfolding add_usize sub_usize mul_usize div_usize
avg_with_lem checks latency n av s lt ln =
    let before : (suc n + 2 ^ 64 - 1) % 2 ^ 64 ≡ n = omega arith in ground (arith, before)

product_bound :
    (n av hi latency : ℕ) → av ≤ hi → max hi latency * suc n < 2 ^ 64 → av * n + latency < 2 ^ 64
product_bound n av hi latency b lt =
    let m : av ≤ max hi latency = omega arith in omega (arith, mul-le-mul_right n m)

-- Where the figures are in order, or there are none, and a ping was counted, a latency is taken
-- into them, and they stay in order; nothing overflows where the greatest latency times the number
-- of pings does not.
pub update_latency_lem :
    (checks : Bool) (latency n : ℕ) (s : PingStats)
    → Ordered s
    → s.ping_count ≡ suc n
    → max_with latency s.max_latency * suc n < 2 ^ 64
    → suc n < 2 ^ 64
    → ((update_latency checks latency s).0 ≡ ok tt)
      × Ordered (update_latency checks latency s).1
      × ((update_latency checks latency s).1.min_latency ≡ some (min_with latency s.min_latency))
      × ((update_latency checks latency s).1.max_latency ≡ some (max_with latency s.max_latency))
unfolding update_latency
update_latency_lem checks latency n s o c lt lc =
    by_figures s.min_latency s.avg_latency s.max_latency refl refl refl
  where
    by_figures :
        (lo av hi : Option ℕ)
        → s.min_latency ≡ lo
        → s.avg_latency ≡ av
        → s.max_latency ≡ hi
        → ((update_latency checks latency s).0 ≡ ok tt)
          × Ordered (update_latency checks latency s).1
          × ((update_latency checks latency s).1.min_latency
              ≡ some (min_with latency s.min_latency))
          × ((update_latency checks latency s).1.max_latency
              ≡ some (max_with latency s.max_latency))
    by_figures none none none a b d = ground (arith, a, b, d)
    by_figures (some lo) (some av) (some hi) a b d =
        let (l, r) : (lo ≤ av) × (av ≤ hi) = rw (a, b, d) at o in
        let over : max hi latency * suc n < 2 ^ 64 = rw d at lt in
        let here =
          avg_with_lem checks latency n av
            (record s {
              min_latency = some (min_with latency s.min_latency);
              max_latency = some (max_with latency s.max_latency);
            })
            (product_bound n av hi latency r over) (omega arith) in
        let bounds =
          mean_bounds n (min lo latency) av (max hi latency) latency (omega arith) (omega arith)
            (omega arith) (omega arith) in
        ground (arith, a, b, d, c, here, bounds)
    by_figures none (some av) hi a b d = absurd (ground (arith, a, b, d))
    by_figures none none (some hi) a b d = absurd (ground (arith, a, b, d))
    by_figures (some lo) none hi a b d = absurd (ground (arith, a, b, d))
    by_figures (some lo) (some av) none a b d = absurd (ground (arith, a, b, d))
