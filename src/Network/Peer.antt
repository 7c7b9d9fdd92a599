-- ===== src/Network/Peer.antt =====
-- src/network/peer.rs: `Peer` and `PeerManager`. An id is the list of its bytes. A reputation is an
-- integer, kept in the range of an `i32`; times are in milliseconds. The channel to the peer is left
-- out.
pub mod Latency
use Prim.Native.Nat.{min, max}
use zkmips_zkvm_impl_in_rust.Base.{
  ℕ, ◌+◌, ◌-◌, ◌^◌, Bool, true, false, not, ◌&&◌, List, [], ◌∷◌, Option, none, some, ltb, leb,
  bytes_eq, if◌then◌else◌, length, Outcome, ok, err, panic, Exec, pure, lift, ◌>>=◌, ◌>>◌,
}
use zkmips_zkvm_impl_in_rust.Base.Int.{ℤ, pos, negsuc, ◌+ℤ◌, leb_ℤ}
use zkmips_zkvm_impl_in_rust.Base.Word.{add_usize, sub_usize, mul_usize, div_usize}
use zkmips_zkvm_impl_in_rust.Network.Message.{NetworkError}

pub data PeerStatus : Type 0 where
  connected disconnected banned syncing : PeerStatus

pub record PeerInfo : Type 0 where
  pub id : List ℕ
  pub addr : Option (List ℕ)
  pub status : PeerStatus
  pub last_seen : ℕ

pub record PeerCapabilities : Type 0 where
  pub protocols : List (List ℕ)
  pub version : ℕ
  pub chain_id : ℕ
  pub head_block : ℕ
  pub total_difficulty : ℕ

pub record PingStats : Type 0 where
  pub last_ping : Option ℕ
  pub last_pong : Option ℕ
  pub min_latency : Option ℕ
  pub max_latency : Option ℕ
  pub avg_latency : Option ℕ
  pub ping_count : ℕ

pub record Peer : Type 0 where
  pub info : PeerInfo
  pub capabilities : PeerCapabilities
  pub reputation : ℤ
  pub connection_time : ℕ
  pub ping_stats : PingStats

abbrev pub default_capabilities : PeerCapabilities
default_capabilities = record {
  protocols = [];
  version = 0;
  chain_id = 0;
  head_block = 0;
  total_difficulty = 0;
}

abbrev pub default_ping_stats : PingStats
default_ping_stats = record {
  last_ping = none;
  last_pong = none;
  min_latency = none;
  max_latency = none;
  avg_latency = none;
  ping_count = 0;
}

unfoldable pub new : List ℕ → Option (List ℕ) → ℕ → Peer
new id addr now = record {
  info = record { id = id; addr = addr; status = connected; last_seen = now };
  capabilities = default_capabilities;
  reputation = pos 0;
  connection_time = now;
  ping_stats = default_ping_stats;
}

unfoldable pub update_ping : Bool → ℕ → Exec NetworkError PingStats Unit
update_ping checks now s = elim (add_usize {E = NetworkError} checks s.ping_count 1) [
  | ok n ↦ (ok tt, record s { last_ping = some now; ping_count = n })
  | err e ↦ (err e, record s { last_ping = some now })
  | panic ↦ (panic, record s { last_ping = some now })
]

abbrev pub min_with : ℕ → Option ℕ → ℕ
min_with latency (some least) = min least latency
min_with latency none = latency

abbrev pub max_with : ℕ → Option ℕ → ℕ
max_with latency (some most) = max most latency
max_with latency none = latency

-- `(avg * (ping_count - 1) + latency) / ping_count`, or the first latency.
abbrev pub avg_with : Bool → ℕ → ℕ → Option ℕ → Exec NetworkError PingStats ℕ
avg_with checks latency count none = pure latency
avg_with checks latency count (some avg) = do
  before ← lift (sub_usize checks count 1)
  product ← lift (mul_usize checks avg before)
  sum ← lift (add_usize checks product latency)
  lift (div_usize sum count)

-- The three updates of `update_pong` for one latency.
unfoldable pub update_latency : Bool → ℕ → Exec NetworkError PingStats Unit
update_latency checks latency = do
  λ s. (ok tt, record s { min_latency = some (min_with latency s.min_latency) })
  λ s. (ok tt, record s { max_latency = some (max_with latency s.max_latency) })
  avg ← λ s. avg_with checks latency s.ping_count s.avg_latency s
  λ s. (ok tt, record s { avg_latency = some avg })

abbrev pub answered : ℕ → Exec NetworkError PingStats Unit
answered now s = (ok tt, record s { last_pong = some now })

unfoldable pub update_pong : Bool → ℕ → Exec NetworkError PingStats Unit
unfolding update_latency
update_pong checks now s = elim s.last_ping [
  | some ping_time ↦ (do update_latency checks (now - ping_time); answered now) s
  | none ↦ answered now s
]

-- `i32::saturating_add`.
unfoldable pub saturating_add : ℤ → ℤ → ℤ
saturating_add a b =
    if leb_ℤ (a +ℤ b) (negsuc (2 ^ 31 - 1))
    then negsuc (2 ^ 31 - 1)
    else if leb_ℤ (pos (2 ^ 31 - 1)) (a +ℤ b)
    then pos (2 ^ 31 - 1)
    else a +ℤ b

unfoldable pub update_reputation : ℤ → Peer → Peer
unfolding saturating_add
update_reputation delta p =
    let q : Peer = record p { reputation = saturating_add p.reputation delta } in
    if leb_ℤ q.reputation (negsuc 100)
    then record q { info = record q.info { status = banned } }
    else q

unfoldable pub update_capabilities : PeerCapabilities → Peer → Peer
update_capabilities capabilities p = record p { capabilities = capabilities }

abbrev pub is_connected : PeerStatus → Bool
is_connected connected = true
is_connected _ = false

abbrev pub is_disconnected : PeerStatus → Bool
is_disconnected disconnected = true
is_disconnected _ = false

unfoldable pub is_synced : Peer → Bool
is_synced p = is_connected p.info.status && ltb 0 p.capabilities.head_block

unfoldable pub is_banned : Peer → Bool
is_banned p = elim p.info.status [ banned ↦ true | _ ↦ false ]

unfoldable pub connection_duration : ℕ → Peer → ℕ
connection_duration now p = now - p.connection_time

unfoldable pub last_seen_duration : ℕ → Peer → ℕ
last_seen_duration now p = now - p.info.last_seen
