-- ===== src/Network/Peers.antt =====
-- src/network/peer.rs: `PeerManager`.
pub mod Bounded
mod Tests
use zkmips_zkvm_impl_in_rust.Base.{
  ℕ, Bool, true, false, not, List, [], ◌∷◌, Option, none, some, leb, bytes_eq, if◌then◌else◌,
  length, Outcome, ok, err, Exec,
}
use zkmips_zkvm_impl_in_rust.Base.Int.{ℤ}
use zkmips_zkvm_impl_in_rust.Base.Map
use zkmips_zkvm_impl_in_rust.Network.Sets
use zkmips_zkvm_impl_in_rust.Network.Message.{NetworkError, max_peers_reached, peer_is_banned}
use zkmips_zkvm_impl_in_rust.Network.Peer
use zkmips_zkvm_impl_in_rust.Network.Peer.{Peer, PeerStatus, is_synced, is_disconnected}

pub record PeerManager : Type 0 where
  pub peers : List (List ℕ × Peer)
  pub banned_peers : List (List ℕ)
  pub max_peers : ℕ

unfoldable pub new : ℕ → PeerManager
new max_peers = record { peers = []; banned_peers = []; max_peers = max_peers }

unfoldable pub add_peer : Peer → Exec NetworkError PeerManager Unit
add_peer peer m =
    if leb m.max_peers (length m.peers)
    then (err max_peers_reached, m)
    else if Sets.contains peer.info.id m.banned_peers
    then (err peer_is_banned, m)
    else (ok tt, record m { peers = Map.insert peer.info.id peer m.peers })

unfoldable pub remove_peer : List ℕ → PeerManager → PeerManager
remove_peer peer_id m = record m { peers = Map.remove peer_id m.peers }

-- `get_mut` of a key, and a change of the value in place.
unfoldable pub get_peer_mut : List ℕ → (Peer → Peer) → PeerManager → PeerManager
get_peer_mut peer_id f m = elim (Map.lookup peer_id m.peers) [
  | some peer ↦ record m { peers = Map.insert peer_id (f peer) m.peers }
  | none ↦ m
]

abbrev pub with_status : PeerStatus → Peer → Peer
with_status status p = record p { info = record p.info { status = status } }

unfoldable pub ban_peer : List ℕ → PeerManager → PeerManager
unfolding get_peer_mut remove_peer
ban_peer peer_id m =
    let marked = get_peer_mut peer_id (with_status PeerStatus.banned) m in
    let listed : PeerManager = record marked {
      banned_peers = Sets.add peer_id marked.banned_peers;
    } in
    remove_peer peer_id listed

unfoldable pub unban_peer : List ℕ → PeerManager → PeerManager
unban_peer peer_id m = record m { banned_peers = Sets.discard peer_id m.banned_peers }

unfoldable pub get_peer : List ℕ → PeerManager → Option Peer
get_peer peer_id m = Map.lookup peer_id m.peers

unfoldable pub get_peers : PeerManager → List Peer
get_peers m = values m.peers
  where
    values : List (List ℕ × Peer) → List Peer
    values [] = []
    values ((k, p) ∷ rest) = p ∷ values rest

unfoldable pub get_synced_peers : PeerManager → List Peer
get_synced_peers m = synced m.peers
  where
    synced : List (List ℕ × Peer) → List Peer
    synced [] = []
    synced ((k, p) ∷ rest) = let others = synced rest in if is_synced p then p ∷ others else others

unfoldable pub update_peer_status : List ℕ → PeerStatus → PeerManager → PeerManager
unfolding get_peer_mut
update_peer_status peer_id status = get_peer_mut peer_id (with_status status)

abbrev pub still_connected : List (List ℕ × Peer) → List (List ℕ × Peer)
still_connected [] = []
still_connected ((k, p) ∷ rest) =
    let kept = still_connected rest in if is_disconnected p.info.status then kept else (k, p) ∷ kept

unfoldable pub cleanup_disconnected_peers : PeerManager → PeerManager
cleanup_disconnected_peers m = record m { peers = still_connected m.peers }
