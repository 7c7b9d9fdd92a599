-- ===== src/Network/Peers/Tests.antt =====
-- The theorems on the peers at work: a manager with room for two.
use zkmips_zkvm_impl_in_rust.Base.{◌≡◌, refl, true, [], ◌∷◌, none, ok, nat_eq, bytes_eq}
use zkmips_zkvm_impl_in_rust.Base.Int.{negsuc, ◌+ℤ◌}
use zkmips_zkvm_impl_in_rust.Base.Map
use zkmips_zkvm_impl_in_rust.Network.Sets
use zkmips_zkvm_impl_in_rust.Network.Peer
use zkmips_zkvm_impl_in_rust.Network.Peer.{
  Peer, PingStats, update_latency, min_with, max_with, update_reputation, is_banned,
}
use zkmips_zkvm_impl_in_rust.Network.Peers
use zkmips_zkvm_impl_in_rust.Network.Peers.{
  PeerManager, add_peer, remove_peer, get_peer_mut, ban_peer,
}
use zkmips_zkvm_impl_in_rust.Network.Peers.Bounded
use zkmips_zkvm_impl_in_rust.Network.Peers.Bounded.{
  Call, adding, removing, banning, handle_all, handle_all-IsValid, banned_stays_out,
  reputation_ban_is_lost,
}

abbrev peer : Peer
peer = Peer.new (7 ∷ []) none 0

abbrev rooms : PeerManager
rooms = Peers.new 2

handle_all-IsValid_example :
    Bounded.IsValid (handle_all (adding peer ∷ removing (8 ∷ []) ∷ []) rooms)
handle_all-IsValid_example =
    handle_all-IsValid (adding peer ∷ removing (8 ∷ []) ∷ []) rooms (Bounded.new-IsValid 2)

abbrev one_peer : PeerManager
one_peer = (add_peer peer rooms).1

one_peer-IsValid : Bounded.IsValid one_peer
one_peer-IsValid = handle_all-IsValid (adding peer ∷ []) rooms (Bounded.new-IsValid 2)

reputation_ban_is_lost_example :
    (is_banned (update_reputation (negsuc 150) peer) ≡ true)
    × ((add_peer (update_reputation (negsuc 150) peer) (
          remove_peer (7 ∷ []) (get_peer_mut (7 ∷ []) (update_reputation (negsuc 150)) one_peer))).0
        ≡ ok tt)
unfolding Peer.new Peers.new add_peer Map.lookup Map.insert Map.remove Sets.contains
    Peer.saturating_add ◌+ℤ◌
reputation_ban_is_lost_example =
    reputation_ban_is_lost peer (negsuc 150) one_peer one_peer-IsValid refl refl
