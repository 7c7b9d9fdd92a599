-- ===== src/Network/Manager.antt =====
-- src/network/mod.rs: `NetworkManager` and what it does with messages and peers. The swarm of libp2p,
-- the channels and the event loop are left out; `now` is what the clock says during a call.
pub mod Connected
use zkmips_zkvm_impl_in_rust.Base.{
  ℕ, Bool, List, [], ◌∷◌, Option, none, some, leb, bytes_eq, if◌then◌else◌, length, Outcome, ok,
  err, panic, Exec, ◌>>=◌, ◌>>◌,
}
use zkmips_zkvm_impl_in_rust.Base.Map
use zkmips_zkvm_impl_in_rust.Network.Message.{
  Transaction, Block, Codec, NetworkError, max_peers_reached,
}
use zkmips_zkvm_impl_in_rust.Network.Consensus
use zkmips_zkvm_impl_in_rust.Network.Consensus.{ConsensusConfig, ConsensusState}
use zkmips_zkvm_impl_in_rust.Network.Peer
use zkmips_zkvm_impl_in_rust.Network.Peer.{PeerInfo}
use zkmips_zkvm_impl_in_rust.Network.Sync
use zkmips_zkvm_impl_in_rust.Network.Sync.{SyncState, SyncStatus, StateRequest, StateResponse}

pub record NetworkConfig : Type 0 where
  pub max_peers : ℕ
  pub sync_batch_size : ℕ
  pub consensus_config : ConsensusConfig

pub record NetworkManager : Type 0 where
  pub peers : List (List ℕ × PeerInfo)
  pub state_sync : SyncState
  pub consensus : ConsensusState
  pub config : NetworkConfig

pub record HandshakeData : Type 0 where
  pub version : ℕ
  pub chain_id : ℕ
  pub genesis_hash : List ℕ
  pub head_hash : List ℕ
  pub head_number : ℕ

pub data MessageType : Type 0 where
  block : Block → MessageType
  transaction : Transaction → MessageType
  state_request : StateRequest → MessageType
  state_response : StateResponse → MessageType
  ping pong : MessageType
  handshake : HandshakeData → MessageType

abbrev pub Op : Type 0 → Type 0
Op A = Exec NetworkError NetworkManager A

unfoldable pub new : ℕ → NetworkConfig → NetworkManager
unfolding Sync.new Consensus.new
new now config = record {
  peers = [];
  state_sync = Sync.new now;
  consensus = Consensus.new now;
  config = config;
}

-- Calls of the parts.
abbrev pub on_sync : Exec NetworkError SyncState Unit → Op Unit
on_sync f m = ((f m.state_sync).0, record m { state_sync = (f m.state_sync).1 })

abbrev pub on_consensus : Exec NetworkError ConsensusState Unit → Op Unit
on_consensus f m = ((f m.consensus).0, record m { consensus = (f m.consensus).1 })

unfoldable pub handle_message : Codec → ℕ → MessageType → Op Unit
handle_message codec now (block b) m = on_consensus (Consensus.process_block codec b) m
handle_message codec now (transaction tx) m = on_consensus (Consensus.process_transaction tx) m
handle_message codec now (state_request r) m =
    on_sync (Sync.handle_request m.config.sync_batch_size now r) m
handle_message codec now (state_response r) m =
    on_sync (Sync.handle_response m.config.sync_batch_size now r) m
handle_message codec now ping m = (ok tt, m)
handle_message codec now pong m = (ok tt, m)
handle_message codec now (handshake h) m = (ok tt, m)

abbrev pub connected_info : ℕ → List ℕ → PeerInfo
connected_info now peer_id = record {
  id = peer_id;
  addr = none;
  status = Peer.connected;
  last_seen = now;
}

unfoldable pub handle_peer_connected : ℕ → List ℕ → Op Unit
handle_peer_connected now peer_id m =
    if leb m.config.max_peers (length m.peers)
    then (err max_peers_reached, m)
    else on_sync (Sync.start_sync now peer_id)
        (record m { peers = Map.insert peer_id (connected_info now peer_id) m.peers })

unfoldable pub handle_peer_disconnected : List ℕ → Op Unit
handle_peer_disconnected peer_id m =
    on_sync (Sync.handle_peer_disconnected peer_id)
      (record m { peers = Map.remove peer_id m.peers })

unfoldable pub get_sync_status : NetworkManager → SyncStatus
get_sync_status m = m.state_sync.status
