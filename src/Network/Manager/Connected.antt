-- ===== src/Network/Manager/Connected.antt =====
-- The peers of the manager and those of the synchronisation.
use zkmips_zkvm_impl_in_rust.Base.{
  ℕ, ◌≤◌, ◌<◌, ◌≡◌, refl, sym, ap, ◌∙◌, true, false, List, [], ◌∷◌, ◌++◌, some, leb, bytes_eq,
  nat_eq, ◌==◌, if◌then◌else◌, length, arith, Option-cases, Bool-cases, inl, inr,
}
use zkmips_zkvm_impl_in_rust.Base.Map
use zkmips_zkvm_impl_in_rust.Base.Map.{lookup, contains_key}
use zkmips_zkvm_impl_in_rust.Network.Sets
use zkmips_zkvm_impl_in_rust.Network.Message.{Codec}
use zkmips_zkvm_impl_in_rust.Network.Peer.{PeerInfo}
use zkmips_zkvm_impl_in_rust.Network.Sync
use zkmips_zkvm_impl_in_rust.Network.Sync.{
  SyncState, StateRequest, request_eq, StateResponse, Late, requeue, check_peers, check_timeouts,
  timed_out, failures, assign, drain, process_sync_queue, handle_request, handle_response,
  retain_all, completed, request_of, retry_limit, start_sync,
}
use zkmips_zkvm_impl_in_rust.Network.Manager.{
  NetworkManager, MessageType, block, transaction, state_request, state_response, ping, pong,
  handshake, handle_message, handle_peer_connected, handle_peer_disconnected, connected_info,
}

abbrev pub Requests : Type 0
Requests = List (List ℕ × List StateRequest)

contains_key-assign :
    (batch_size : ℕ) (r : StateRequest) (i : List ℕ) (p q : Requests)
    → assign batch_size r p ≡ some q
    → contains_key i q ≡ contains_key i p
unfolding assign contains_key lookup
contains_key-assign batch_size r i [] q e = cc
contains_key-assign batch_size r i ((k, l) ∷ p) q e = elim (Option-cases (assign batch_size r p)) [
  | inl n ↦ ground arith
  | inr (more, h) ↦ ground (arith, contains_key-assign batch_size r i p more h)
]

contains_key-drain :
    (batch_size : ℕ) (i : List ℕ) (queue : List StateRequest) (s : SyncState)
    → contains_key i (drain batch_size queue s).1.pending_requests
      ≡ contains_key i s.pending_requests
unfolding drain
contains_key-drain batch_size i [] s = refl
contains_key-drain batch_size i (r ∷ queue) s =
    elim (Bool-cases (Sets.contains r s.completed_requests)) [
      | inl old ↦ ground (arith, contains_key-drain batch_size i queue s)
      | inr fresh ↦ elim (Option-cases (assign batch_size r s.pending_requests)) [
        | inl n ↦ ground arith
        | inr (p, e) ↦ ground (
          arith,
          contains_key-assign batch_size r i s.pending_requests p e,
          contains_key-drain batch_size i queue (record s { pending_requests = p }),
        )
      ]
    ]

contains_key-check_peers :
    (now : ℕ) (i : List ℕ) (p : Requests) (failed : List (StateRequest × ℕ))
    (queue : List StateRequest)
    → contains_key i (check_peers now p failed queue).pending ≡ contains_key i p
unfolding check_peers contains_key lookup
contains_key-check_peers now i [] failed queue = refl
contains_key-check_peers now i ((k, l) ∷ p) failed queue =
    let late : Late =
      requeue (timed_out now l) (record { requests = l; failed = failed; queue = queue }) in
    ground (arith, contains_key-check_peers now i p late.failed late.queue)

contains_key-process_sync_queue :
    (batch_size now : ℕ) (i : List ℕ) (s : SyncState)
    → contains_key i (process_sync_queue batch_size now s).1.pending_requests
      ≡ contains_key i s.pending_requests
unfolding process_sync_queue check_timeouts
contains_key-process_sync_queue batch_size now i s =
    let u : SyncState = (check_timeouts now s).1 in
    ground (
      arith,
      contains_key-drain batch_size i u.sync_queue u,
      contains_key-check_peers now i s.pending_requests s.failed_requests s.sync_queue,
    )

contains_key-retain_all :
    (r : StateRequest) (i : List ℕ) (p : Requests)
    → contains_key i (retain_all r p) ≡ contains_key i p
unfolding contains_key lookup
contains_key-retain_all r i [] = refl
contains_key-retain_all r i ((k, l) ∷ p) = ground (arith, contains_key-retain_all r i p)

-- What the manager keeps.
pub record IsValid (m : NetworkManager) : Type 0 where
  pub bounded : length m.peers ≤ m.config.max_peers
  pub together :
      (i : List ℕ) → contains_key i m.state_sync.pending_requests ≡ contains_key i m.peers

message-IsValid :
    (codec : Codec) (now : ℕ) (t : MessageType) (m : NetworkManager)
    → IsValid m
    → IsValid (handle_message codec now t m).1
unfolding handle_message handle_request handle_response
message-IsValid codec now (block b) m v = record { bounded = v.bounded; together = v.together }
message-IsValid codec now (transaction tx) m v = record {
  bounded = v.bounded;
  together = v.together;
}
message-IsValid codec now (state_request r) m v = record {
  bounded = v.bounded;
  together = λ i.
      contains_key-process_sync_queue m.config.sync_batch_size now i
        (record m.state_sync { sync_queue = m.state_sync.sync_queue ++ (r ∷ []) })
      ∙ v.together i;
}
message-IsValid codec now (state_response r) m v = record {
  bounded = v.bounded;
  together = λ i.
      contains_key-process_sync_queue m.config.sync_batch_size now i
        (completed now r m.state_sync).1
      ∙ (ground (
        arith,
        contains_key-retain_all (request_of now r) i m.state_sync.pending_requests,
        v.together i,
      ));
}
message-IsValid codec now ping m v = v
message-IsValid codec now pong m v = v
message-IsValid codec now (handshake h) m v = v

contains_key-start_sync :
    (now : ℕ) (i j : List ℕ) (s : SyncState)
    → contains_key j (start_sync now i s).1.pending_requests
      ≡ (if i == j then true else contains_key j s.pending_requests)
unfolding start_sync contains_key
contains_key-start_sync now i j s =
    ground (arith, Map.lookup-insert i j [] s.pending_requests, bytes_eq.beq_iff i j)

contains_key-handle_peer_disconnected :
    (i j : List ℕ) (s : SyncState)
    → contains_key j (Sync.handle_peer_disconnected i s).1.pending_requests
      ≡ (if i == j then false else contains_key j s.pending_requests)
unfolding Sync.handle_peer_disconnected contains_key
contains_key-handle_peer_disconnected i j s =
    ground (arith, Map.lookup-remove i j s.pending_requests, bytes_eq.beq_iff i j)

length_inserted :
    (i : List ℕ) (p : PeerInfo) (l : List (List ℕ × PeerInfo)) (most : ℕ)
    → length l < most
    → length (Map.insert i p l) ≤ most
unfolding Map.insert
length_inserted i p l most lt = omega (arith, Map.length-remove-le i l)

connected-IsValid :
    (now : ℕ) (i : List ℕ) (m : NetworkManager)
    → IsValid m
    → IsValid (handle_peer_connected now i m).1
unfolding handle_peer_connected
connected-IsValid now i m v = elim (Bool-cases (leb m.config.max_peers (length m.peers))) [
  | inl full ↦ rw (full, handle_peer_connected) v
  | inr room ↦
      rw (room, handle_peer_connected)
        (record {
          bounded =
              length_inserted i (connected_info now i) m.peers m.config.max_peers (ground arith);
          together = λ j.
              contains_key-start_sync now i j m.state_sync
              ∙ (ap (λ x. if i == j then true else x) (v.together j)
                  ∙ sym (Map.contains_key-insert i j (connected_info now i) m.peers));
        })
]

disconnected-IsValid :
    (i : List ℕ) (m : NetworkManager) → IsValid m → IsValid (handle_peer_disconnected i m).1
unfolding handle_peer_disconnected contains_key
disconnected-IsValid i m v = record {
  bounded = omega (arith, v.bounded, Map.length-remove-le i m.peers);
  together = λ j.
      contains_key-handle_peer_disconnected i j m.state_sync
      ∙ ground (arith, v.together j, Map.lookup-remove i j m.peers);
}

-- What reaches the manager, at the time at which it does.
pub data Event : Type 0 where
  received : ℕ → MessageType → Event
  connecting : ℕ → List ℕ → Event
  disconnecting : List ℕ → Event

abbrev pub handle_all : Codec → List Event → NetworkManager → NetworkManager
handle_all codec [] m = m
handle_all codec (received now t ∷ es) m = handle_all codec es (handle_message codec now t m).1
handle_all codec (connecting now i ∷ es) m = handle_all codec es (handle_peer_connected now i m).1
handle_all codec (disconnecting i ∷ es) m = handle_all codec es (handle_peer_disconnected i m).1

-- From a state in which this holds, whatever is received, and whatever the calls answer: there are
-- never more peers than the limit, and the synchronisation has a list of requests for exactly
-- those peers that are connected.
pub connected_peers :
    (codec : Codec) (es : List Event) (m : NetworkManager)
    → IsValid m
    → IsValid (handle_all codec es m)
connected_peers codec [] m v = v
connected_peers codec (received now t ∷ es) m v =
    connected_peers codec es (handle_message codec now t m).1 (message-IsValid codec now t m v)
connected_peers codec (connecting now i ∷ es) m v =
    connected_peers codec es (handle_peer_connected now i m).1 (connected-IsValid now i m v)
connected_peers codec (disconnecting i ∷ es) m v =
    connected_peers codec es (handle_peer_disconnected i m).1 (disconnected-IsValid i m v)
