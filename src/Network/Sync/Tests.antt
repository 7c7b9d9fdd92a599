-- ===== src/Network/Sync/Tests.antt =====
-- The theorems on the synchronisation at work: one peer, and one request that is answered.
use zkmips_zkvm_impl_in_rust.Base.{
  ◌≤◌, length, List, ◌≡◌, refl, true, [], ◌∷◌, ok, Outcome, ◌⊎◌, ◌≢◌, arith, nat_eq, bytes_eq, inl,
}
use zkmips_zkvm_impl_in_rust.Base.Map
use zkmips_zkvm_impl_in_rust.Network.Message.{NetworkError}
use zkmips_zkvm_impl_in_rust.Network.Sets
use zkmips_zkvm_impl_in_rust.Network.Sync.{
  SyncState, StateRequest, StateResponse, synchronizing, request_eq, new, handle_request,
  handle_response, handle_peer_disconnected, start_sync, process_sync_queue, check_timeouts,
  check_peers, requeue, assign, drain, failures,
}
use zkmips_zkvm_impl_in_rust.Network.Sync.Batches.{
  Call, starting, requesting, responding, disconnecting, call, calls, calls-Batched,
}
use zkmips_zkvm_impl_in_rust.Network.Sync.Requests.{
  tracked, with_peer, handle_request_lem, handle_response_lem,
}

abbrev request : StateRequest
request = record { block_number = 1; account = []; storage_keys = []; timestamp = 5 }

abbrev response : StateResponse
response = record { block_number = 1; account = []; storage_keys = [] }

unfoldable started : SyncState
started = record (new 0) { status = synchronizing 0 0 1; pending_requests = (7 ∷ [], []) ∷ [] }

unfoldable asked : SyncState
asked = record started { pending_requests = (7 ∷ [], request ∷ []) ∷ [] }

unfoldable answered : SyncState
answered = record asked {
  status = synchronizing 1 0 1;
  last_progress = 9;
  completed_requests = record request { timestamp = 9 } ∷ [];
}

started-asked : handle_request 10 6 request started ≡ (ok tt, asked)
unfolding started asked new handle_request process_sync_queue check_timeouts check_peers requeue
    assign drain Sets.contains Map.lookup
started-asked = refl

asked-answered : handle_response 10 9 response asked ≡ (ok tt, answered)
unfolding started asked answered new handle_response process_sync_queue check_timeouts check_peers
    requeue assign drain Sets.contains Sets.add Sets.discard
asked-answered = refl

handle_request_lem_example : tracked request asked ≡ true
unfolding started new Sets.contains
handle_request_lem_example =
    handle_request_lem 10 6 request request started asked started-asked refl (inl refl)

abbrev answered_well : Outcome NetworkError Unit
answered_well = ok tt

-- The answer came, and the peer still has the request.
handle_response_lem_example :
    (tracked request answered ≡ true)
    ⊎ ((answered_well ≢ ok tt) × (3 ≤ failures request answered.failed_requests))
unfolding asked started new Sets.contains with_peer
handle_response_lem_example =
    handle_response_lem 10 9 response request asked answered answered_well asked-answered
      (omega arith) refl refl

-- A batch of one request: the second request waits, also when the peer is gone and comes back.
abbrev busy : List Call
busy =
    starting 0 (7 ∷ [])
    ∷ requesting 5 request
    ∷ requesting 6 (record request { timestamp = 6 })
    ∷ disconnecting (7 ∷ [])
    ∷ starting 7 (7 ∷ [])
    ∷ responding 8 response
    ∷ []

calls-Batched_example : length (record request { timestamp = 6 } ∷ []) ≤ 1
unfolding calls call new start_sync handle_request handle_response handle_peer_disconnected
    process_sync_queue check_timeouts check_peers requeue assign drain Sets.contains Sets.add
    Sets.discard Map.lookup Map.insert Map.remove
calls-Batched_example = calls-Batched 1 0 busy (7 ∷ []) (record request { timestamp = 6 } ∷ []) refl
