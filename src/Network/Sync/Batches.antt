-- ===== src/Network/Sync/Batches.antt =====
-- How much a peer has to do at most, whatever calls of src/network/sync.rs come in whatever order.
use zkmips_zkvm_impl_in_rust.Base.{
  ℕ, suc, ◌≤◌, ◌≡◌, refl, sym, subst, List, [], ◌∷◌, ◌++◌, some, leb, nat_eq, bytes_eq, arith,
  length, All, Outcome, Option-cases, Bool-cases, inl, inr,
}
use zkmips_zkvm_impl_in_rust.Base.Map
use zkmips_zkvm_impl_in_rust.Network.Message.{NetworkError}
use zkmips_zkvm_impl_in_rust.Network.Sets
use zkmips_zkvm_impl_in_rust.Network.Sync.{
  SyncState, StateRequest, request_eq, StateResponse, Late, requeue, check_peers, check_timeouts,
  timed_out, failures, assign, drain, process_sync_queue, handle_request, handle_response,
  start_sync, handle_peer_disconnected, new, begun, progressed, retain_all, completed, request_of,
  retry_limit,
}

-- What is asked of a synchronisation, at its time.
pub data Call : Type 0 where
  starting : ℕ → List ℕ → Call
  requesting : ℕ → StateRequest → Call
  responding : ℕ → StateResponse → Call
  disconnecting : List ℕ → Call

unfoldable pub call : ℕ → Call → SyncState → Outcome NetworkError Unit × SyncState
unfolding start_sync handle_request handle_response handle_peer_disconnected
call batch_size (starting now peer_id) s = start_sync now peer_id s
call batch_size (requesting now request) s = handle_request batch_size now request s
call batch_size (responding now response) s = handle_response batch_size now response s
call batch_size (disconnecting peer_id) s = handle_peer_disconnected peer_id s

-- The calls one after the other, also after one that fails.
unfoldable pub calls : ℕ → List Call → SyncState → SyncState
calls batch_size [] s = s
calls batch_size (c ∷ l) s = calls batch_size l (call batch_size c s).1

-- No peer has more requests than a batch.
abbrev pub Batched : ℕ → List (List ℕ × List StateRequest) → Type 0
Batched n p = All (λ e. length e.1 ≤ n) p

length-append : (l : List StateRequest) (r : StateRequest) → length (l ++ (r ∷ [])) ≡ suc (length l)
length-append [] r = refl
length-append (x ∷ l) r = ground (arith, length-append l r)

length-discard_le :
    (r : StateRequest) (l : List StateRequest) → length (Sets.discard r l) ≤ length l
unfolding Sets.discard
length-discard_le r [] = omega arith
length-discard_le r (x ∷ l) = ground (arith, length-discard_le r l)

assign-Batched :
    (n : ℕ) (r : StateRequest) (p q : List (List ℕ × List StateRequest))
    → assign n r p ≡ some q
    → Batched n p
    → Batched n q
unfolding assign
assign-Batched n r [] q e b = cc
assign-Batched n r ((i, l) ∷ p) q e (b, more) = elim (Option-cases (assign n r p)) [
  | inl full ↦ ground (arith, length-append l r)
  | inr (p', h) ↦ ground (arith, length-append l r, assign-Batched n r p p' h)
]

drain-Batched :
    (n : ℕ) (queue : List StateRequest) (s : SyncState)
    → Batched n s.pending_requests
    → Batched n (drain n queue s).1.pending_requests
unfolding drain
drain-Batched n [] s b = b
drain-Batched n (r ∷ queue) s b = elim (Bool-cases (Sets.contains r s.completed_requests)) [
  | inl old ↦ rw (old, drain) (drain-Batched n queue s b)
  | inr fresh ↦ elim (Bool-cases (leb retry_limit (failures r s.failed_requests))) [
    | inl failed ↦ rw (fresh, failed, drain) b
    | inr tried ↦ elim (Option-cases (assign n r s.pending_requests)) [
      | inl full ↦ rw (fresh, tried, full, drain) b
      | inr (p, q) ↦
          rw (fresh, tried, q, drain)
            (drain-Batched n queue (record s { pending_requests = p })
              (assign-Batched n r s.pending_requests p q b))
    ]
  ]
]

requeue-length :
    (l : List StateRequest) (c : Late) → length (requeue l c).requests ≤ length c.requests
unfolding requeue
requeue-length [] c = omega arith
requeue-length (r ∷ l) c = omega (arith, requeue-length l _, length-discard_le r c.requests)

check_peers-Batched :
    (now n : ℕ) (p : List (List ℕ × List StateRequest)) (failed : List (StateRequest × ℕ))
    (queue : List StateRequest)
    → Batched n p
    → Batched n (check_peers now p failed queue).pending
unfolding check_peers
check_peers-Batched now n [] failed queue b = tt
check_peers-Batched now n ((i, l) ∷ p) failed queue (b, more) =
    let start : Late = record { requests = l; failed = failed; queue = queue } in
    let late : Late = requeue (timed_out now l) start in
    (
      omega (arith, requeue-length (timed_out now l) start, b),
      check_peers-Batched now n p late.failed late.queue more,
    )

process_sync_queue-Batched :
    (n now : ℕ) (s : SyncState)
    → Batched n s.pending_requests
    → Batched n (process_sync_queue n now s).1.pending_requests
unfolding process_sync_queue check_timeouts
process_sync_queue-Batched n now s b =
    let u : SyncState = (check_timeouts now s).1 in
    let checked : Batched n u.pending_requests =
      check_peers-Batched now n s.pending_requests s.failed_requests s.sync_queue b in
    ground (arith, drain-Batched n u.sync_queue u checked)

retain_all-Batched :
    (n : ℕ) (r : StateRequest) (p : List (List ℕ × List StateRequest))
    → Batched n p
    → Batched n (retain_all r p)
retain_all-Batched n r [] b = tt
retain_all-Batched n r ((i, l) ∷ p) (b, more) =
    (omega (arith, length-discard_le r l, b), retain_all-Batched n r p more)

progressed-pending :
    (now block_number : ℕ) (s : SyncState)
    → (progressed now block_number s).pending_requests ≡ s.pending_requests
progressed-pending now block_number s = ground arith

begun-pending : (now : ℕ) (s : SyncState) → (begun now s).pending_requests ≡ s.pending_requests
begun-pending now s = ground arith

start_sync-Batched :
    (n now : ℕ) (peer_id : List ℕ) (s : SyncState)
    → Batched n s.pending_requests
    → Batched n (start_sync now peer_id s).1.pending_requests
unfolding start_sync Map.insert
start_sync-Batched n now peer_id s b =
    let p = (begun now s).pending_requests in
    let bp : Batched n p = subst (Batched n) (sym (begun-pending now s)) b in
    elim (Option-cases (Map.lookup peer_id p)) [
      | inl new_peer ↦
          rw (new_peer, start_sync) (omega arith, Map.All-remove (λ e. length e.1 ≤ n) peer_id p bp)
      | inr (requests, known) ↦ rw (known, start_sync) bp
    ]

handle_peer_disconnected-Batched :
    (n : ℕ) (peer_id : List ℕ) (s : SyncState)
    → Batched n s.pending_requests
    → Batched n (handle_peer_disconnected peer_id s).1.pending_requests
unfolding handle_peer_disconnected
handle_peer_disconnected-Batched n peer_id s b =
    elim (Option-cases (Map.lookup peer_id s.pending_requests)) [
      | inl stranger ↦ rw (stranger, handle_peer_disconnected) b
      | inr (requests, known) ↦
          rw (known, handle_peer_disconnected)
            (Map.All-remove (λ e. length e.1 ≤ n) peer_id s.pending_requests b)
    ]

call-Batched :
    (n : ℕ) (c : Call) (s : SyncState)
    → Batched n s.pending_requests
    → Batched n (call n c s).1.pending_requests
unfolding call
call-Batched n (starting now peer_id) s b = start_sync-Batched n now peer_id s b
call-Batched n (requesting now request) s b = process_sync_queue-Batched n now _ b
call-Batched n (responding now response) s b =
    process_sync_queue-Batched n now (completed now response s).1 (
      subst (Batched n) (sym (progressed-pending now response.block_number _))
        (retain_all-Batched n (request_of now response) s.pending_requests b))
call-Batched n (disconnecting peer_id) s b = handle_peer_disconnected-Batched n peer_id s b

-- After any calls, answered or failed, in any order and at any times, from a new synchronisation on,
-- no peer has more requests to answer than the batch size.
pub calls-Batched :
    (n now : ℕ) (l : List Call) (peer_id : List ℕ) (requests : List StateRequest)
    → Map.lookup peer_id (calls n l (new now)).pending_requests ≡ some requests
    → length requests ≤ n
unfolding new calls
calls-Batched n now l peer_id requests h =
    Map.All-lookup (λ r. length r ≤ n) peer_id (calls n l (new now)).pending_requests requests
      (go l (new now) tt) h
  where
    go :
        (l : List Call) (s : SyncState)
        → Batched n s.pending_requests
        → Batched n (calls n l s).pending_requests
    go [] s b = b
    go (c ∷ l) s b = go l (call n c s).1 (call-Batched n c s b)
