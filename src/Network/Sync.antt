-- ===== src/Network/Sync.antt =====
-- src/network/sync.rs: `StateSync`. Times are in milliseconds, and `now` is what the clock says
-- during a call. Sending a request is left to the network layer, as the source leaves it. The
-- counters of failures stay below 2 ^ 32.
mod Tests
pub mod Requests
pub mod Batches
use zkmips_zkvm_impl_in_rust.Base.{
  ℕ, ◌+◌, ◌-◌, ◌≡◌, Bool, true, false, not, ◌&&◌, List, [], ◌∷◌, ◌++◌, Option, none, some, ltb, leb,
  eqb, eqb_iff, bytes_eq, nat_eq, Eq, ◌==◌, ◌↔◌, arith, if◌then◌else◌, length, Outcome, ok, err,
  panic, Exec, pure, ◌>>=◌, ◌>>◌,
}
use zkmips_zkvm_impl_in_rust.Base.Map
use zkmips_zkvm_impl_in_rust.Network.Sets
use zkmips_zkvm_impl_in_rust.Network.Message.{NetworkError, request_failed_after}

pub data SyncStatus : Type 0 where
  idle : SyncStatus
  -- The current block, the target block and the number of peers.
  synchronizing : ℕ → ℕ → ℕ → SyncStatus
  sync_timed_out : SyncStatus

pub record StateRequest : Type 0 where
  pub block_number : ℕ
  pub account : List ℕ
  pub storage_keys : List (List ℕ)
  pub timestamp : ℕ

abbrev pub keys_beq : List (List ℕ) → List (List ℕ) → Bool
keys_beq [] [] = true
keys_beq (x ∷ xs) (y ∷ ys) = (x == y) && keys_beq xs ys
keys_beq _ _ = false

pub keys_beq_iff : (xs ys : List (List ℕ)) → (keys_beq xs ys ≡ true) ↔ (xs ≡ ys)
keys_beq_iff [] [] = ground arith
keys_beq_iff [] (y ∷ ys) = ground arith
keys_beq_iff (x ∷ xs) [] = ground arith
keys_beq_iff (x ∷ xs) (y ∷ ys) = ground (arith, bytes_eq.beq_iff x y, keys_beq_iff xs ys)

-- The derived equality, of all four fields.
abbrev pub request_beq : StateRequest → StateRequest → Bool
request_beq a b =
    eqb a.block_number b.block_number
    && ((a.account == b.account)
        && (keys_beq a.storage_keys b.storage_keys && eqb a.timestamp b.timestamp))

pub request_beq_iff : (a b : StateRequest) → (request_beq a b ≡ true) ↔ (a ≡ b)
request_beq_iff a b = ground (
  arith,
  eqb_iff a.block_number b.block_number,
  bytes_eq.beq_iff a.account b.account,
  keys_beq_iff a.storage_keys b.storage_keys,
)

instance abbrev pub request_eq : Eq StateRequest
request_eq = record { beq = request_beq; beq_iff = request_beq_iff }

-- What of a response the code reads.
pub record StateResponse : Type 0 where
  pub block_number : ℕ
  pub account : List ℕ
  pub storage_keys : List (List ℕ)

pub record SyncState : Type 0 where
  pub status : SyncStatus
  pub pending_requests : List (List ℕ × List StateRequest)
  pub completed_requests : List StateRequest
  pub failed_requests : List (StateRequest × ℕ)
  pub sync_queue : List StateRequest
  pub last_progress : ℕ

abbrev pub Op : Type 0 → Type 0
Op A = Exec NetworkError SyncState A

abbrev pub timeout : ℕ
timeout = 30_000

abbrev pub retry_limit : ℕ
retry_limit = 3

abbrev pub sync_limit : ℕ
sync_limit = 300_000

unfoldable pub new : ℕ → SyncState
new now = record {
  status = idle;
  pending_requests = [];
  completed_requests = [];
  failed_requests = [];
  sync_queue = [];
  last_progress = now;
}

abbrev pub begun : ℕ → SyncState → SyncState
begun now s = elim s.status [
  | idle ↦ record s { status = synchronizing 0 0 1; last_progress = now }
  | _ ↦ s
]

-- `entry(peer_id).or_default()`
unfoldable pub start_sync : ℕ → List ℕ → Op Unit
start_sync now peer_id s =
    let t : SyncState = begun now s in
    elim (Map.lookup peer_id t.pending_requests) [
      | some requests ↦ (ok tt, t)
      | none ↦ (ok tt, record t { pending_requests = Map.insert peer_id [] t.pending_requests })
    ]

-- `requests.retain(|r| r != &request)`
abbrev pub without : StateRequest → List StateRequest → List StateRequest
without request requests = Sets.discard request requests

abbrev pub timed_out : ℕ → List StateRequest → List StateRequest
timed_out now [] = []
timed_out now (r ∷ rest) =
    let others = timed_out now rest in
    if ltb timeout (now - r.timestamp) then r ∷ others else others

abbrev pub failures : StateRequest → List (StateRequest × ℕ) → ℕ
failures r m = elim (Map.lookup r m) [ some n ↦ n | none ↦ 0 ]

-- The inner loop: each late request is counted, taken from the peer and queued again.
pub record Late : Type 0 where
  pub requests : List StateRequest
  pub failed : List (StateRequest × ℕ)
  pub queue : List StateRequest

unfoldable pub requeue : List StateRequest → Late → Late
requeue [] l = l
requeue (r ∷ rest) l = requeue rest (record {
  requests = without r l.requests;
  failed = Map.insert r (failures r l.failed + 1) l.failed;
  queue = l.queue ++ (r ∷ []);
})

pub record Checked : Type 0 where
  pub pending : List (List ℕ × List StateRequest)
  pub failed : List (StateRequest × ℕ)
  pub queue : List StateRequest

-- The outer loop, over the peers.
unfoldable pub check_peers :
    ℕ → List (List ℕ × List StateRequest) → List (StateRequest × ℕ) → List StateRequest → Checked
unfolding requeue
check_peers now [] failed queue = record { pending = []; failed = failed; queue = queue }
check_peers now ((peer_id, requests) ∷ rest) failed queue =
    let l : Late =
      requeue (timed_out now requests)
        (record { requests = requests; failed = failed; queue = queue }) in
    let c : Checked = check_peers now rest l.failed l.queue in
    record c { pending = (peer_id, l.requests) ∷ c.pending }

abbrev pub overdue : ℕ → SyncState → SyncStatus
overdue now s = elim s.status [
  | synchronizing current target peers ↦
      if ltb sync_limit (now - s.last_progress) then sync_timed_out else s.status
  | _ ↦ s.status
]

unfoldable pub check_timeouts : ℕ → Op Unit
unfolding check_peers
check_timeouts now s =
    let c : Checked = check_peers now s.pending_requests s.failed_requests s.sync_queue in
    (
      ok tt,
      record s {
        pending_requests = c.pending;
        failed_requests = c.failed;
        sync_queue = c.queue;
        status = overdue now s;
      },
    )

-- The first peer with room takes the request.
unfoldable pub assign :
    ℕ
    → StateRequest
    → List (List ℕ × List StateRequest)
    → Option (List (List ℕ × List StateRequest))
assign batch_size r [] = none
assign batch_size r ((peer_id, requests) ∷ rest) =
    let later = assign batch_size r rest in
    if ltb (length requests) batch_size
    then some ((peer_id, requests ++ (r ∷ [])) ∷ rest)
    else elim later [ none ↦ none | some more ↦ some ((peer_id, requests) ∷ more) ]

-- The loop that empties the queue. A request that failed too often ends it with an error and is
-- dropped; without a peer the request goes to the back and the loop ends.
unfoldable pub drain : ℕ → List StateRequest → SyncState → Outcome NetworkError Unit × SyncState
unfolding assign
drain batch_size [] s = (ok tt, record s { sync_queue = [] })
drain batch_size (r ∷ rest) s = elim (Sets.contains r s.completed_requests) [
  | true ↦ drain batch_size rest s
  | false ↦ elim (leb retry_limit (failures r s.failed_requests)) [
    | true ↦
        (err (request_failed_after (failures r s.failed_requests)), record s { sync_queue = rest })
    | false ↦ elim (assign batch_size r s.pending_requests) [
      | some pending ↦ drain batch_size rest (record s { pending_requests = pending })
      | none ↦ (ok tt, record s { sync_queue = rest ++ (r ∷ []) })
    ]
  ]
]

abbrev pub no_requests : List (List ℕ × List StateRequest) → Bool
no_requests [] = true
no_requests ((peer_id, []) ∷ rest) = no_requests rest
no_requests ((peer_id, r ∷ requests) ∷ rest) = false

abbrev pub is_empty : List StateRequest → Bool
is_empty [] = true
is_empty (r ∷ rest) = false

abbrev pub settle : Op Unit
settle s =
    if is_empty s.sync_queue && no_requests s.pending_requests
    then (ok tt, record s { status = idle })
    else (ok tt, s)

unfoldable pub process_sync_queue : ℕ → ℕ → Op Unit
process_sync_queue batch_size now = do
  check_timeouts now
  λ s. drain batch_size s.sync_queue s
  settle

unfoldable pub handle_request : ℕ → ℕ → StateRequest → Op Unit
handle_request batch_size now request = do
  λ s. (ok tt, record s { sync_queue = s.sync_queue ++ (request ∷ []) })
  process_sync_queue batch_size now

abbrev pub retain_all :
    StateRequest → List (List ℕ × List StateRequest) → List (List ℕ × List StateRequest)
retain_all request [] = []
retain_all request ((peer_id, requests) ∷ rest) =
    (peer_id, without request requests) ∷ retain_all request rest

abbrev pub progressed : ℕ → ℕ → SyncState → SyncState
progressed now block_number s = elim s.status [
  | synchronizing current target peers ↦
      if ltb current block_number
      then record s { status = synchronizing block_number target peers; last_progress = now }
      else s
  | _ ↦ s
]

-- The request that is taken to be answered is stamped with the time of the answer.
abbrev pub request_of : ℕ → StateResponse → StateRequest
request_of now response = record {
  block_number = response.block_number;
  account = response.account;
  storage_keys = response.storage_keys;
  timestamp = now;
}

abbrev pub completed : ℕ → StateResponse → Op Unit
completed now response s = (
  ok tt,
  progressed now response.block_number (record s {
    completed_requests = Sets.add (request_of now response) s.completed_requests;
    pending_requests = retain_all (request_of now response) s.pending_requests;
  }),
)

unfoldable pub handle_response : ℕ → ℕ → StateResponse → Op Unit
handle_response batch_size now response = do
  completed now response
  process_sync_queue batch_size now

abbrev pub fewer_peers : SyncStatus → SyncStatus
fewer_peers (synchronizing current target peers) = synchronizing current target (peers - 1)
fewer_peers status = status

unfoldable pub handle_peer_disconnected : List ℕ → Op Unit
handle_peer_disconnected peer_id s = elim (Map.lookup peer_id s.pending_requests) [
  | none ↦ (ok tt, record s { status = fewer_peers s.status })
  | some requests ↦ (
    ok tt,
    record s {
      status = fewer_peers s.status;
      pending_requests = Map.remove peer_id s.pending_requests;
      sync_queue = s.sync_queue ++ requests;
    },
  )
]
