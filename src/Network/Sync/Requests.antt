-- ===== src/Network/Sync/Requests.antt =====
-- Where the requests are: in the queue or with a peer, through every call that does not fail.
use zkmips_zkvm_impl_in_rust.Base.{
  ℕ, ◌<◌, ◌≤◌, ◌≢◌, Outcome, ap, ◌∙◌, ◌≡◌, refl, Bool, true, false, ◌||◌, List, [], ◌∷◌, ◌++◌, some,
  leb, bytes_eq, nat_eq, ◌==◌, arith, if◌then◌else◌, ok, Option-cases, Bool-cases, inl, inr, ◌⊎◌,
}
use zkmips_zkvm_impl_in_rust.Network.Message.{NetworkError}
use zkmips_zkvm_impl_in_rust.Network.Sets
use zkmips_zkvm_impl_in_rust.Network.Sets.{contains}
use zkmips_zkvm_impl_in_rust.Network.Sync.{
  SyncState, StateRequest, request_eq, StateResponse, Late, requeue, check_peers, check_timeouts,
  timed_out, failures, assign, drain, process_sync_queue, handle_request, handle_response,
  retain_all, completed, request_of, retry_limit,
}

-- Some peer has the request.
unfoldable pub with_peer : StateRequest → List (List ℕ × List StateRequest) → Bool
with_peer r [] = false
with_peer r ((peer_id, requests) ∷ rest) =
    let others = with_peer r rest in if contains r requests then true else others

abbrev pub tracked : StateRequest → SyncState → Bool
tracked r s = contains r s.sync_queue || with_peer r s.pending_requests

pub contains-append :
    (x : StateRequest) (l m : List StateRequest)
    → contains x (l ++ m) ≡ (contains x l || contains x m)
unfolding contains
contains-append x [] m = ground arith
contains-append x (y ∷ l) m = ground (arith, contains-append x l m)

with_peer-assign :
    (batch_size : ℕ) (r x : StateRequest) (p q : List (List ℕ × List StateRequest))
    → assign batch_size r p ≡ some q
    → with_peer x q ≡ (with_peer x p || (r == x))
unfolding assign with_peer contains
with_peer-assign batch_size r x [] q e = cc
with_peer-assign batch_size r x ((i, l) ∷ p) q e = elim (Option-cases (assign batch_size r p)) [
  | inl n ↦ ground (arith, contains-append x l (r ∷ []))
  | inr (more, h) ↦
      ground (arith, contains-append x l (r ∷ []), with_peer-assign batch_size r x p more h)
]

-- A request that has failed as often as is allowed.
abbrev pub exhausted : StateRequest → SyncState → Bool
exhausted x s = leb retry_limit (failures x s.failed_requests)

-- Whatever the loop over the queue answers, a request stays unless it is at the limit.
drain_any :
    (batch_size : ℕ) (x : StateRequest) (queue : List StateRequest) (s : SyncState)
    → contains x s.completed_requests ≡ false
    → (contains x queue || with_peer x s.pending_requests) ≡ true
    → exhausted x s ≡ false
    → tracked x (drain batch_size queue s).1 ≡ true
unfolding drain contains
drain_any batch_size x [] s c h f = ground arith
drain_any batch_size x (r ∷ queue) s c h f = elim (Bool-cases (contains r s.completed_requests)) [
  | inl old ↦
      rw (old, drain) (drain_any batch_size x queue s c (ground (arith, request_eq.beq_iff r x)) f)
  | inr fresh ↦ elim (Bool-cases (leb retry_limit (failures r s.failed_requests))) [
    | inl failed ↦ ground (arith, request_eq.beq_iff r x)
    | inr tried ↦ elim (Option-cases (assign batch_size r s.pending_requests)) [
      | inl full ↦ ground (arith, contains-append x queue (r ∷ []))
      | inr (p, q) ↦
          rw (fresh, tried, q, drain)
            (drain_any batch_size x queue (record s { pending_requests = p }) c
              (ground (arith, with_peer-assign batch_size r x s.pending_requests p q)) f)
    ]
  ]
]

-- What the loop over the queue does with a request.
drain_lem :
    (batch_size : ℕ) (x : StateRequest) (queue : List StateRequest) (s t : SyncState)
    → drain batch_size queue s ≡ (ok tt, t)
    → contains x s.completed_requests ≡ false
    → (contains x queue || with_peer x s.pending_requests) ≡ true
    → tracked x t ≡ true
unfolding drain contains
drain_lem batch_size x [] s t e c h = ground arith
drain_lem batch_size x (r ∷ queue) s t e c h = elim (Bool-cases (contains r s.completed_requests)) [
  | inl old ↦
      drain_lem batch_size x queue s t (ground arith) c (ground (arith, request_eq.beq_iff r x))
  | inr fresh ↦ elim (Bool-cases (leb retry_limit (failures r s.failed_requests))) [
    | inl failed ↦ absurd (ground arith)
    | inr tried ↦ elim (Option-cases (assign batch_size r s.pending_requests)) [
      | inl full ↦ ground (arith, contains-append x queue (r ∷ []))
      | inr (p, q) ↦
          drain_lem batch_size x queue (record s { pending_requests = p }) t (ground arith) c
            (ground (arith, with_peer-assign batch_size r x s.pending_requests p q))
    ]
  ]
]

requeue_lem :
    (x : StateRequest) (l : List StateRequest) (c : Late)
    → (contains x c.requests || contains x c.queue) ≡ true
    → (contains x (requeue l c).requests || contains x (requeue l c).queue) ≡ true
unfolding requeue contains
requeue_lem x [] c h = h
requeue_lem x (r ∷ l) c h =
    requeue_lem x l _
      (ground (arith, Sets.contains-discard r x c.requests, contains-append x c.queue (r ∷ [])))

check_peers_lem :
    (now : ℕ) (x : StateRequest) (p : List (List ℕ × List StateRequest))
    (failed : List (StateRequest × ℕ)) (queue : List StateRequest)
    → (contains x queue || with_peer x p) ≡ true
    → (contains x (check_peers now p failed queue).queue
        || with_peer x (check_peers now p failed queue).pending)
      ≡ true
unfolding check_peers with_peer
check_peers_lem now x [] failed queue h = h
check_peers_lem now x ((i, l) ∷ p) failed queue h =
    let start : Late = record { requests = l; failed = failed; queue = queue } in
    let late : Late = requeue (timed_out now l) start in
    ground
      (arith, requeue_lem x (timed_out now l) start, check_peers_lem now x p late.failed late.queue)

check_timeouts_lem :
    (now : ℕ) (x : StateRequest) (s : SyncState)
    → tracked x s ≡ true
    → (tracked x (check_timeouts now s).1 ≡ true)
      × ((check_timeouts now s).1.completed_requests ≡ s.completed_requests)
unfolding check_timeouts
check_timeouts_lem now x s h =
    (check_peers_lem now x s.pending_requests s.failed_requests s.sync_queue h, refl)

-- A run of the queue that does not fail loses no request that was not completed.
process_sync_queue_lem :
    (batch_size now : ℕ) (x : StateRequest) (s t : SyncState)
    → process_sync_queue batch_size now s ≡ (ok tt, t)
    → contains x s.completed_requests ≡ false
    → tracked x s ≡ true
    → tracked x t ≡ true
unfolding process_sync_queue check_timeouts
process_sync_queue_lem batch_size now x s t e c h =
    let u : SyncState = (check_timeouts now s).1 in
    let d : SyncState = (drain batch_size u.sync_queue u).1 in
    let before = check_timeouts_lem now x s h in
    let drained : drain batch_size u.sync_queue u ≡ (ok tt, d) = ground (arith, e) in
    let after = drain_lem batch_size x u.sync_queue u d drained c before.0 in
    ground (arith, e, drained, after)

drain-failed_requests :
    (batch_size : ℕ) (queue : List StateRequest) (s : SyncState)
    → (drain batch_size queue s).1.failed_requests ≡ s.failed_requests
unfolding drain
drain-failed_requests batch_size [] s = refl
drain-failed_requests batch_size (r ∷ queue) s =
    elim (Bool-cases (contains r s.completed_requests)) [
      | inl old ↦ rw (old, drain) (drain-failed_requests batch_size queue s)
      | inr fresh ↦ elim (Bool-cases (leb retry_limit (failures r s.failed_requests))) [
        | inl failed ↦ rw (fresh, failed, drain) refl
        | inr tried ↦ elim (Option-cases (assign batch_size r s.pending_requests)) [
          | inl full ↦ rw (fresh, tried, full, drain) refl
          | inr (p, q) ↦
              rw (fresh, tried, q, drain)
                (drain-failed_requests batch_size queue (record s { pending_requests = p }))
        ]
      ]
    ]

-- A run of the queue, whatever it answers, loses no request but one that is at the limit.
process_sync_queue_any :
    (batch_size now : ℕ) (x : StateRequest) (s : SyncState)
    → contains x s.completed_requests ≡ false
    → tracked x s ≡ true
    → exhausted x (process_sync_queue batch_size now s).1 ≡ false
    → tracked x (process_sync_queue batch_size now s).1 ≡ true
unfolding process_sync_queue check_timeouts
process_sync_queue_any batch_size now x s c h f =
    let u : SyncState = (check_timeouts now s).1 in
    let before = check_timeouts_lem now x s h in
    let same = drain-failed_requests batch_size u.sync_queue u in
    let at_limit : exhausted x u ≡ false = ground (arith, same, f) in
    ground (arith, drain_any batch_size x u.sync_queue u c before.0 at_limit)

-- A request stays in the queue or with a peer while requests are handled, unless it is completed
-- or the call fails; and the new one is there too.
pub handle_request_lem :
    (batch_size now : ℕ) (request x : StateRequest) (s t : SyncState)
    → handle_request batch_size now request s ≡ (ok tt, t)
    → contains x s.completed_requests ≡ false
    → (request ≡ x) ⊎ (tracked x s ≡ true)
    → tracked x t ≡ true
unfolding handle_request contains
handle_request_lem batch_size now request x s t e c h =
    process_sync_queue_lem batch_size now x
      (record s { sync_queue = s.sync_queue ++ (request ∷ []) }) t e c
      (elim h [
        | inl new ↦
            ground
              (arith, contains-append x s.sync_queue (request ∷ []), request_eq.beq_iff request x)
        | inr old ↦ ground (arith, contains-append x s.sync_queue (request ∷ []))
      ])

retain_all_lem :
    (x r : StateRequest) (p : List (List ℕ × List StateRequest))
    → request_eq.beq r x ≡ false
    → with_peer x (retain_all r p) ≡ with_peer x p
unfolding with_peer
retain_all_lem x r [] h = refl
retain_all_lem x r ((i, l) ∷ p) h =
    ground (arith, retain_all_lem x r p h, Sets.contains-discard r x l)

answered_ok :
    (batch_size now : ℕ) (response : StateResponse) (x : StateRequest) (s t : SyncState)
    → handle_response batch_size now response s ≡ (ok tt, t)
    → x.timestamp < now
    → contains x s.completed_requests ≡ false
    → tracked x s ≡ true
    → tracked x t ≡ true
unfolding handle_response
answered_ok batch_size now response x s t e lt c h =
    let other : request_eq.beq (request_of now response) x ≡ false = ground arith in
    process_sync_queue_lem batch_size now x (completed now response s).1 t e
      (ground (arith, Sets.contains-add (request_of now response) x s.completed_requests))
      (ground (arith, retain_all_lem x (request_of now response) s.pending_requests other))

answered_any :
    (batch_size now : ℕ) (response : StateResponse) (x : StateRequest) (s : SyncState)
    → x.timestamp < now
    → contains x s.completed_requests ≡ false
    → tracked x s ≡ true
    → exhausted x (handle_response batch_size now response s).1 ≡ false
    → tracked x (handle_response batch_size now response s).1 ≡ true
unfolding handle_response
answered_any batch_size now response x s lt c h f =
    let other : request_eq.beq (request_of now response) x ≡ false = ground arith in
    process_sync_queue_any batch_size now x (completed now response s).1
      (ground (arith, Sets.contains-add (request_of now response) x s.completed_requests))
      (ground (arith, retain_all_lem x (request_of now response) s.pending_requests other)) f

-- An answer completes no request that was made before it, since the code looks for one that is stamped
-- with the time of the answer: a request with an earlier time stamp that is not completed stays in
-- the queue or with a peer when an answer is handled, also when that fails; only where it fails a
-- request that was late three times, the limit, may be dropped.
pub handle_response_lem :
    (batch_size now : ℕ) (response : StateResponse) (x : StateRequest) (s t : SyncState)
    (o : Outcome NetworkError Unit)
    → handle_response batch_size now response s ≡ (o, t)
    → x.timestamp < now
    → contains x s.completed_requests ≡ false
    → tracked x s ≡ true
    → (tracked x t ≡ true) ⊎ ((o ≢ ok tt) × (3 ≤ failures x t.failed_requests))
handle_response_lem batch_size now response x s t o e lt c h = elim (Bool-cases (tracked x t)) [
  | inl there ↦ inl there
  | inr gone ↦ inr (
    λ q. cc (gone, answered_ok batch_size now response x s t (e ∙ ap (λ r. (r, t)) q) lt c h),
    elim (Bool-cases (exhausted x t)) [
      | inl limit ↦ ground (arith, limit)
      | inr fewer ↦
          let same : (handle_response batch_size now response s).1 ≡ t = ap (λ r. r.1) e in
          let kept = answered_any batch_size now response x s lt c h (rw same fewer) in
          absurd (cc (gone, same, kept))
    ],
  )
]
