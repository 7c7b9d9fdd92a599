-- ===== src/Network/Peers/Bounded.antt =====
-- What any use of the manager keeps.
use zkmips_zkvm_impl_in_rust.Base.{
  ℕ, ◌≤◌, ◌≡◌, refl, Bool, true, false, List, [], ◌∷◌, none, some, bytes_eq, ◌==◌, if◌then◌else◌,
  length, arith, ok, Option-cases, inl, inr,
}
use zkmips_zkvm_impl_in_rust.Base.Int.{ℤ, negsuc, leb_ℤ}
use zkmips_zkvm_impl_in_rust.Base.Map
use zkmips_zkvm_impl_in_rust.Base.Map.{lookup, insert, remove, Distinct}
use zkmips_zkvm_impl_in_rust.Network.Sets
use zkmips_zkvm_impl_in_rust.Network.Peer.{
  Peer, PeerStatus, is_banned, update_reputation, saturating_add,
}
use zkmips_zkvm_impl_in_rust.Network.Peers.{
  PeerManager, new, add_peer, remove_peer, get_peer_mut, with_status, ban_peer, unban_peer,
  update_peer_status, still_connected, cleanup_disconnected_peers,
}

-- The calls that change the manager. `get_peer_mut` may change anything of a peer.
pub data Call : Type 0 where
  adding : Peer → Call
  removing banning unbanning : List ℕ → Call
  changing : List ℕ → (Peer → Peer) → Call
  status_of : List ℕ → PeerStatus → Call
  cleaning : Call

abbrev pub handle : Call → PeerManager → PeerManager
handle (adding p) m = (add_peer p m).1
handle (removing i) m = remove_peer i m
handle (banning i) m = ban_peer i m
handle (unbanning i) m = unban_peer i m
handle (changing i f) m = get_peer_mut i f m
handle (status_of i status) m = update_peer_status i status m
handle cleaning m = cleanup_disconnected_peers m

abbrev pub handle_all : List Call → PeerManager → PeerManager
handle_all [] m = m
handle_all (c ∷ cs) m = handle_all cs (handle c m)

pub record IsValid (m : PeerManager) : Type 0 where
  pub distinct : Distinct m.peers
  pub bounded : length m.peers ≤ m.max_peers
  pub apart : (i : List ℕ) → Sets.contains i m.banned_peers ≡ true → lookup i m.peers ≡ none

pub new-IsValid : (n : ℕ) → IsValid (new n)
unfolding new lookup
new-IsValid n = record { distinct = tt; bounded = omega arith; apart = λ i h. refl }

add_peer-IsValid : (p : Peer) (m : PeerManager) → IsValid m → IsValid (add_peer p m).1
unfolding add_peer insert
add_peer-IsValid p m v = record {
  distinct = ground (arith, v.distinct, Map.insert-Distinct p.info.id p m.peers v.distinct);
  bounded = ground (arith, v.bounded, Map.length-remove-le p.info.id m.peers);
  apart = λ i h.
      ground
        (arith, v.apart i, Map.lookup-insert p.info.id i p m.peers, bytes_eq.beq_iff p.info.id i);
}

remove_peer-IsValid : (i : List ℕ) (m : PeerManager) → IsValid m → IsValid (remove_peer i m)
unfolding remove_peer
remove_peer-IsValid i m v = record {
  distinct = Map.remove-Distinct i m.peers v.distinct;
  bounded = omega (arith, v.bounded, Map.length-remove-le i m.peers);
  apart = λ j h. ground (arith, v.apart j, Map.lookup-remove i j m.peers);
}

get_peer_mut-IsValid :
    (i : List ℕ) (f : Peer → Peer) (m : PeerManager) → IsValid m → IsValid (get_peer_mut i f m)
unfolding get_peer_mut insert
get_peer_mut-IsValid i f m v = elim (Option-cases (lookup i m.peers)) [
  | inl e ↦ rw (e, get_peer_mut) v
  | inr (p, e) ↦
      rw (e, get_peer_mut)
        (record {
          distinct = Map.insert-Distinct i (f p) m.peers v.distinct;
          bounded = omega (arith, v.bounded, Map.length-remove i m.peers p v.distinct e);
          apart = λ j h.
              ground (arith, v.apart j, Map.lookup-insert i j (f p) m.peers, bytes_eq.beq_iff i j);
        })
]

ban_peer-IsValid : (i : List ℕ) (m : PeerManager) → IsValid m → IsValid (ban_peer i m)
unfolding ban_peer remove_peer
ban_peer-IsValid i m v =
    let k = get_peer_mut i (with_status PeerStatus.banned) m in
    let w = get_peer_mut-IsValid i (with_status PeerStatus.banned) m v in
    record {
      distinct = Map.remove-Distinct i k.peers w.distinct;
      bounded = omega (arith, w.bounded, Map.length-remove-le i k.peers);
      apart = λ j h.
          ground
            (arith, w.apart j, Sets.contains-add i j k.banned_peers, Map.lookup-remove i j k.peers);
    }

unban_peer-IsValid : (i : List ℕ) (m : PeerManager) → IsValid m → IsValid (unban_peer i m)
unfolding unban_peer
unban_peer-IsValid i m v = record {
  distinct = v.distinct;
  bounded = v.bounded;
  apart = λ j h. ground (arith, v.apart j, Sets.contains-discard i j m.banned_peers);
}

absent_connected :
    (i : List ℕ) (l : List (List ℕ × Peer))
    → lookup i l ≡ none
    → lookup i (still_connected l) ≡ none
unfolding lookup
absent_connected i [] e = refl
absent_connected i ((k, p) ∷ l) e = ground (arith, absent_connected i l)

Distinct-connected : (l : List (List ℕ × Peer)) → Distinct l → Distinct (still_connected l)
Distinct-connected [] d = tt
Distinct-connected ((k, p) ∷ l) d =
    ground (arith, Distinct-connected l d.1, absent_connected k l d.0)

length_connected : (l : List (List ℕ × Peer)) → length (still_connected l) ≤ length l
length_connected [] = omega arith
length_connected ((k, p) ∷ l) = ground (arith, length_connected l)

cleanup-IsValid : (m : PeerManager) → IsValid m → IsValid (cleanup_disconnected_peers m)
unfolding cleanup_disconnected_peers
cleanup-IsValid m v = record {
  distinct = Distinct-connected m.peers v.distinct;
  bounded = omega (arith, v.bounded, length_connected m.peers);
  apart = λ i h. absent_connected i m.peers (v.apart i h);
}

handle-IsValid : (c : Call) (m : PeerManager) → IsValid m → IsValid (handle c m)
unfolding update_peer_status
handle-IsValid (adding p) m v = add_peer-IsValid p m v
handle-IsValid (removing i) m v = remove_peer-IsValid i m v
handle-IsValid (banning i) m v = ban_peer-IsValid i m v
handle-IsValid (unbanning i) m v = unban_peer-IsValid i m v
handle-IsValid (changing i f) m v = get_peer_mut-IsValid i f m v
handle-IsValid (status_of i status) m v = get_peer_mut-IsValid i (with_status status) m v
handle-IsValid cleaning m v = cleanup-IsValid m v

-- From a manager in which this holds, whatever is called, in whatever order: there are never more
-- peers than the limit, none stands twice, and no banned id is among the peers.
pub handle_all-IsValid : (cs : List Call) (m : PeerManager) → IsValid m → IsValid (handle_all cs m)
handle_all-IsValid [] m v = v
handle_all-IsValid (c ∷ cs) m v = handle_all-IsValid cs (handle c m) (handle-IsValid c m v)

-- No call of `unban_peer` for the id.
abbrev pub never_unbans : List ℕ → List Call → Bool
never_unbans i [] = true
never_unbans i (unbanning j ∷ cs) = if j == i then false else never_unbans i cs
never_unbans i (_ ∷ cs) = never_unbans i cs

banned_by_call :
    (i : List ℕ) (c : Call) (cs : List Call) (m : PeerManager)
    → never_unbans i (c ∷ cs) ≡ true
    → Sets.contains i m.banned_peers ≡ true
    → (Sets.contains i (handle c m).banned_peers ≡ true) × (never_unbans i cs ≡ true)
unfolding add_peer remove_peer ban_peer unban_peer get_peer_mut update_peer_status
    cleanup_disconnected_peers
banned_by_call i (adding p) cs m n h = (ground arith, n)
banned_by_call i (removing j) cs m n h = (h, n)
banned_by_call i (banning j) cs m n h = (ground (arith, Sets.contains-add j i m.banned_peers), n)
banned_by_call i (unbanning j) cs m n h =
    (ground (arith, Sets.contains-discard j i m.banned_peers), ground arith)
banned_by_call i (changing j f) cs m n h = (ground arith, n)
banned_by_call i (status_of j status) cs m n h = (ground arith, n)
banned_by_call i cleaning cs m n h = (h, n)

stays_banned :
    (i : List ℕ) (cs : List Call) (m : PeerManager)
    → never_unbans i cs ≡ true
    → Sets.contains i m.banned_peers ≡ true
    → Sets.contains i (handle_all cs m).banned_peers ≡ true
stays_banned i [] m n h = h
stays_banned i (c ∷ cs) m n h =
    let (h', n') = banned_by_call i c cs m n h in stays_banned i cs (handle c m) n' h'

-- With a manager that keeps the invariant, a peer that is banned is out at once and stays out
-- through any calls that do not unban it.
pub banned_stays_out :
    (i : List ℕ) (cs : List Call) (m : PeerManager)
    → IsValid m
    → never_unbans i cs ≡ true
    → lookup i (handle_all cs (ban_peer i m)).peers ≡ none
unfolding ban_peer
banned_stays_out i cs m v n =
    let w = handle_all-IsValid cs (ban_peer i m) (ban_peer-IsValid i m v) in
    w.apart i (
      stays_banned i cs (ban_peer i m) n (
        ground (
          arith,
          Sets.contains-add i i (get_peer_mut i (with_status PeerStatus.banned) m).banned_peers,
          bytes_eq.beq_iff i i,
        )))

-- With a manager that keeps the invariant, a peer whose reputation falls below -100 is marked as
-- banned, but its id is not on the list of banned ones: once the peer has been removed it can be
-- added again, marked as banned.
pub reputation_ban_is_lost :
    (p : Peer) (delta : ℤ) (m : PeerManager)
    → IsValid m
    → lookup p.info.id m.peers ≡ some p
    → leb_ℤ (saturating_add p.reputation delta) (negsuc 100) ≡ true
    → (is_banned (update_reputation delta p) ≡ true)
      × ((add_peer
            (update_reputation delta p)
            (remove_peer p.info.id (get_peer_mut p.info.id (update_reputation delta) m))).0
          ≡ ok tt)
unfolding update_reputation is_banned add_peer remove_peer get_peer_mut insert remove
reputation_ban_is_lost p delta m v e low = (
  ground arith,
  ground (
    arith,
    bytes_eq.beq_iff p.info.id p.info.id,
    v.apart p.info.id,
    v.bounded,
    Map.length-remove p.info.id m.peers p v.distinct e,
    Map.length-remove-le p.info.id (remove p.info.id m.peers),
  ),
)
