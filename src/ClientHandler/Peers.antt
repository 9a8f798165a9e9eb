-- ===== src/ClientHandler/Peers.antt =====
-- The peers that a client is connected to after an attempt: `establishP2PConnections`.
use pccl.Common.{
  ℕ, ◌≡◌, refl, ◌∙◌, ap, Bool, true, false, ◌&&◌, List, [], ◌∷◌, Option, none, some, if◌then◌else◌,
  ◌==◌, nat_eq, contains, contains-insert, arith, ==-refl, Bool-cases, inl, inr, nat_beq_iff,
}
use pccl.Net.{SocketAddress}
use pccl.Packets.{P2PConnectionInfo}
use pccl.ClientHandler.{
  ClientHandler, Attempt, Dialled, establish_pool, establish_peer, connect_peers, is_listed,
  keep_listed, close_unlisted, follow_info, set_world, send_report, establish_p2p_connections,
  success,
}

-- What the client takes for connected.
abbrev pub knows : ℕ → ClientHandler → Bool
knows uuid h = contains uuid h.p2p_connections_tx

-- What follows of the rest of the peers, once one of them has been passed.
Follows : ℕ → List (SocketAddress × ℕ) → Bool × List ℕ × ClientHandler → Type 0
Follows u peers r = r.0 ≡ true → is_listed peers u ≡ true → knows u r.2 ≡ true

module _ (dial : SocketAddress → ℕ → Dialled) where
  knows-establish_peer :
      (u : ℕ) (peer : SocketAddress × ℕ) (h : ClientHandler)
      → knows u (establish_peer dial peer h).1 ≡ (if peer.1 == u then true else knows u h)
  unfolding establish_peer establish_pool
  knows-establish_peer u peer h =
      let pool = establish_pool dial peer.0 h.p2p_connection_pool_size 0 [] in
      let inserted = contains-insert peer.1 u pool.1 h.p2p_connections_tx in
      elim (Bool-cases (contains peer.1 h.p2p_connections_tx)) [
        | inl old ↦ rw old (known u old)
        | inr new ↦ elim (Bool-cases pool.0) [
          | inl full ↦ rw (new, full) inserted
          | inr short ↦ rw (new, short) inserted
        ]
      ]
    where
      known :
          (u : ℕ)
          → contains peer.1 h.p2p_connections_tx ≡ true
          → knows u h ≡ (if peer.1 == u then true else knows u h)
      known u old = grind (arith, nat_beq_iff peer.1 u)

  -- One peer, of which it is known whether it has a pool, and whether it can be connected.
  pub connect_peers-old :
      (peer : SocketAddress × ℕ) (peers : List (SocketAddress × ℕ)) (h : ClientHandler)
      → knows peer.1 h ≡ true
      → connect_peers dial (peer ∷ peers) h ≡ connect_peers dial peers h
  unfolding connect_peers
  connect_peers-old peer peers h old = rw old refl

  pub connect_peers-new :
      (peer : SocketAddress × ℕ) (peers : List (SocketAddress × ℕ)) (h : ClientHandler)
      → knows peer.1 h ≡ false
      → let e = establish_peer dial peer h in
        connect_peers dial (peer ∷ peers) h
        ≡ (if e.0 then connect_peers dial peers e.1 else (false, peer.1 ∷ [], e.1))
  unfolding connect_peers
  connect_peers-new peer peers h new = rw new refl

  pub connect_peers-nil : (h : ClientHandler) → connect_peers dial [] h ≡ (true, [], h)
  unfolding connect_peers
  connect_peers-nil h = refl

  connect_peers-grows :
      (u : ℕ) (peers : List (SocketAddress × ℕ)) (h : ClientHandler)
      → knows u h ≡ true
      → knows u (connect_peers dial peers h).2 ≡ true
  connect_peers-grows u [] h k = rw (connect_peers-nil h) k
  connect_peers-grows u (peer ∷ peers) h k =
      let h' = (establish_peer dial peer h).1 in
      let k' : knows u h' ≡ true = ground (arith, knows-establish_peer u peer h) in
      elim (Bool-cases (knows peer.1 h)) [
        | inl old ↦ rw (connect_peers-old peer peers h old) (connect_peers-grows u peers h k)
        | inr new ↦ elim (Bool-cases (establish_peer dial peer h).0) [
          | inl good ↦
              rw (connect_peers-new peer peers h new, good) (connect_peers-grows u peers h' k')
          | inr bad ↦ rw (connect_peers-new peer peers h new, bad) k'
        ]
      ]

  passed :
      (u : ℕ) (peer : SocketAddress × ℕ) (peers : List (SocketAddress × ℕ)) (h : ClientHandler)
      → ((peer.1 == u) ≡ true → knows u h ≡ true)
      → Follows u peers (connect_peers dial peers h)
      → Follows u (peer ∷ peers) (connect_peers dial peers h)
  unfolding Follows is_listed
  passed u peer peers h this rest ok l = elim (Bool-cases (peer.1 == u)) [
    | inl e ↦ connect_peers-grows u peers h (this e)
    | inr e ↦ rest ok (ground arith)
  ]

  connect_peers-listed :
      (u : ℕ) (peers : List (SocketAddress × ℕ)) (h : ClientHandler)
      → Follows u peers (connect_peers dial peers h)
  unfolding Follows is_listed
  connect_peers-listed u [] h = λ ok l. cc
  connect_peers-listed u (peer ∷ peers) h =
      let e = establish_peer dial peer h in
      let inserted = knows-establish_peer u peer h in
      elim (Bool-cases (knows peer.1 h)) [
        | inl old ↦ rw (connect_peers-old peer peers h old) (
            passed u peer peers h (λ this. grind (arith, nat_beq_iff peer.1 u))
              (connect_peers-listed u peers h))
        | inr new ↦ elim (Bool-cases e.0) [
          | inl good ↦
              rw (connect_peers-new peer peers h new, good)
                (passed u peer peers e.1 (λ this. ground arith) (connect_peers-listed u peers e.1))
          | inr bad ↦ rw (connect_peers-new peer peers h new, bad) (λ ok l. cc)
        ]
      ]

pub keep_listed-contains :
    {V : Type 0} (u : ℕ) (peers : List (SocketAddress × ℕ)) (m : List (ℕ × V))
    → contains u (keep_listed peers m) ≡ (contains u m && is_listed peers u)
unfolding keep_listed
keep_listed-contains u peers [] = refl
keep_listed-contains u peers ((i, v) ∷ m) = elim (Bool-cases (is_listed peers i)) [
  | inl good ↦ rw good (grind (arith, keep_listed-contains u peers m, nat_beq_iff i u))
  | inr bad ↦ rw bad (grind (arith, keep_listed-contains u peers m, nat_beq_iff i u))
]

pub follow_info-changed :
    (dial : SocketAddress → ℕ → Dialled) (info : P2PConnectionInfo) (h : ClientHandler)
    → info.unchanged ≡ false
    → let r = connect_peers dial info.all_peers (set_world info h) in
      follow_info dial info h ≡ (r.0, r.1, close_unlisted info.all_peers r.2)
unfolding follow_info
follow_info-changed dial info h changed = rw changed refl

close_unlisted-listed :
    (u : ℕ) (peers : List (SocketAddress × ℕ)) (r : Bool × List ℕ × ClientHandler)
    → Follows u peers r
    → r.0 ≡ true
    → knows u (close_unlisted peers r.2) ≡ is_listed peers u
unfolding close_unlisted Follows
close_unlisted-listed u peers r follows ok =
    keep_listed-contains u peers r.2.p2p_connections_tx
    ∙ both (knows u r.2) (is_listed peers u) (follows ok)
  where
    both : (a b : Bool) → (b ≡ true → a ≡ true) → (a && b) ≡ b
    both true b f = refl
    both false true f = f refl
    both false false f = refl

-- An attempt that succeeds has all peers connected, and the connections stay as they are.
pub send_report-success :
    (a : Attempt) (sent : Bool) (response : Option (Bool × List ℕ)) (all : Bool)
    (failed_peers : List ℕ) (h : ClientHandler)
    → let r =
        send_report (record a { report_sent = sent; response = response }) (all, failed_peers, h) in
      r.result ≡ success
      → (all ≡ true)
        × (r.handler.p2p_connections_tx ≡ h.p2p_connections_tx)
        × (r.handler.p2p_connection_pool_size ≡ h.p2p_connection_pool_size)
send_report-success a false response all failed_peers h e = cc
send_report-success a true none all failed_peers h e = cc
send_report-success a true (some (true, ring)) true failed_peers h e = (refl, refl, refl)
send_report-success a true (some (true, ring)) false failed_peers h e = cc
send_report-success a true (some (false, ring)) true failed_peers h e = cc
send_report-success a true (some (false, ring)) false failed_peers h e = cc

-- After an attempt that succeeds with a changed list of peers, the peers that a client has
-- connections to are exactly those of the master's list.
pub establish_p2p_connections-listed :
    (attempt : Attempt) (info : P2PConnectionInfo) (h : ClientHandler)
    → attempt.connection_info ≡ some info
    → info.unchanged ≡ false
    → (establish_p2p_connections attempt h).result ≡ success
    → (u : ℕ) → knows u (establish_p2p_connections attempt h).handler ≡ is_listed info.all_peers u
unfolding establish_p2p_connections
establish_p2p_connections-listed attempt info h received changed =
    rw (received, follow_info-changed attempt.dial info h changed)
      (λ e u.
        let r = connect_peers attempt.dial info.all_peers (set_world info h) in
        let closed = close_unlisted info.all_peers r.2 in
        let done =
          send_report-success attempt attempt.report_sent attempt.response r.0 r.1 closed e in
        ap (contains u) done.1
        ∙ close_unlisted-listed u info.all_peers r
            (connect_peers-listed attempt.dial u info.all_peers (set_world info h)) done.0)

-- Once a client has tried to connect to a peer, whether or not a connection came about, the next
-- attempt takes the peer as connected, makes no connection and reports no failure.
pub connect_peers-retried :
    (dial redial : SocketAddress → ℕ → Dialled) (peer : SocketAddress × ℕ) (h : ClientHandler)
    → let tried = (establish_peer dial peer h).1 in
      connect_peers redial (peer ∷ []) tried ≡ (true, [], tried)
connect_peers-retried dial redial peer h =
    let tried = (establish_peer dial peer h).1 in
    let old : knows peer.1 tried ≡ true =
      ground (arith, knows-establish_peer dial peer.1 peer h, ==-refl peer.1) in
    connect_peers-old redial peer [] tried old ∙ connect_peers-nil redial tried
