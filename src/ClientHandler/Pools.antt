-- ===== src/ClientHandler/Pools.antt =====
-- The pools of sockets to the peers after an attempt: `establishP2PConnections`.
use pccl.Common.{
  ℕ, zero, suc, ◌+◌, ◌≡◌, refl, ◌∙◌, Bool, true, false, List, [], ◌∷◌, ◌++◌, Option, none, some,
  ◌==◌, nat_eq, lookup, contains, insert, length, length-append, All, arith, Bool-cases, inl, inr,
}
use pccl.Net.{SocketAddress}
use pccl.Packets.{P2PConnectionInfo}
use pccl.ClientHandler.{
  ClientHandler, Attempt, Dialled, not_connected, no_hello_ack, not_run, connected, establish_pool,
  establish_peer, connect_peers, is_listed, keep_listed, close_unlisted, set_world,
  establish_p2p_connections, success,
}
use pccl.ClientHandler.Peers.{
  knows, connect_peers-nil, connect_peers-old, connect_peers-new, follow_info-changed,
  send_report-success, establish_p2p_connections-listed,
}

-- Every pool that a client keeps has all its sockets.
abbrev pub Full : ℕ → List (ℕ × List SocketAddress) → Type 0
Full n pools = All (λ pool. length pool.1 ≡ n) pools

abbrev pub AllFull : ClientHandler → Type 0
AllFull h = Full h.p2p_connection_pool_size h.p2p_connections_tx

-- Whether a client has a pool for a peer, with all its sockets.
abbrev pub is_full : ℕ → Option (List SocketAddress) → Bool
is_full n none = false
is_full n (some sockets) = length sockets == n

abbrev pub has_full_pool : ℕ → ClientHandler → Bool
has_full_pool uuid h = is_full h.p2p_connection_pool_size (lookup uuid h.p2p_connections_tx)

is_full-lookup :
    (n u : ℕ) (m : List (ℕ × List SocketAddress)) → Full n m → is_full n (lookup u m) ≡ contains u m
is_full-lookup n u [] f = refl
is_full-lookup n u ((i, sockets) ∷ m) f = elim (Bool-cases (i == u)) [
  | inl here ↦ rw here (ground (arith, f.0))
  | inr there ↦ rw there (is_full-lookup n u m f.1)
]

insert-Full :
    (n u : ℕ) (sockets : List SocketAddress) (m : List (ℕ × List SocketAddress))
    → length sockets ≡ n
    → Full n m
    → Full n (insert u sockets m)
insert-Full n u sockets [] e f = (e, tt)
insert-Full n u sockets ((i, w) ∷ m) e f = elim (Bool-cases (i == u)) [
  | inl here ↦ rw here (e, f.1)
  | inr there ↦ rw there (f.0, insert-Full n u sockets m e f.1)
]

keep_listed-Full :
    (n : ℕ) (peers : List (SocketAddress × ℕ)) (m : List (ℕ × List SocketAddress))
    → Full n m
    → Full n (keep_listed peers m)
unfolding keep_listed
keep_listed-Full n peers [] f = tt
keep_listed-Full n peers ((i, w) ∷ m) f = elim (Bool-cases (is_listed peers i)) [
  | inl good ↦ rw good (f.0, keep_listed-Full n peers m f.1)
  | inr bad ↦ rw bad (keep_listed-Full n peers m f.1)
]

module _ (dial : SocketAddress → ℕ → Dialled) where
  establish_pool-length :
      (address : SocketAddress) (k nr : ℕ) (sockets : List SocketAddress)
      → (establish_pool dial address k nr sockets).0 ≡ true
      → length (establish_pool dial address k nr sockets).1 ≡ length sockets + k
  unfolding establish_pool
  establish_pool-length address zero nr sockets = λ e. omega arith
  establish_pool-length address (suc k) nr sockets =
      let more = sockets ++ address ∷ [] in
      dialled (establish_pool-length address k (suc nr) more) (dial address nr) refl
    where
      dialled :
          ((establish_pool dial address k (suc nr) (sockets ++ address ∷ [])).0 ≡ true
            → length (establish_pool dial address k (suc nr) (sockets ++ address ∷ [])).1
              ≡ length (sockets ++ address ∷ []) + k)
          → (d : Dialled) → dial address nr ≡ d
          → (establish_pool dial address (suc k) nr sockets).0 ≡ true
          → length (establish_pool dial address (suc k) nr sockets).1 ≡ length sockets + suc k
      dialled later connected e =
          rw (establish_pool, e)
            (λ ok. later ok ∙ omega (arith, length-append sockets (address ∷ [])))
      dialled later not_run e = rw (establish_pool, e) (λ ok. cc)
      dialled later no_hello_ack e = rw (establish_pool, e) (λ ok. cc)
      dialled later not_connected e = rw (establish_pool, e) (λ ok. cc)

  establish_peer-AllFull :
      (peer : SocketAddress × ℕ) (h : ClientHandler)
      → AllFull h
      → (establish_peer dial peer h).0 ≡ true
      → AllFull (establish_peer dial peer h).1
  unfolding establish_peer
  establish_peer-AllFull peer h f =
      let size = h.p2p_connection_pool_size in
      let pool = establish_pool dial peer.0 size 0 [] in
      elim (Bool-cases (contains peer.1 h.p2p_connections_tx)) [
        | inl old ↦ rw old (λ ok. cc)
        | inr new ↦ elim (Bool-cases pool.0) [
          | inl whole ↦
              rw (new, whole)
                (λ ok.
                  insert-Full size peer.1 pool.1 h.p2p_connections_tx
                    (establish_pool-length peer.0 size 0 [] whole ∙ omega arith) f)
          | inr short ↦ rw (new, short) (λ ok. cc)
        ]
      ]

  connect_peers-AllFull :
      (peers : List (SocketAddress × ℕ)) (h : ClientHandler)
      → AllFull h
      → (connect_peers dial peers h).0 ≡ true
      → AllFull (connect_peers dial peers h).2
  connect_peers-AllFull [] h f = rw (connect_peers-nil dial h) (λ ok. f)
  connect_peers-AllFull (peer ∷ peers) h f =
      let e = establish_peer dial peer h in
      elim (Bool-cases (knows peer.1 h)) [
        | inl old ↦ rw (connect_peers-old dial peer peers h old) (connect_peers-AllFull peers h f)
        | inr new ↦ elim (Bool-cases e.0) [
          | inl good ↦
              rw (connect_peers-new dial peer peers h new, good)
                (connect_peers-AllFull peers e.1 (establish_peer-AllFull peer h f good))
          | inr bad ↦ rw (connect_peers-new dial peer peers h new, bad) (λ ok. cc)
        ]
      ]

close_unlisted-AllFull :
    (peers : List (SocketAddress × ℕ)) (h : ClientHandler)
    → AllFull h
    → AllFull (close_unlisted peers h)
unfolding close_unlisted
close_unlisted-AllFull peers h f =
    keep_listed-Full h.p2p_connection_pool_size peers h.p2p_connections_tx f

established_AllFull :
    (attempt : Attempt) (info : P2PConnectionInfo) (h : ClientHandler)
    → attempt.connection_info ≡ some info
    → info.unchanged ≡ false
    → AllFull h
    → (establish_p2p_connections attempt h).result ≡ success
    → AllFull (establish_p2p_connections attempt h).handler
unfolding establish_p2p_connections
established_AllFull attempt info h received changed f =
    rw (received, follow_info-changed attempt.dial info h changed)
      (λ e.
        let r = connect_peers attempt.dial info.all_peers (set_world info h) in
        let closed = close_unlisted info.all_peers r.2 in
        let done =
          send_report-success attempt attempt.report_sent attempt.response r.0 r.1 closed e in
        rw (done.1, done.2)
          (close_unlisted-AllFull info.all_peers r.2
            (connect_peers-AllFull attempt.dial info.all_peers (set_world info h) f done.0)))

-- If every pool of connections that a client keeps has all its sockets, then after an attempt that
-- succeeds with a changed list of peers every pool has all its sockets, and the peers for which
-- there is such a full pool are exactly those of the master's list.
pub establish_p2p_connections-AllFull :
    (attempt : Attempt) (info : P2PConnectionInfo) (h : ClientHandler)
    → attempt.connection_info ≡ some info
    → info.unchanged ≡ false
    → AllFull h
    → (establish_p2p_connections attempt h).result ≡ success
    → let next = (establish_p2p_connections attempt h).handler in
      AllFull next × ((u : ℕ) → has_full_pool u next ≡ is_listed info.all_peers u)
establish_p2p_connections-AllFull attempt info h received changed f e =
    let next = (establish_p2p_connections attempt h).handler in
    let full = established_AllFull attempt info h received changed f e in
    (
      full,
      λ u.
          is_full-lookup next.p2p_connection_pool_size u next.p2p_connections_tx full
          ∙ establish_p2p_connections-listed attempt info h received changed e u,
    )
