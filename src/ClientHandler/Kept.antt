-- ===== src/ClientHandler/Kept.antt =====
-- That connecting to the peers leaves the operations alone.
use pccl.Common.{
  ℕ, ◌≡◌, refl, ◌∙◌, Bool, true, false, List, [], ◌∷◌, Option, none, some, if◌then◌else◌, contains,
  nat_eq, Bool-cases, inl, inr, not, subst,
}
use pccl.Net.{SocketAddress, socket_eq}
use pccl.Packets.{P2PConnectionInfo}
use pccl.ClientState.{ClientState, register_peer, is_any_collective_coms_op_running}
use pccl.ClientHandler.{
  ClientHandler, Attempt, Dialled, establish_pool, establish_peer, connect_peers, is_listed,
  unregister_pool, unregister_unlisted, close_unlisted, follow_info, set_world, send_report,
  establish_p2p_connections, attempt_all, request_and_establish_p2p_connections, success, failed,
  retry_needed, EstablishP2PConnectionResult, conclude,
}
use pccl.ClientHandler.Join.{Ops, ops_of}
use pccl.ClientHandler.Peers.{connect_peers-old, connect_peers-new, connect_peers-nil, knows}

abbrev pub ops : ClientHandler → Ops
ops h = ops_of h.client_state

register_peer-ops :
    (address : SocketAddress) (uuid : ℕ) (s : ClientState)
    → ops_of (register_peer address uuid s).1 ≡ ops_of s
register_peer-ops address uuid s = elim (Bool-cases (contains address s.socket_addr_to_uuid)) [
  | inl old ↦ rw old refl
  | inr new ↦ rw new refl
]

unregister_pool-ops :
    (sockets : List SocketAddress) (s : ClientState) → ops_of (unregister_pool sockets s) ≡ ops_of s
unregister_pool-ops [] s = refl
unregister_pool-ops (address ∷ sockets) s =
    elim (Bool-cases (contains address s.socket_addr_to_uuid)) [
      | inl old ↦ rw (unregister_pool, old) refl
      | inr new ↦ rw (unregister_pool, new) refl
    ]

unregister_unlisted-ops :
    (peers : List (SocketAddress × ℕ)) (m : List (ℕ × List SocketAddress)) (s : ClientState)
    → ops_of (unregister_unlisted peers m s) ≡ ops_of s
unfolding unregister_unlisted
unregister_unlisted-ops peers [] s = refl
unregister_unlisted-ops peers ((uuid, sockets) ∷ m) s = elim (Bool-cases (is_listed peers uuid)) [
  | inl old ↦ rw (unregister_unlisted, old) (unregister_unlisted-ops peers m s)
  | inr new ↦
      rw (unregister_unlisted, new)
        (unregister_unlisted-ops peers m (unregister_pool sockets s)
          ∙ unregister_pool-ops sockets s)
]

module _ (dial : SocketAddress → ℕ → Dialled) where
  establish_peer-ops :
      (peer : SocketAddress × ℕ) (h : ClientHandler) → ops (establish_peer dial peer h).1 ≡ ops h
  unfolding establish_peer
  establish_peer-ops peer h =
      let pool = establish_pool dial peer.0 h.p2p_connection_pool_size 0 [] in
      elim (Bool-cases (knows peer.1 h)) [
        | inl old ↦ rw old refl
        | inr new ↦ elim (Bool-cases pool.0) [
          | inl full ↦ rw (new, full) (register_peer-ops peer.0 peer.1 h.client_state)
          | inr short ↦ rw (new, short) refl
        ]
      ]

  connect_peers-ops :
      (peers : List (SocketAddress × ℕ)) (h : ClientHandler)
      → ops (connect_peers dial peers h).2 ≡ ops h
  connect_peers-ops [] h = rw (connect_peers-nil dial h) refl
  connect_peers-ops (peer ∷ peers) h =
      let e = establish_peer dial peer h in
      elim (Bool-cases (knows peer.1 h)) [
        | inl old ↦ rw (connect_peers-old dial peer peers h old) (connect_peers-ops peers h)
        | inr new ↦ elim (Bool-cases e.0) [
          | inl good ↦
              rw (connect_peers-new dial peer peers h new, good)
                (connect_peers-ops peers e.1 ∙ establish_peer-ops peer h)
          | inr bad ↦ rw (connect_peers-new dial peer peers h new, bad) (establish_peer-ops peer h)
        ]
      ]

  follow_info-ops :
      (info : P2PConnectionInfo) (h : ClientHandler) → ops (follow_info dial info h).2 ≡ ops h
  unfolding follow_info close_unlisted
  follow_info-ops info h = elim (Bool-cases info.unchanged) [
    | inl same ↦ rw same refl
    | inr changed ↦
        let r = connect_peers dial info.all_peers (set_world info h) in
        rw changed (
          unregister_unlisted-ops info.all_peers r.2.p2p_connections_tx r.2.client_state
          ∙ connect_peers-ops info.all_peers (set_world info h))
  ]

send_report-ops :
    (a : Attempt) (sent : Bool) (response : Option (Bool × List ℕ)) (all : Bool)
    (failed_peers : List ℕ) (h : ClientHandler)
    → ops
        (send_report
          (record a { report_sent = sent; response = response })
          (all, failed_peers, h)).handler
      ≡ ops h
send_report-ops a false response all failed_peers h = refl
send_report-ops a true none all failed_peers h = refl
send_report-ops a true (some (true, ring)) true failed_peers h = refl
send_report-ops a true (some (true, ring)) false failed_peers h = refl
send_report-ops a true (some (false, ring)) true failed_peers h = refl
send_report-ops a true (some (false, ring)) false failed_peers h = refl

pub establish_p2p_connections-ops :
    (attempt : Attempt) (h : ClientHandler)
    → ops (establish_p2p_connections attempt h).handler ≡ ops h
unfolding establish_p2p_connections
establish_p2p_connections-ops attempt h = followed attempt attempt.connection_info
  where
    followed :
        (a : Attempt) (received : Option P2PConnectionInfo)
        → ops (establish_p2p_connections (record a { connection_info = received }) h).handler
          ≡ ops h
    followed a none = refl
    followed a (some info) =
        let f = follow_info a.dial info h in
        send_report-ops a a.report_sent a.response f.0 f.1 f.2 ∙ follow_info-ops a.dial info h

-- The handler that a call returns, if it does, has these operations.
abbrev pub Keeps : Ops → Option (Bool × ClientHandler) → Type 0
Keeps o none = Unit
Keeps o (some (ok, h)) = ops h ≡ o

conclude-Keeps :
    (result : EstablishP2PConnectionResult) (h : ClientHandler)
    (rest : Option (Bool × ClientHandler)) (o : Ops)
    → ops h ≡ o
    → Keeps o rest
    → Keeps o (conclude result h rest)
conclude-Keeps failed h rest o e k = e
conclude-Keeps retry_needed h rest o e k = k
conclude-Keeps success h rest o e k = e

attempt_all-Keeps :
    (attempts : List Attempt) (h : ClientHandler) → Keeps (ops h) (attempt_all attempts h)
unfolding attempt_all
attempt_all-Keeps [] h = tt
attempt_all-Keeps (attempt ∷ attempts) h =
    let e = establish_p2p_connections attempt h in
    let same = establish_p2p_connections-ops attempt h in
    let rest : Keeps (ops h) (attempt_all attempts e.handler) =
      subst (λ o. Keeps o (attempt_all attempts e.handler)) same
        (attempt_all-Keeps attempts e.handler) in
    elim (Bool-cases attempt.request_sent) [
      | inl sent ↦ rw sent (conclude-Keeps e.result e.handler _ (ops h) same rest)
      | inr unsent ↦ rw unsent refl
    ]

pub request_and_establish_p2p_connections-Keeps :
    (is_open : Bool) (attempts : List Attempt) (h : ClientHandler)
    → Keeps (ops h) (request_and_establish_p2p_connections is_open attempts h)
unfolding request_and_establish_p2p_connections
request_and_establish_p2p_connections-Keeps is_open attempts h =
    guarded h.accepted is_open (is_any_collective_coms_op_running h.client_state)
  where
    guarded :
        (accepted opened running : Bool)
        → Keeps (ops h) (
            if not accepted
            then some (false, h)
            else if not opened
            then some (false, h)
            else if running
            then some (false, h)
            else attempt_all attempts h)
    guarded false opened running = refl
    guarded true false running = refl
    guarded true true true = refl
    guarded true true false = attempt_all-Keeps attempts h
