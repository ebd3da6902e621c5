-- ===== src/Network/Peering/Life.antt =====
-- How often a connection of network.go is closed over its life.
use dmq_lib.Prelude.{
  ℕ, ◌+◌, ◌≡◌, Bool, true, false, if◌then◌else◌, Option, none, some, [], ◌∷◌, nat_eq, option_cases,
  if_cases, arith,
}
use dmq_lib.Errors.{Error}
use dmq_lib.Peer.{Peer}
use dmq_lib.Network.{Service}
use dmq_lib.Network.Peering.{
  PeerConnection, Setup, Forwarded, service_ended, connection_done, received, Waited, by_service,
  by_done, by_error, close_peer, close_refused, close_conn, send_error, forward_errors, start_pull,
  wait, new_node_to_node_peer_connection,
}
use dmq_lib.Network.Peering.Closing.{IsMade, made, closes, closes-append, closes_end}

-- What happens to a connection that was made, in any order: its goroutines and its users.
pub data Happens : PeerConnection → PeerConnection → Type 0 where
  errs : (p : PeerConnection) (e : Error) → Happens p (send_error p e)
  forwards : (s : Service) (p : PeerConnection) (f : Forwarded) → Happens p (forward_errors s p f).1
  pulls : (s : Service) (p : PeerConnection) (r : Option Error) → Happens p (start_pull s p r).1
  waits : (p : PeerConnection) (c : Waited) → Happens p (wait p c)
  closing : (p : PeerConnection) → Happens p (close_peer p)

-- What a connection comes to, from the making's result: whether `handleConnection`, where the making
-- failed, has closed the socket by then, once, and the connection.
pub data Lives (r : PeerConnection × Option Error) : Bool → PeerConnection → Type 0 where
  made_now : Lives r false r.0
  then_happens : {b : Bool} {p q : PeerConnection} → Lives r b p → Happens p q → Lives r b q
  refused :
      {p : PeerConnection} (e : Error)
      → r.1 ≡ some e
      → Lives r false p
      → Lives r true (close_refused p)

-- The socket is closed once where the connection is done, and not otherwise, beside the closes of
-- `handleConnection`.
pub record IsClosedBeside (extra : ℕ) (p : PeerConnection) : Type 0 where
  pub count : closes p.calls ≡ (if p.done then 1 else 0) + extra

module _ (n : ℕ) where
  close_peer-IsClosedBeside :
      (p : PeerConnection) → IsClosedBeside n p → IsClosedBeside n (close_peer p)
  unfolding close_peer
  close_peer-IsClosedBeside p h =
      if_cases (IsClosedBeside n) p.done _ _ (λ _. h)
        (λ b. record { count = ground (arith, closes_end p.calls p.submission, h.count, b) })

  send_error-IsClosedBeside :
      (p : PeerConnection) (e : Error) → IsClosedBeside n p → IsClosedBeside n (send_error p e)
  unfolding send_error
  send_error-IsClosedBeside p e h = record { count = h.count }

  pull_sound :
      (s : Service) (p : PeerConnection) (r : Option Error)
      → IsClosedBeside n p
      → IsClosedBeside n (start_pull s p r).1
  unfolding start_pull
  pull_sound s p r h =
      option_cases (λ (x : Service × PeerConnection). IsClosedBeside n x.1) p.submission _ _
        (λ _. h)
        (λ _ _.
          option_cases (λ (x : Service × PeerConnection). IsClosedBeside n x.1) r _ _ (λ _. h)
            (λ e _. send_error-IsClosedBeside p _ h))

  Happens-IsClosedBeside :
      {p q : PeerConnection} → Happens p q → IsClosedBeside n p → IsClosedBeside n q
  unfolding forward_errors start_pull wait
  Happens-IsClosedBeside (errs p e) h = send_error-IsClosedBeside p e h
  Happens-IsClosedBeside (forwards s p service_ended) h = close_peer-IsClosedBeside p h
  Happens-IsClosedBeside (forwards s p connection_done) h = close_peer-IsClosedBeside p h
  Happens-IsClosedBeside (forwards s p (received none)) h = close_peer-IsClosedBeside p h
  Happens-IsClosedBeside (forwards s p (received (some e))) h =
      close_peer-IsClosedBeside (send_error p e) (send_error-IsClosedBeside p e h)
  Happens-IsClosedBeside (pulls s p r) h = pull_sound s p r h
  Happens-IsClosedBeside (waits p by_service) h = close_peer-IsClosedBeside p h
  Happens-IsClosedBeside (waits p by_done) h = h
  Happens-IsClosedBeside (waits p by_error) h = close_peer-IsClosedBeside p h
  Happens-IsClosedBeside (closing p) h = close_peer-IsClosedBeside p h

close_refused_lem : (p : PeerConnection) → IsClosedBeside 0 p → IsClosedBeside 1 (close_refused p)
unfolding close_refused
close_refused_lem p h = record {
  count = omega (arith, closes-append p.calls (close_conn ∷ []), h.count);
}

abbrev pub extra_closes : Bool → ℕ
extra_closes false = 0
extra_closes true = 1

Lives-IsClosedBeside :
    {r : PeerConnection × Option Error} {b : Bool} {q : PeerConnection}
    → Lives r b q
    → IsClosedBeside 0 r.0
    → IsClosedBeside (extra_closes b) q
Lives-IsClosedBeside made_now h = h
Lives-IsClosedBeside (then_happens {b = b} l s) h =
    Happens-IsClosedBeside (extra_closes b) s (Lives-IsClosedBeside l h)
Lives-IsClosedBeside (refused e f l) h = close_refused_lem _ (Lives-IsClosedBeside l h)

-- Where the making of a connection reports no error, the handshake agreed on a version, message
-- submission runs with it, the socket is open and has no deadline; where it reports one, the
-- connection is closed. From then on, whatever happens and in any order, the connection closes the
-- socket once where it is done, and not at all otherwise; `handleConnection` closes it once more
-- where the making failed, and only there.
pub new_node_to_node_peer_connection-IsMade :
    (ntn1 : ℕ) (peer : Peer) (a : Setup) (b : Bool) (q : PeerConnection)
    → Lives (new_node_to_node_peer_connection ntn1 peer a) b q
    → IsMade a.ended (new_node_to_node_peer_connection ntn1 peer a)
      × IsClosedBeside (extra_closes b) q
new_node_to_node_peer_connection-IsMade ntn1 peer a b q l =
    let m = made ntn1 peer a.server a.limited a.ended a.reset a.configured a.initialised in
    let start : IsClosedBeside 0 (new_node_to_node_peer_connection ntn1 peer a).0 = record {
      count = omega (arith, m.sound.once);
    } in
    (m, Lives-IsClosedBeside l start)
