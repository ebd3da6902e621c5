-- ===== src/Network/Peering/Closing.antt =====
-- What is left of the making of a connection of network.go: open, or closed once.
use dmq_lib.Prelude.{
  ℕ, ◌+◌, ◌≡◌, refl, Bool, true, false, Option, none, some, List, [], ◌∷◌, ◌++◌, ◌==◌, nat_eq,
  if◌then◌else◌, if_cases, arith,
}
use dmq_lib.Errors.{Error}
use dmq_lib.Peer.{Peer}
use dmq_lib.Network.Peering.{
  ConnectionCall, new_connection, handshake, cancelled, protocol_failed, muxer_failed,
  stop_submission, start_message_submission, set_deadline, clear_deadline, start_handshake,
  start_muxer_once, start_muxer, set_diffusion_mode, stop_muxer, start_client, start_server,
  init_client, server_done, client_stop, close_conn, PeerConnection, HandshakeEnd, finished,
  close_peer, new_node_to_node_peer_connection,
}

-- How often the calls close the socket.
abbrev pub closes : List ConnectionCall → ℕ
closes [] = 0
closes (close_conn ∷ cs) = closes cs + 1
closes (c ∷ cs) = closes cs

-- Whether the calls leave a deadline on the socket.
abbrev pub leaves_deadline : Bool → List ConnectionCall → Bool
leaves_deadline b [] = b
leaves_deadline b (set_deadline ∷ cs) = leaves_deadline true cs
leaves_deadline b (clear_deadline ∷ cs) = leaves_deadline false cs
leaves_deadline b (c ∷ cs) = leaves_deadline b cs

pub closes-append : (xs ys : List ConnectionCall) → closes (xs ++ ys) ≡ closes xs + closes ys
closes-append [] ys = omega arith
closes-append (close_conn ∷ xs) ys = omega (arith, closes-append xs ys)
closes-append (set_deadline ∷ xs) ys = closes-append xs ys
closes-append (clear_deadline ∷ xs) ys = closes-append xs ys
closes-append (start_handshake b ∷ xs) ys = closes-append xs ys
closes-append (start_muxer_once ∷ xs) ys = closes-append xs ys
closes-append (start_muxer ∷ xs) ys = closes-append xs ys
closes-append (set_diffusion_mode ∷ xs) ys = closes-append xs ys
closes-append (stop_muxer ∷ xs) ys = closes-append xs ys
closes-append (start_client v ∷ xs) ys = closes-append xs ys
closes-append (start_server v ∷ xs) ys = closes-append xs ys
closes-append (init_client ∷ xs) ys = closes-append xs ys
closes-append (server_done ∷ xs) ys = closes-append xs ys
closes-append (client_stop ∷ xs) ys = closes-append xs ys

-- The socket is closed once where the connection is done, and not otherwise.
pub record IsClosedOnce (p : PeerConnection) : Type 0 where
  pub once : closes p.calls ≡ (if p.done then 1 else 0)

pub closes_end :
    (cs : List ConnectionCall) (submission : Option ℕ)
    → closes (cs ++ (stop_submission submission ++ stop_muxer ∷ close_conn ∷ [])) ≡ closes cs + 1
closes_end cs none = closes-append cs (stop_muxer ∷ close_conn ∷ [])
closes_end cs (some v) = closes-append cs (server_done ∷ client_stop ∷ stop_muxer ∷ close_conn ∷ [])

pub close_peer-IsClosedOnce : (p : PeerConnection) → IsClosedOnce p → IsClosedOnce (close_peer p)
unfolding close_peer
close_peer-IsClosedOnce p h =
    if_cases IsClosedOnce p.done _ _ (λ _. h)
      (λ b. record { once = ground (arith, closes_end p.calls p.submission, h.once, b) })

close_peer-done : (p : PeerConnection) → (close_peer p).done ≡ true
unfolding close_peer
close_peer-done p = ground arith

-- What is left of the making of a connection, by its error, where the handshake ended in some way.
pub record IsMade (ended : HandshakeEnd) (r : PeerConnection × Option Error) : Type 0 where
  pub sound : IsClosedOnce r.0
  pub open_where_made : r.1 ≡ none → (r.0.done ≡ false) × (leaves_deadline false r.0.calls ≡ false)
  pub agreed :
      r.1 ≡ none → (version : ℕ) × (ended ≡ finished version) × (r.0.submission ≡ some version)
  pub closed_where_not : (e : Error) → r.1 ≡ some e → r.0.done ≡ true

given_up :
    (ended : HandshakeEnd) (p : PeerConnection) (e : Error)
    → IsClosedOnce p
    → IsMade ended (close_peer p, some e)
given_up ended p e h = record {
  sound = close_peer-IsClosedOnce p h;
  open_where_made = λ x. cc;
  agreed = λ x. cc;
  closed_where_not = λ f x. close_peer-done p;
}

-- The connection after a handshake that agreed on a version.
abbrev agreed_on : Peer → Bool → PeerConnection
agreed_on peer server = record (new_connection peer) {
  calls = set_deadline ∷ start_handshake server ∷ start_muxer_once ∷ clear_deadline ∷ [];
}

abbrev finish : PeerConnection × Option Error → PeerConnection × Option Error
finish (q, failed) = elim failed [ some e ↦ (close_peer q, some e) | none ↦ (q, none) ]

kept :
    (version : ℕ) (p : PeerConnection)
    → closes p.calls ≡ 0
    → p.done ≡ false
    → leaves_deadline false p.calls ≡ false
    → p.submission ≡ some version
    → IsMade (finished version) (p, none)
kept version p none_closed open_still no_deadline started = record {
  sound = record { once = rw open_still none_closed };
  open_where_made = λ _. (open_still, no_deadline);
  agreed = λ _. (version, refl, started);
  closed_where_not = λ e x. cc;
}

init_made :
    (version : ℕ) (p : PeerConnection) (initialised : Option Error)
    → closes p.calls ≡ 0
    → p.done ≡ false
    → leaves_deadline false p.calls ≡ false
    → p.submission ≡ some version
    → IsMade (finished version) (finish (p, initialised))
init_made version p none c d l s = kept version p c d l s
init_made version p (some e) c d l s = given_up _ p e (record { once = rw d c })

submission_made :
    (ntn1 : ℕ) (peer : Peer) (server : Bool) (version : ℕ) (configured initialised : Option Error)
    → IsMade (finished version) (
        finish
          (start_message_submission ntn1 (agreed_on peer server) version configured initialised))
unfolding start_message_submission
submission_made ntn1 peer server version (some e) initialised =
    given_up (finished version) (agreed_on peer server) e (record { once = refl })
submission_made ntn1 peer server version none initialised =
    if_cases (λ r. IsMade (finished version) (finish r)) (version == ntn1) _ _
      (λ _. init_made version _ initialised refl refl refl refl)
      (λ _. kept version _ refl refl refl refl)

pub made :
    (ntn1 : ℕ) (peer : Peer) (server : Bool) (limited : Option Error) (ended : HandshakeEnd)
    (reset configured initialised : Option Error)
    → IsMade ended (
        new_node_to_node_peer_connection ntn1 peer (record {
          server = server;
          limited = limited;
          ended = ended;
          reset = reset;
          configured = configured;
          initialised = initialised;
        }))
unfolding new_node_to_node_peer_connection handshake
made ntn1 peer server (some e) ended reset configured initialised =
    given_up ended _ e (record { once = refl })
made ntn1 peer server none (cancelled e) none configured initialised =
    given_up _ _ e (record { once = refl })
made ntn1 peer server none (cancelled e) (some f) configured initialised =
    given_up _ _ e (record { once = refl })
made ntn1 peer server none (protocol_failed e) none configured initialised =
    given_up _ _ e (record { once = refl })
made ntn1 peer server none (protocol_failed e) (some f) configured initialised =
    given_up _ _ e (record { once = refl })
made ntn1 peer server none (muxer_failed e) none configured initialised =
    given_up _ _ e (record { once = refl })
made ntn1 peer server none (muxer_failed e) (some f) configured initialised =
    given_up _ _ e (record { once = refl })
made ntn1 peer server none (finished version) (some e) configured initialised =
    given_up _ _ e (record { once = refl })
made ntn1 peer server none (finished version) none configured initialised =
    submission_made ntn1 peer server version configured initialised
