-- ===== src/Network/Peering.antt =====
-- network.go: `nodeToNodePeerConnection`, one connection of a service from its handshake to its end.
-- What is called on the socket, on the multiplexer and on the two protocols is a log; what they answer,
-- and which case of a `select` is taken, are arguments. `done` and `errorCh` are flags: the first is
-- closed once, by `closeOnce`, and the second has room for one signal.
pub mod Closing
pub mod Life
use dmq_lib.Prelude.{
  ℕ, Bool, true, false, not, Option, none, some, List, [], ◌∷◌, ◌++◌, ◌==◌, nat_eq, if◌then◌else◌,
}
use dmq_lib.Errors.{Error, Result, ok, err, context}
use dmq_lib.Peer.{Peer}
use dmq_lib.Network.{Service, service_error}

-- A call on the socket, the multiplexer, the handshake or the message-submission protocol.
pub data ConnectionCall : Type 0 where
  set_deadline clear_deadline : ConnectionCall
  start_handshake : Bool → ConnectionCall
  start_muxer_once start_muxer set_diffusion_mode stop_muxer : ConnectionCall
  start_client start_server : ℕ → ConnectionCall
  init_client server_done client_stop : ConnectionCall
  close_conn : ConnectionCall

-- `submission` is the version that message submission was started with.
pub record PeerConnection : Type 0 where
  pub peer : Peer
  pub calls : List ConnectionCall
  pub done : Bool
  pub signalled : Bool
  pub last_err : Option Error
  pub submission : Option ℕ

abbrev pub new_connection : Peer → PeerConnection
new_connection peer = record {
  peer = peer;
  calls = [];
  done = false;
  signalled = false;
  last_err = none;
  submission = none;
}

abbrev log : PeerConnection → List ConnectionCall → PeerConnection
log p cs = record p { calls = p.calls ++ cs }

-- The case that the `select` of a handshake takes.
pub data HandshakeEnd : Type 0 where
  cancelled : Error → HandshakeEnd
  protocol_failed : Error → HandshakeEnd
  muxer_failed : Error → HandshakeEnd
  finished : ℕ → HandshakeEnd

abbrev pub version_of : HandshakeEnd → Result ℕ
version_of (cancelled e) = err e
version_of (protocol_failed e) = err e
version_of (muxer_failed e) = err e
version_of (finished version) = ok version

-- The deferred reset of the deadline: its error counts where there is no other.
abbrev pub after_reset : Option Error → Result ℕ → Result ℕ
after_reset none r = r
after_reset (some e) (ok version) = err e
after_reset (some e) (err f) = err f

-- `handshake`; `limited` and `reset` are the errors of the two calls of `SetDeadline`.
unfoldable pub handshake :
    PeerConnection → Bool → Option Error → HandshakeEnd → Option Error → PeerConnection × Result ℕ
handshake p server limited ended reset =
    let limit = log p (set_deadline ∷ []) in
    elim limited [
      | some e ↦ (limit, err e)
      | none ↦ (
        log limit (start_handshake server ∷ start_muxer_once ∷ clear_deadline ∷ []),
        after_reset reset (version_of ended),
      )
    ]

-- `startMessageSubmission`; `configured` is the error of `messageSubmissionConfig`, `ntn1` the first
-- version of the protocol, and `initialised` the error of `Init`.
unfoldable pub start_message_submission :
    ℕ → PeerConnection → ℕ → Option Error → Option Error → PeerConnection × Option Error
start_message_submission ntn1 p version configured initialised = elim configured [
  | some e ↦ (p, some e)
  | none ↦
      let started =
        record (log p
          (start_client version ∷ start_server version ∷ set_diffusion_mode ∷ start_muxer ∷ [])) {
            submission = some version;
          } in
      if version == ntn1 then (log started (init_client ∷ []), initialised) else (started, none)
]

-- What `Close` calls on the protocol, where it was started.
abbrev pub stop_submission : Option ℕ → List ConnectionCall
stop_submission none = []
stop_submission (some version) = server_done ∷ client_stop ∷ []

-- `Close`
unfoldable pub close_peer : PeerConnection → PeerConnection
close_peer p = if p.done then p else record p {
  done = true;
  calls = p.calls ++ (stop_submission p.submission ++ stop_muxer ∷ close_conn ∷ []);
}

-- What the outside answers while a connection is made.
pub record Setup : Type 0 where
  pub server : Bool
  pub limited : Option Error
  pub ended : HandshakeEnd
  pub reset : Option Error
  pub configured : Option Error
  pub initialised : Option Error

-- `newNodeToNodePeerConnection`, with the connection that is left, also where there is an error.
unfoldable pub new_node_to_node_peer_connection : ℕ → Peer → Setup → PeerConnection × Option Error
new_node_to_node_peer_connection ntn1 peer a =
    let (p, agreed) = handshake (new_connection peer) a.server a.limited a.ended a.reset in
    elim agreed [
      | err e ↦ (close_peer p, some e)
      | ok version ↦
          let (q, failed) = start_message_submission ntn1 p version a.configured a.initialised in
          elim failed [ some e ↦ (close_peer q, some e) | none ↦ (q, none) ]
    ]

-- The rest of `handleConnection` where the making failed: the socket is closed, which `Close` has
-- done too.
unfoldable pub close_refused : PeerConnection → PeerConnection
close_refused p = record p { calls = p.calls ++ close_conn ∷ [] }

-- `sendError`, on the connection; the service's part is `service_error`.
unfoldable pub send_error : PeerConnection → Error → PeerConnection
send_error p e = record p { last_err = some e; signalled = true }

-- The case that the `select` of `forwardErrors` takes: nothing is received from a channel that is
-- closed.
pub data Forwarded : Type 0 where
  service_ended connection_done : Forwarded
  received : Option Error → Forwarded

-- `forwardErrors`, with its deferred `Close`.
unfoldable pub forward_errors : Service → PeerConnection → Forwarded → Service × PeerConnection
forward_errors s p service_ended = (s, close_peer p)
forward_errors s p connection_done = (s, close_peer p)
forward_errors s p (received none) = (s, close_peer p)
forward_errors s p (received (some e)) = (service_error s e, close_peer (send_error p e))

-- The end of `startPull`; `requested` is the error of the first request.
unfoldable pub start_pull : Service → PeerConnection → Option Error → Service × PeerConnection
start_pull s p requested = elim p.submission [
  | none ↦ (s, p)
  | some version ↦ elim requested [
    | none ↦ (s, p)
    | some e ↦ let e' = context "request DMQ message IDs" e in (service_error s e', send_error p e')
  ]
]

-- The case that the `select` of `Wait` takes.
pub data Waited : Type 0 where
  by_service by_done by_error : Waited

-- `Wait`
unfoldable pub wait : PeerConnection → Waited → PeerConnection
wait p by_service = close_peer p
wait p by_done = p
wait p by_error = close_peer p
