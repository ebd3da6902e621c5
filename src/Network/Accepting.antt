-- ===== src/Network/Accepting.antt =====
-- `acceptLoop` of network.go, by what the listener answers. The handling of an accepted connection is
-- a goroutine of its own, whose steps are those of `Network`.
use dmq_lib.Prelude.{◌≡◌, String, Bool, true, false, ◌&&◌, not, List, [], ◌∷◌, arith, if◌then◌else◌}
use dmq_lib.Errors.{Error, plain}
use dmq_lib.Peer.{Peer, zero_peer, peer_source_peer_sharing}
use dmq_lib.Network.{Service, stop_accepting, accept_failed, service_error}

-- An error, and whether the service has ended by then; a nil connection; a connection without a
-- remote address; a connection with one.
pub data AcceptAnswer : Type 0 where
  failed : Bool → Error → AcceptAnswer
  nil_connection : AcceptAnswer
  nil_remote : AcceptAnswer
  accepted : String → AcceptAnswer

-- The service, the peers whose connections are handled, in order, and whether the loop has called
-- `cancel`.
pub record Accepting : Type 0 where
  pub service : Service
  pub served : List Peer
  pub cancelled : Bool

unfoldable pub accepted_peer : String → Peer
accepted_peer address = record zero_peer { address = address; source = peer_source_peer_sharing }

abbrev nil_error : Error
nil_error = plain "accept DMQ node-to-node peer: accepted nil connection"

abbrev remote_error : Error
remote_error = plain "accept DMQ node-to-node peer: accepted connection with nil remote address"

unfoldable pub accept_loop : Service → List AcceptAnswer → Accepting
unfolding accept_failed stop_accepting accepted_peer
accept_loop s [] = record { service = s; served = []; cancelled = false }
accept_loop s (failed done e ∷ answers) =
    if done
    then record { service = s; served = []; cancelled = false }
    else record { service = accept_failed s e; served = []; cancelled = true }
accept_loop s (nil_connection ∷ answers) = record {
  service = stop_accepting s nil_error nil_error;
  served = [];
  cancelled = true;
}
accept_loop s (nil_remote ∷ answers) = accept_loop (service_error s remote_error) answers
accept_loop s (accepted address ∷ answers) =
    let rest = accept_loop s answers in record rest { served = accepted_peer address ∷ rest.served }

-- The answer that ends the loop.
abbrev is_last : AcceptAnswer → Bool
is_last (failed done e) = true
is_last nil_connection = true
is_last nil_remote = false
is_last (accepted address) = false

-- Ending the loop, the answer closes the listener and the service: one on a service that has not
-- ended.
abbrev is_fatal : AcceptAnswer → Bool
is_fatal (failed done e) = not done
is_fatal nil_connection = true
is_fatal nil_remote = false
is_fatal (accepted address) = false

-- The peers that the answers bring before the loop ends.
abbrev brought : List AcceptAnswer → List Peer
brought [] = []
brought (a ∷ answers) =
    let rest = brought answers in
    elim a [
      | failed done e ↦ []
      | nil_connection ↦ []
      | nil_remote ↦ rest
      | accepted address ↦ accepted_peer address ∷ rest
    ]

-- The answer that ends the loop, if one does, is fatal.
abbrev ends_fatally : List AcceptAnswer → Bool
ends_fatally [] = false
ends_fatally (a ∷ answers) =
    let rest = ends_fatally answers in if is_last a then is_fatal a else rest

-- The loop hands on the connections with a remote address that are accepted before the listener
-- fails or gives a nil connection, in order and as shared peers. It closes the listener and cancels
-- the service exactly where it ends on a service that has not ended; the service's connections and
-- the addresses it dials stay.
pub accept_loop_lem :
    (s : Service) (answers : List AcceptAnswer)
    → let r = accept_loop s answers in
      (r.served ≡ brought answers)
      × (r.cancelled ≡ ends_fatally answers)
      × (r.service.listening ≡ (s.listening && not (ends_fatally answers)))
      × (r.service.connections ≡ s.connections)
      × (r.service.outbound ≡ s.outbound)
unfolding accept_loop accept_failed stop_accepting service_error
accept_loop_lem s [] = ground arith
accept_loop_lem s (failed done e ∷ answers) = ground arith
accept_loop_lem s (nil_connection ∷ answers) = ground arith
accept_loop_lem s (nil_remote ∷ answers) =
    ground (arith, accept_loop_lem (service_error s remote_error) answers)
accept_loop_lem s (accepted address ∷ answers) = ground (arith, accept_loop_lem s answers)
