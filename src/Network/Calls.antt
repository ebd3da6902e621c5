-- ===== src/Network/Calls.antt =====
-- The steps of a service of network.go, by any callers and goroutines.
use dmq_lib.Prelude.{ℕ, Option, List, [], ◌∷◌, nat_eq, string_eq}
use dmq_lib.Errors.{Error}
use dmq_lib.Peer.{Peer}
use dmq_lib.Network.{
  Service, add_peer_to_service, connected, disconnected, accept_failed, open_listener,
  close_service,
}

-- What may happen to a service once it is registered. The rest of its start is among it, step by step:
-- the listener, each peer, and `Close` where the peers are not found.
pub data ServiceCall : Type 0 where
  adds_peer : Peer → ServiceCall
  connects : ℕ → Peer → ServiceCall
  disconnects : ℕ → Peer → Option Error → ServiceCall
  accept_fails : Error → ServiceCall
  opens_listener closes : ServiceCall

unfoldable pub service_step : Service → ServiceCall → Service
service_step s (adds_peer p) = add_peer_to_service s p
service_step s (connects i p) = connected s i p
service_step s (disconnects i p e) = disconnected s i p e
service_step s (accept_fails e) = accept_failed s e
service_step s opens_listener = open_listener s
service_step s closes = close_service s

unfoldable pub service_run : Service → List ServiceCall → Service
service_run s [] = s
service_run s (c ∷ cs) = service_run (service_step s c) cs
