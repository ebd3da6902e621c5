-- ===== src/Network/Listening.antt =====
-- The listener of a closed service of network.go, over later calls.
use dmq_lib.Network.Calls.{
  ServiceCall, adds_peer, connects, disconnects, accept_fails, opens_listener, closes, service_step,
}
use dmq_lib.Prelude.{
  ◌≡◌, refl, Bool, true, false, List, [], ◌∷◌, nat_eq, string_eq, arith, option_cases,
}
use dmq_lib.Network.{
  Service, add_peer_to_service, normalize_node_to_node_peer, connected, disconnected, accept_failed,
  stop_accepting, close_service, add_connection, remove_connection, service_error,
}

-- Whether a closed service listens after the calls.
abbrev pub still_listens : Bool → List ServiceCall → Bool
still_listens b [] = b
still_listens b (adds_peer p ∷ cs) = still_listens b cs
still_listens b (connects i p ∷ cs) = still_listens b cs
still_listens b (disconnects i p e ∷ cs) = still_listens b cs
still_listens b (accept_fails e ∷ cs) = still_listens false cs
still_listens b (opens_listener ∷ cs) = still_listens true cs
still_listens b (closes ∷ cs) = still_listens b cs

unfoldable pub listening_after : Bool → ServiceCall → Bool
listening_after b c = still_listens b (c ∷ [])

pub still_listens-cons :
    (b : Bool) (c : ServiceCall) (cs : List ServiceCall)
    → still_listens b (c ∷ cs) ≡ still_listens (listening_after b c) cs
unfolding listening_after
still_listens-cons b (adds_peer p) cs = refl
still_listens-cons b (connects i p) cs = refl
still_listens-cons b (disconnects i p e) cs = refl
still_listens-cons b (accept_fails e) cs = refl
still_listens-cons b opens_listener cs = refl
still_listens-cons b closes cs = refl

pub service_step-listening :
    (s : Service) (c : ServiceCall)
    → s.closed ≡ true
    → (service_step s c).listening ≡ listening_after s.listening c
unfolding service_step listening_after add_peer_to_service connected disconnected accept_failed
    stop_accepting close_service service_error add_connection remove_connection
service_step-listening s (adds_peer p) h =
    option_cases (λ (u : Service). u.listening ≡ s.listening) (normalize_node_to_node_peer p) _ _
      (λ _. refl) (λ q _. ground (arith, h))
service_step-listening s (connects i p) h = ground (arith, h)
service_step-listening s (disconnects i p e) h = ground arith
service_step-listening s (accept_fails e) h = refl
service_step-listening s opens_listener h = refl
service_step-listening s closes h = ground (arith, h)
