-- ===== src/Network/Starting.antt =====
-- `StartNodeToNode` of network.go.
use dmq_lib.Prelude.{
  ℕ, ◌≡◌, ◌≢◌, ◌↔◌, refl, ◌∙◌, String, Bool, true, false, not, ◌||◌, Option, none, some, List, [],
  ◌∷◌, ◌==◌, ==_iff, nat_eq, string_eq, filter, any, arith, if_cases, option_cases, Bytes,
}
use dmq_lib.Errors.{Error, Result, ok, err, result_cases}
use dmq_lib.Peer.{Peer}
use dmq_lib.Topic.{TopicRuntime}
use dmq_lib.Manager.{Manager, topic, on_topic, topic_peers, register_service, unregister_service}
use dmq_lib.Network.{
  Service, NodeToNodeConfig, new_node_to_node_service, start, may_start, start_node_to_node,
}

-- A service may start on a topic exactly where the manager finds the topic, the topic has a network
-- magic, and it requires authentication or allows to go without.
pub may_start_iff :
    (m : Manager) (name : String) (rt : TopicRuntime)
    → (may_start m name ≡ ok rt) ↔ (
        (topic m name ≡ ok rt)
        × (rt.cfg.network_magic ≢ 0)
        × ((rt.cfg.authentication.required || rt.cfg.authentication.allow_unauthenticated) ≡ true))
unfolding may_start
may_start_iff m name rt = (λ h. ground (arith, h), λ h. ground (arith, h.0, h.1))

-- The service with the number is one of the manager's.
abbrev pub runs : ℕ → Manager → Bool
runs id m = any (λ i. i == id) m.services

any-unregistered :
    (id : ℕ) (is : List ℕ) → any (λ i. i == id) (filter (λ i. not (i == id)) is) ≡ false
any-unregistered id [] = refl
any-unregistered id (i ∷ is) = ground (arith, any-unregistered id is)

runs-unregister_service : (id : ℕ) (m : Manager) → runs id (unregister_service m id) ≡ false
unfolding unregister_service
runs-unregister_service id m = any-unregistered id m.services

topic_peers-services :
    (ip_string : Bytes → String) (m : Manager) (name : String)
    → (topic_peers ip_string m name).0.services ≡ m.services
unfolding topic_peers on_topic
topic_peers-services ip_string m name =
    result_cases {A = Manager × Result (List Peer)} (λ r. r.0.services ≡ m.services) (topic m name)
      _ _ (λ _ _. refl) (λ _ _. refl)

abbrev is_nil {ℓ} : {A : Type ℓ} → Option A → Bool
is_nil none = true
is_nil (some a) = false

abbrev pub is_ok {ℓ} : {A : Type ℓ} → Result A → Bool
is_ok (ok a) = true
is_ok (err e) = false

module _ (ip_string : Bytes → String) (m : Manager) (s : Service) (cancelled : Option Error)
    (listened : Result (Unit {0})) where
  abbrev Started : Manager × Service × Option Error → Type 0
  Started r = r.2 ≡ none → runs s.id r.0 ≡ runs s.id m

  refused : (m' : Manager) (s' : Service) (e : Error) → Started (m', s', some e)
  refused m' s' e x = cc

  -- A start without an error leaves the manager's services as they are.
  start-Started : Started (start ip_string m s cancelled listened)
  unfolding start
  start-Started =
      let known = topic_peers-services ip_string m s.topic_name in
      let rest =
        result_cases Started (topic_peers ip_string m s.topic_name).1 _ _ (λ _ _ x. cc)
          (λ peers _ x. cc known) in
      option_cases Started cancelled _ _
        (λ _.
          if_cases Started (s.cfg.listen_address == "") _ _ (λ _. rest)
            (λ _. result_cases Started listened _ _ (λ e _. refused m s _) (λ _ _. rest)))
        (λ e _. refused m s e)

register_service-runs :
    (m : Manager) (id : ℕ)
    → (register_service m id).1 ≡ none
    → runs id (register_service m id).0 ≡ true
unfolding register_service
register_service-runs m id h = ground (arith, ==_iff id id, h)

register_service_refused :
    (m : Manager) (id : ℕ) (e : Error)
    → (register_service m id).1 ≡ some e
    → (register_service m id).0 ≡ m
unfolding register_service
register_service_refused m id e h = ground (arith, h)

-- Starting a service with a new number registers it with the manager exactly where it gives one; where
-- it gives an error, a guard's, the listener's, or the peer discovery's, nothing is left registered.
pub start_node_to_node-runs :
    (ip_string : Bytes → String) (m : Manager) (id : ℕ) (name : String) (cfg : NodeToNodeConfig)
    (cancelled : Option Error) (listened : Result (Unit {0}))
    → runs id m ≡ false
    → runs id (start_node_to_node ip_string m id name cfg cancelled listened).0
      ≡ is_ok (start_node_to_node ip_string m id name cfg cancelled listened).1
unfolding start_node_to_node new_node_to_node_service
start_node_to_node-runs ip_string m id name cfg cancelled listened fresh =
    let P : Manager × Result Service → Type 0 = λ r. runs id r.0 ≡ is_ok r.1 in
    result_cases P (may_start m name) _ _ (λ _ _. fresh)
      λ rt _.
        let s = new_node_to_node_service id rt.name cfg in
        let m' = (register_service m id).0 in
        option_cases P (register_service m id).1 _ _
          (λ r.
            option_cases P (start ip_string m' s cancelled listened).2 _ _
              (λ f.
                start-Started ip_string m' s cancelled listened f ∙ register_service-runs m id r)
              (λ _ _. runs-unregister_service id _))
          (λ e r. cc (register_service_refused m id e r, fresh))
