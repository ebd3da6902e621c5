-- ===== src/Manager/Isolation.antt =====
-- The topics of a manager do not disturb each other, and a topic's runtime changes by the calls of
-- topic.go and discovery.go only.
use dmq_lib.Prelude.{
  ◌≡◌, refl, inl, inr, String, Bool, false, Option, none, some, [], ◌∷◌, Bytes, ◌==◌, ==_iff, ◌&&◌,
  not, string_eq, arith, if_cases, option_cases, Bool-cases,
}
use dmq_lib.Prelude.Dict.{Dict, lookup, lookup-insert, has, lookup-has-false}
use dmq_lib.Errors.{Error, Result, ok, result_cases}
use dmq_lib.Wire.{Wire}
use dmq_lib.Config.{TopicConfig, message_source_local, message_source_remote}
use dmq_lib.Topic.{TopicRuntime, new_topic_runtime}
use dmq_lib.Manager.{
  Manager, is_set, configured, put_topic, topic, on_topic, register_topic, register_service,
  begin_shutdown, close_topics, finish_shutdown, manager_publish, manager_submit_signed,
  manager_submit_remote, manager_subscribe, topic_peers, unregister_service,
}
use dmq_lib.Manager.Registration.{Authenticates, configured-required, configured-authenticator}
use dmq_lib.Run.{Call, submits, publishes, subscribes, discovers, closes, step}
use dmq_lib.Manager.Calls.{
  ManagerCall, registers, publishes_on, subscribes_to, submits_signed, submits_remote, asks_peers,
  on_runtime, starts_service, stops_service, begins_shutdown, finishes_shutdown, hold, manager_step,
}

module _ (w : Wire) (ip_string : Bytes → String) (m : Manager) (name : String) where
  -- How one topic may change: not at all, by one call of a topic, or by its registration.
  pub data Change (before after : Option TopicRuntime) : Type 0 where
    stays : after ≡ before → Change before after
    moves :
        (rt : TopicRuntime) (c : Call)
        → before ≡ some rt
        → after ≡ some (step w ip_string rt c)
        → Change before after
    appears :
        (cfg : TopicConfig)
        → before ≡ none
        → m.closed ≡ false
        → Authenticates m cfg
        → after ≡ some (new_topic_runtime name (configured m cfg))
        → Change before after

  put_topic-Change :
      (other : String) (rt : TopicRuntime) (c : Call)
      → lookup other m.topics ≡ some rt
      → Change
          (lookup name m.topics)
          (lookup name (put_topic m other (step w ip_string rt c)).topics)
  put_topic-Change other rt c h = elim (Bool-cases (other == name)) [
    | inl e ↦
        moves rt c (cc (h, (==_iff other name).0 e))
          (rw (lookup-insert other name (step w ip_string rt c) m.topics, e) refl)
    | inr e ↦ stays (rw (lookup-insert other name (step w ip_string rt c) m.topics, e) refl)
  ]

  topic_ok :
      (other : String) (rt : TopicRuntime) → topic m other ≡ ok rt → lookup other m.topics ≡ some rt
  unfolding topic
  topic_ok other rt h = ground (arith, h)

  on_topic-Change {ℓ} :
      {A : Type ℓ} (other : String) (call : TopicRuntime → TopicRuntime × Result A) (c : Call)
      → ((rt : TopicRuntime) → (call rt).0 ≡ step w ip_string rt c)
      → Change (lookup name m.topics) (lookup name (on_topic m other call).0.topics)
  unfolding on_topic
  on_topic-Change {A = A} other call c same =
      result_cases {A = Manager × Result A}
        (λ r. Change (lookup name m.topics) (lookup name r.0.topics)) (topic m other) _ _
        (λ e _. stays refl)
        (λ rt h. rw (same rt) (put_topic-Change other rt c (topic_ok other rt h)))

  register_topic-Change :
      (other : String) (cfg : TopicConfig)
      → Change (lookup name m.topics) (lookup name (register_topic m other cfg).0.topics)
  unfolding register_topic
  register_topic-Change other cfg =
      let P : Manager × Option Error → Type 0 =
        λ r. Change (lookup name m.topics) (lookup name r.0.topics) in
      let auth = (configured m cfg).authentication in
      if_cases P (other == "") _ _ (λ _. stays refl)
        λ n.
          if_cases P m.closed _ _ (λ _. stays refl)
            λ o.
              if_cases P (has other m.topics) _ _ (λ _. stays refl)
                λ f.
                  if_cases P (auth.required && not (is_set auth.authenticator)) _ _
                    (λ _. stays refl)
                    λ a. elim (Bool-cases (other == name)) [
                      | inl e ↦
                          appears cfg
                            (lookup-has-false name m.topics (cc (f, (==_iff other name).0 e))) o
                            (ground
                              (arith, configured-required m cfg, configured-authenticator m cfg, a))
                            (rw
                              (
                                lookup-insert other name
                                    (new_topic_runtime other (configured m cfg)) m.topics,
                                e,
                              )
                              (cc ((==_iff other name).0 e)))
                      | inr e ↦ stays (
                          rw
                            (
                              lookup-insert other name (new_topic_runtime other (configured m cfg))
                                  m.topics,
                              e,
                            )
                            refl)
                    ]

  lookup-close_topics :
      (ts : Dict String TopicRuntime) → Change (lookup name ts) (lookup name (close_topics ts))
  unfolding lookup close_topics
  lookup-close_topics [] = stays refl
  lookup-close_topics ((k, rt) ∷ ts) = elim (Bool-cases (k == name)) [
    | inl e ↦ moves rt closes (rw e refl) (rw e (unfold step in refl))
    | inr e ↦ rw e (lookup-close_topics ts)
  ]

  hold-Change :
      (other : String) (c : Call)
      → Change (lookup name m.topics) (lookup name (hold w ip_string m other c).topics)
  unfolding hold
  hold-Change other c =
      option_cases (λ (n : Manager). Change (lookup name m.topics) (lookup name n.topics))
        (lookup other m.topics) _ _ (λ _. stays refl) (λ rt h. put_topic-Change other rt c h)

  -- Whatever is called on a manager, a topic of it, by its name, stays as it is, or takes one step of
  -- a topic, or appears as the new topic of a registration on an open manager, with an authenticator
  -- where it requires authentication. No topic ever leaves, and none is replaced.
  pub manager_step-Change :
      (c : ManagerCall)
      → Change (lookup name m.topics) (lookup name (manager_step w ip_string m c).topics)
  unfolding manager_step
  manager_step-Change (registers other cfg) = register_topic-Change other cfg
  manager_step-Change (publishes_on other body signed checked now) =
      unfold manager_publish in
      on_topic-Change other _ (publishes body signed checked now) (λ rt. unfold step in refl)
  manager_step-Change (submits_signed other msg checked now) =
      unfold manager_submit_signed in
      on_topic-Change other _ (submits msg message_source_local none checked now)
        (λ rt. unfold step in refl)
  manager_step-Change (submits_remote other msg peer checked now) =
      unfold manager_submit_remote in
      on_topic-Change other _ (submits msg message_source_remote peer checked now)
        (λ rt. unfold step in refl)
  manager_step-Change (subscribes_to other) =
      unfold manager_subscribe in on_topic-Change other _ subscribes (λ rt. unfold step in refl)
  manager_step-Change (asks_peers other) =
      unfold topic_peers in on_topic-Change other _ discovers (λ rt. unfold step in refl)
  manager_step-Change (on_runtime other c) = hold-Change other c
  manager_step-Change (starts_service i) =
      unfold register_service in
      if_cases
        (λ (r : Manager × Option Error). Change (lookup name m.topics) (lookup name r.0.topics))
        m.closed _ _ (λ _. stays refl) (λ _. stays refl)
  manager_step-Change (stops_service i) = unfold unregister_service in stays refl
  manager_step-Change begins_shutdown =
      unfold begin_shutdown in
      if_cases (λ (r : Manager × Bool). Change (lookup name m.topics) (lookup name r.0.topics))
        m.closed _ _ (λ _. stays refl) (λ _. stays refl)
  manager_step-Change finishes_shutdown = unfold finish_shutdown in lookup-close_topics m.topics
