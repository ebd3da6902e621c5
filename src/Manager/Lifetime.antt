-- ===== src/Manager/Lifetime.antt =====
-- What holds of a manager over its lifetime.
use mathlib.Core.Path.{subst}
use dmq_lib.Prelude.{
  ℕ, ◌+◌, ◌^◌, ◌<◌, ◌≡◌, refl, sym, ◌∙◌, String, true, some, List, [], ◌∷◌, length, Bytes,
  string_eq, arith,
}
use dmq_lib.Prelude.Dict.{lookup}
use dmq_lib.Wire.{Wire}
use dmq_lib.Config.{TopicConfig, ManagerConfig}
use dmq_lib.Config.Defaults.{default_topic_config-IsComplete}
use dmq_lib.Topic.{TopicRuntime, new_topic_runtime}
use dmq_lib.Topic.Invariant.{IsSound}
use dmq_lib.Run.{Call, step}
use dmq_lib.Run.Safety.{IsSound-mono, step-IsSound, new_topic_runtime-IsSound}
use dmq_lib.Run.Kept.{step-Kept}
use dmq_lib.Manager.{Manager, new_manager, configured, is_set}
use dmq_lib.Manager.Registration.{Authenticates, configured-required, configured-authenticator}
use dmq_lib.Manager.Calls.{ManagerCall, manager_step, manager_run}
use dmq_lib.Manager.Isolation.{stays, moves, appears, manager_step-Change}

some_inj : {a b : TopicRuntime} → some a ≡ some b → a ≡ b
some_inj e = cc

-- A topic that a manager holds under a name, after `n` calls.
pub record Managed (n : ℕ) (name : String) (rt : TopicRuntime) : Type 0 where
  pub named : rt.name ≡ name
  pub secured :
      rt.cfg.authentication.required ≡ true → is_set rt.cfg.authentication.authenticator ≡ true
  pub sound : IsSound n rt

abbrev pub IsManaged : ℕ → Manager → Type 0
IsManaged n m =
    (name : String) (rt : TopicRuntime) → lookup name m.topics ≡ some rt → Managed n name rt

configured-Managed :
    (n : ℕ) (m : Manager) (name : String) (cfg : TopicConfig)
    → Authenticates m cfg
    → Managed n name (new_topic_runtime name (configured m cfg))
configured-Managed n m name cfg a = record {
  named = unfold new_topic_runtime in refl;
  secured =
      unfold new_topic_runtime in
      λ h. ground (arith, a, h, configured-required m cfg, configured-authenticator m cfg);
  sound =
      let complete = default_topic_config-IsComplete cfg in
      unfold configured in
      new_topic_runtime-IsSound n name _ (ground (arith, complete.subscriber_buffer))
        (ground (arith, complete.max_messages));
}

module _ (w : Wire) (ip_string : Bytes → String) where
  step-Managed :
      (n : ℕ) (name : String) (rt : TopicRuntime) (c : Call)
      → n + 1 < 2 ^ 64
      → Managed n name rt
      → Managed (n + 1) name (step w ip_string rt c)
  step-Managed n name rt c h a =
      let k = step-Kept w ip_string rt c in
      record {
        named = k.name ∙ a.named;
        secured = rw k.cfg a.secured;
        sound = step-IsSound w ip_string n rt c h a.sound;
      }

  manager_step-IsManaged :
      (n : ℕ) (m : Manager) (c : ManagerCall)
      → n + 1 < 2 ^ 64
      → IsManaged n m
      → IsManaged (n + 1) (manager_step w ip_string m c)
  manager_step-IsManaged n m c h s name rt e = elim (manager_step-Change w ip_string m name c) [
    | stays same ↦
        let a = s name rt (sym same ∙ e) in
        record { named = a.named; secured = a.secured; sound = IsSound-mono n rt a.sound }
    | moves before d found after ↦
        subst (Managed (n + 1) name) (some_inj (sym after ∙ e))
          (step-Managed n name before d h (s name before found))
    | appears cfg missing unclosed auth after ↦
        subst (Managed (n + 1) name) (some_inj (sym after ∙ e))
          (configured-Managed (n + 1) m name cfg auth)
  ]

  manager_run_from-IsManaged :
      (n k : ℕ) (m : Manager) (cs : List ManagerCall)
      → n + length cs ≡ k
      → k < 2 ^ 64
      → IsManaged n m
      → IsManaged k (manager_run w ip_string m cs)
  unfolding manager_run
  manager_run_from-IsManaged n k m [] e h s = subst (λ i. IsManaged i m) (omega (arith, e)) s
  manager_run_from-IsManaged n k m (c ∷ cs) e h s =
      manager_run_from-IsManaged (n + 1) k (manager_step w ip_string m c) cs (omega (arith, e)) h
        (manager_step-IsManaged n m c (omega (arith, e)) s)

-- From the start of a manager and after fewer than 2^64 calls of any kind, every topic it holds
-- keeps the invariant of topics, under its own name, and has an authenticator where it
-- requires authentication.
pub manager_run-IsManaged :
    (w : Wire) (ip_string : Bytes → String) (cfg : ManagerConfig) (cs : List ManagerCall)
    → length cs < 2 ^ 64
    → IsManaged (length cs) (manager_run w ip_string (new_manager cfg) cs)
manager_run-IsManaged w ip_string cfg cs h =
    manager_run_from-IsManaged w ip_string 0 (length cs) (new_manager cfg) cs (omega arith) h
      (unfold new_manager lookup in λ name rt e. cc)
