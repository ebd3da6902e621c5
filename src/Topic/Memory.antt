-- ===== src/Topic/Memory.antt =====
-- Duplicate suppression of topic.go: an accepted ID is refused again within the window.
use dmq_lib.Prelude.{
  ◌≡◌, ap, ◌∙◌, String, Bool, true, false, Option, none, some, [], ◌∷◌, ==_iff, bytes_eq, Bytes,
  arith, if_cases, option_cases,
}
use dmq_lib.Prelude.Dict.{Dict, lookup, has, retain, lookup-insert, has-lookup}
use dmq_lib.Prelude.Int.{ltb_ℤ}
use dmq_lib.Time.{Time, time_sub, is_nonpositive}
use dmq_lib.Peer.{Peer}
use dmq_lib.Wire.{DmqMessage, Wire}
use dmq_lib.Config.{TopicConfig, message_source_local}
use dmq_lib.Topic.{
  TopicRuntime, Outcome, prune_queue_locked, prune_seen_locked, pruned, admit, submit_signed,
  publish, envelope, normalize_and_validate_message,
}
use dmq_lib.Topic.Cases.{admit_cases, submit_cases, publish_cases, enqueued}
use dmq_lib.Topic.Quiet.{Quiet, call_rejected-Quiet, call_accepted-Quiet, reject-Quiet, pruned_lem}

-- An entry that a pruning keeps is found with the same value.
lookup-retain-some :
    (keep : Bytes → Time → Bool) (k : Bytes) (v : Time) (m : Dict Bytes Time)
    → lookup k m ≡ some v
    → keep k v ≡ true
    → lookup k (retain keep m) ≡ some v
unfolding lookup retain
lookup-retain-some keep k v [] h e = cc
lookup-retain-some keep k v ((j, w) ∷ m) h e =
    ground (arith, ==_iff j k, lookup-retain-some keep k v m)

-- The ID was accepted at the time `at`, under the configuration `cfg`.
pub record Remembers (cfg : TopicConfig) (key : Bytes) (at : Time) (t : TopicRuntime) : Type 0 where
  pub same : t.cfg ≡ cfg
  pub found : lookup key t.seen ≡ some at

-- The clock has not left the window of an ID that was accepted at the time `at`.
abbrev pub InWindow : TopicConfig → Time → Time → Type 0
InWindow cfg at now = ltb_ℤ cfg.queue.duplicate_ttl (time_sub now at) ≡ false

module _ (cfg : TopicConfig) (key : Bytes) (at : Time) where
  pub Quiet-Remembers :
      (t u : TopicRuntime) → Quiet t u → Remembers cfg key at t → Remembers cfg key at u
  Quiet-Remembers t u q r = record {
    same = ap (λ (v : TopicRuntime). v.cfg) q ∙ r.same;
    found = ap (λ (v : TopicRuntime). lookup key v.seen) q ∙ r.found;
  }

  pub prune_queue-Remembers :
      (w : Wire) (now : Time) (t : TopicRuntime)
      → Remembers cfg key at t
      → Remembers cfg key at (prune_queue_locked w now t)
  unfolding prune_queue_locked
  prune_queue-Remembers w now t r = record { same = r.same; found = r.found }

  prune_seen-Remembers :
      (w : Wire) (now : Time) (t : TopicRuntime)
      → InWindow cfg at now
      → Remembers cfg key at t
      → Remembers cfg key at (prune_seen_locked w now t)
  unfolding prune_seen_locked
  prune_seen-Remembers w now t h r =
      if_cases (Remembers cfg key at) (is_nonpositive t.cfg.queue.duplicate_ttl) _ _ (λ _. r)
        λ _. record {
          same = r.same;
          found = lookup-retain-some _ key at t.seen r.found (rw r.same (rw h));
        }

  pruned-Remembers :
      (w : Wire) (now : Time) (t : TopicRuntime)
      → InWindow cfg at now
      → Remembers cfg key at t
      → Remembers cfg key at (pruned w now t)
  pruned-Remembers w now t h r =
      prune_queue-Remembers w now (prune_seen_locked w now t) (prune_seen-Remembers w now t h r)

  -- A message that is taken has another ID.
  enqueued-Remembers :
      (w : Wire) (t : TopicRuntime) (source : String) (peer : Option Peer) (now : Time)
      (m : DmqMessage)
      → has (w.msg_id m) (pruned w now t).seen ≡ false
      → Remembers cfg key at (pruned w now t)
      → Remembers cfg key at (enqueued w t source peer now m)
  enqueued-Remembers w t source peer now m unseen r = record {
    same = r.same;
    found = ground (
      arith,
      lookup-insert (w.msg_id m) key now (pruned w now t).seen,
      ==_iff (w.msg_id m) key,
      has-lookup key (pruned w now t).seen at r.found,
      r.found,
    );
  }

  admit-Remembers :
      (w : Wire) (t : TopicRuntime) (m : DmqMessage) (source : String) (peer : Option Peer)
      (now : Time)
      → InWindow cfg at now
      → Remembers cfg key at t
      → Remembers cfg key at (admit w t m source peer now).topic
  admit-Remembers w t m source peer now h r =
      let p = pruned-Remembers w now t h r in
      admit_cases w t source peer now (λ o. Remembers cfg key at o.topic) m (λ _. r)
        (λ _ _. Quiet-Remembers _ _ (call_rejected-Quiet (pruned w now t) m _) p)
        (λ _ _ _. Quiet-Remembers _ _ (call_rejected-Quiet (pruned w now t) m _) p)
        (λ _ unseen _.
          Quiet-Remembers _ _
            (call_accepted-Quiet (enqueued w t source peer now m) (envelope w t m source peer now))
            (enqueued-Remembers w t source peer now m unseen p))

  pub submit_signed-Remembers :
      (w : Wire) (t : TopicRuntime) (msg : Option DmqMessage) (source : String) (peer : Option Peer)
      (checked now : Time)
      → InWindow cfg at now
      → Remembers cfg key at t
      → Remembers cfg key at (submit_signed w t msg source peer checked now).topic
  submit_signed-Remembers w t none source peer checked now h r = unfold submit_signed in r
  submit_signed-Remembers w t (some msg) source peer checked now h r =
      let m = (normalize_and_validate_message w msg).0 in
      submit_cases w t source peer now (λ o. Remembers cfg key at o.topic) checked msg
        (λ e _. Quiet-Remembers t _ (reject-Quiet t m e) r)
        (λ e _ _. Quiet-Remembers t _ (reject-Quiet t m e) r)
        (λ e _ _ _. Quiet-Remembers t _ (call_rejected-Quiet t m _) r)
        (λ _ _ _. admit-Remembers w t m source peer now h r)

  pub publish-Remembers :
      (w : Wire) (t : TopicRuntime) (body : Bytes) (signed checked now : Time)
      → InWindow cfg at now
      → Remembers cfg key at t
      → Remembers cfg key at (publish w t body signed checked now).topic
  publish-Remembers w t body signed checked now h r =
      publish_cases w t body signed checked now (λ o. Remembers cfg key at o.topic) (λ _. r)
        (λ _ _. r) (λ _ _ _ _ _. r)
        (λ _ _ msg _ _ _.
          let o = submit_signed w t msg message_source_local none checked now in
          let s = submit_signed-Remembers w t msg message_source_local none checked now h r in
          option_cases (λ (r : Outcome). Remembers cfg key at r.topic) o.error _ _ (λ _. s)
            (λ _ _. s))

  -- A message whose ID is remembered is not taken.
  pub submit_signed_again :
      (w : Wire) (t : TopicRuntime) (msg : DmqMessage) (source : String) (peer : Option Peer)
      (checked now : Time)
      → w.msg_id (normalize_and_validate_message w msg).0 ≡ key
      → InWindow cfg at now
      → Remembers cfg key at t
      → (submit_signed w t (some msg) source peer checked now).error ≡ none
      → ⊥
  submit_signed_again w t msg source peer checked now e h r =
      let p = pruned-Remembers w now t h r in
      let seen = has-lookup key (pruned w now t).seen at p.found in
      submit_cases w t source peer now (λ o. o.error ≡ none → ⊥) checked msg (λ _ _ x. cc)
        (λ _ _ _ x. cc) (λ _ _ _ _ x. cc)
        (λ _ _ _.
          admit_cases w t source peer now (λ o. o.error ≡ none → ⊥)
            (normalize_and_validate_message w msg).0 (λ _ x. cc) (λ _ _ x. cc) (λ _ _ _ x. cc)
            (λ _ unseen _ x. cc (e, seen, unseen)))

-- An accepted message is remembered, from the time of its acceptance.
pub accepted-Remembers :
    (w : Wire) (t : TopicRuntime) (msg : DmqMessage) (source : String) (peer : Option Peer)
    (checked now : Time)
    → (submit_signed w t (some msg) source peer checked now).error ≡ none
    → Remembers t.cfg
        (w.msg_id (normalize_and_validate_message w msg).0)
        now
        (submit_signed w t (some msg) source peer checked now).topic
accepted-Remembers w t msg source peer checked now =
    let m = (normalize_and_validate_message w msg).0 in
    let key = w.msg_id m in
    let P : Outcome → Type 0 = λ o. o.error ≡ none → Remembers t.cfg key now o.topic in
    submit_cases w t source peer now P checked msg (λ _ _ x. cc) (λ _ _ _ x. cc) (λ _ _ _ _ x. cc)
      (λ _ _ _.
        admit_cases w t source peer now P m (λ _ x. cc) (λ _ _ x. cc) (λ _ _ _ x. cc)
          (λ _ _ _ _.
            Quiet-Remembers t.cfg key now (enqueued w t source peer now m) _
              (call_accepted-Quiet (enqueued w t source peer now m)
                (envelope w t m source peer now))
              (record {
                same = ap (λ (v : TopicRuntime). v.cfg) (pruned_lem w now t);
                found =
                    ground (arith, lookup-insert key key now (pruned w now t).seen, ==_iff key key);
              })))
