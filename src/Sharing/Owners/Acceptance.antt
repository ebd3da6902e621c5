-- ===== src/Sharing/Owners/Acceptance.antt =====
-- The copies that `submitSigned` of topic.go makes of a message it accepts.
use dmq_lib.Prelude.{
  ℕ, ◌≤◌, ◌<◌, ◌≡◌, inl, inr, refl, ◌∙◌, Bool, true, false, none, some, ==_iff, nat_eq, arith,
  Bool-cases,
}
use dmq_lib.Sharing.{Heap, Slice, SharedMessage, clone_bytes, clone_message, message_at}
use dmq_lib.Sharing.Copies.{
  Extends-trans, OnSlice, OnMessage, IsBelow, IsFresh, IsLibrary, IsFresh-widen, IsFresh→IsBelow,
  IsBelow-widen, message_at-Extends, clone_message-IsMessageCopy, clone_bytes_later,
  clone_bytes-IsCopy, IsCopy-later,
}
use dmq_lib.Sharing.Owners.{hold, hold_message, is_held, is_message_held, accept_copies, Accepted}
use dmq_lib.Sharing.Owners.Growth.{
  IsMade, Grows, Grows-refl, Grows-trans, Grows-Extends, Grows-hold, Grows-hold_message,
  IsGiven-Extends, IsFresh→IsGiven, OnMessage-mono, IsBelow-later, clone_message-IsForOthers,
}

-- The array is the topic's alone.
abbrev pub IsOwn : Heap → (ℕ → Bool) → Slice → Type 0
IsOwn h held s = OnSlice (λ a. (a < h.next) × (held a ≡ false)) s

pub IsOwn-Grows :
    (h k : Heap) (p q : ℕ → Bool) (s : Slice) → Grows h p k q → IsOwn h p s → IsOwn k q s
IsOwn-Grows h k p q none g o = tt
IsOwn-Grows h k p q (some a) g o = (
  omega (arith, o.0, g.extends.grows),
  elim (Bool-cases (q a)) [ inl e ↦ cc (o.1, g.agrees a o.0 e) | inr e ↦ e ],
)

pub IsOwn→IsBelow : (h : Heap) (p : ℕ → Bool) (s : Slice) → IsOwn h p s → IsBelow h.next s
IsOwn→IsBelow h p none o = tt
IsOwn→IsBelow h p (some a) o = o.0

pub is_held_more :
    (h k : Heap) (p q : ℕ → Bool) (s : Slice)
    → Grows h p k q
    → is_held p s ≡ true
    → is_held q s ≡ true
is_held_more h k p q none g e = refl
is_held_more h k p q (some a) g e = g.more a e

is_held-hold : (p : ℕ → Bool) (s : Slice) → is_held (hold s p) s ≡ true
is_held-hold p none = refl
is_held-hold p (some a) = ground (arith, ==_iff a a)

is_held→IsBelow :
    (h : Heap) (p : ℕ → Bool) (s : Slice) → IsMade h p → is_held p s ≡ true → IsBelow h.next s
is_held→IsBelow h p none m e = tt
is_held→IsBelow h p (some a) m e = m a e

pub is_message_held→IsBelow :
    (h : Heap) (p : ℕ → Bool) (m : SharedMessage)
    → IsMade h p
    → is_message_held p m ≡ true
    → OnMessage (IsBelow h.next) m
is_message_held→IsBelow h p m made e =
    let cert = m.operational_certificate in
    let below = λ (s : Slice) (x : is_held p s ≡ true). is_held→IsBelow h p s made x in
    (
      below m.message_body (ground arith),
      below m.kes_signature (ground arith),
      below cert.kes_verification_key (ground arith),
      below cert.cold_signature (ground arith),
      below m.cold_verification_key (ground arith),
    )

-- An array made since, other than the ID's, is held by nobody.
IsFresh→IsOwn :
    (h k : Heap) (q : ℕ → Bool) (n : ℕ) (id s : Slice)
    → IsMade h q
    → h.next ≤ n
    → IsBelow n id
    → IsFresh n k.next s
    → IsOwn k (hold id q) s
IsFresh→IsOwn h k q n id none made l b f = tt
IsFresh→IsOwn h k q n none (some a) made l b f = (f.1, ground (arith, made a, f.0))
IsFresh→IsOwn h k q n (some i) (some a) made l b f = (f.1, ground (arith, made a, f.0, ==_iff i a))

-- What others hold once the copies of a message are made.
abbrev pub held_after : Accepted → (ℕ → Bool) → ℕ → Bool
held_after c p = hold c.queued.message_id (hold_message c.message (hold c.id (hold c.body p)))

module _ (set_message_id : Heap → Slice → Heap × Slice) (library : IsLibrary set_message_id) where
  set_message_id-IsBelow :
      (h : Heap) (s : Slice)
      → IsBelow h.next s
      → IsBelow (set_message_id h s).0.next (set_message_id h s).1
  set_message_id-IsBelow h s b =
      let (k, t) = set_message_id h s in
      elim (library.given h s) [
        | inl same ↦ rw same (IsBelow-widen h.next k.next s (library.extends h s).grows b)
        | inr f ↦ IsFresh→IsBelow h.next k.next t f
      ]

  -- The envelope's slices may be given to others, before the queued message is copied.
  record IsEnvelope (h k : Heap) (p : ℕ → Bool) (message : SharedMessage) (id body : Slice)
      : Type 0 where
    pub grows : Grows h p k (hold_message message (hold id (hold body p)))

  clone_message-IsEnvelope :
      (h : Heap) (p : ℕ → Bool) (m : SharedMessage)
      → IsMade h p
      → is_message_held p m ≡ true
      → let (h1, message) = clone_message set_message_id h m in
        let (h2, id) = clone_bytes h1 m.message_id in
        let (h3, body) = clone_bytes h2 m.message_body in IsEnvelope h h3 p message id body
  clone_message-IsEnvelope h p m made e =
      let below = is_message_held→IsBelow h p m made e in
      let held_id : is_held p m.message_id ≡ true = ground arith in
      let first = clone_message-IsForOthers set_message_id library h p m made below held_id in
      let (h1, message) = clone_message set_message_id h m in
      let (h2, id) = clone_bytes h1 m.message_id in
      let (h3, body) = clone_bytes h2 m.message_body in
      let c2 =
        clone_bytes_later h h1 m.message_id first.extends
          (is_held→IsBelow h p m.message_id made held_id) in
      let c3 = clone_bytes_later h h2 m.message_body c2.extends below.0 in
      let e3 = (clone_bytes-IsCopy h2 m.message_body).extends in
      let e2 = Extends-trans h1 h2 h3 (clone_bytes-IsCopy h1 m.message_id).extends e3 in
      let g0 = Grows-Extends h h h3 p p (Grows-refl h p made) c3.extends in
      let g1 = Grows-hold h h3 p p body g0 (IsFresh→IsGiven h h3 p body c3.fresh) in
      let d2 = IsCopy-later h h2 h3 m.message_id id c2 e3 in
      let g2 = Grows-hold h h3 p (hold body p) id g1 (IsFresh→IsGiven h h3 p id d2.fresh) in
      record {
        grows =
            Grows-hold_message h h3 p (hold id (hold body p)) message g2
              (IsGiven-Extends h h1 h3 p message.message_id e2 first.id)
              (OnMessage-mono (IsFresh h.next h1.next) (IsFresh h.next h3.next) message
                (λ t f. IsFresh-widen h.next h.next h1.next h3.next t (omega arith) e2.grows f)
                first.fresh);
      }

  -- The queued message is the topic's alone but for its ID, and shows what was submitted.
  pub record IsAcceptance (h : Heap) (p : ℕ → Bool) (m : SharedMessage) (c : Accepted)
      : Type 0 where
    pub grows : Grows h p c.heap (held_after c p)
    pub own : OnMessage (IsOwn c.heap (held_after c p)) c.queued
    pub id : is_held (held_after c p) c.queued.message_id ≡ true
    pub same : message_at c.heap c.queued ≡ message_at h m

  pub accept_copies-IsAcceptance :
      (h : Heap) (p : ℕ → Bool) (m : SharedMessage)
      → IsMade h p
      → is_message_held p m ≡ true
      → IsAcceptance h p m (accept_copies set_message_id h m)
  unfolding accept_copies clone_message
  accept_copies-IsAcceptance h p m made e =
      let begun = (clone_message-IsEnvelope h p m made e).grows in
      let (h1, message) = clone_message set_message_id h m in
      let (h2, id) = clone_bytes h1 m.message_id in
      let (h3, body) = clone_bytes h2 m.message_body in
      let q = hold_message message (hold id (hold body p)) in
      let below = is_message_held→IsBelow h p m made e in
      let below3 = IsBelow-later h h3 begun.extends m below in
      let held_id : is_held q m.message_id ≡ true =
        is_held_more h h3 p q m.message_id begun (ground arith) in
      let others =
        clone_message-IsForOthers set_message_id library h3 q m begun.made below3 held_id in
      let copy = clone_message-IsMessageCopy set_message_id library h3 m below3 in
      let (k, s) = set_message_id h3 m.message_id in
      let first = library.extends h3 m.message_id in
      let (h4, queued) = clone_message set_message_id h3 m in
      let last =
        Grows-hold h3 h4 q q s
          (Grows-Extends h3 h3 h4 q q (Grows-refl h3 q begun.made) others.extends) others.id in
      let id_below =
        set_message_id-IsBelow h3 m.message_id
          (is_held→IsBelow h3 q m.message_id begun.made held_id) in
      record {
        grows = Grows-trans h h3 h4 p q (hold s q) begun last;
        own =
            OnMessage-mono (IsFresh k.next h4.next) (IsOwn h4 (hold s q)) queued
              (λ t f. IsFresh→IsOwn h3 h4 q k.next s t begun.made first.grows id_below f)
              copy.fresh;
        id = is_held-hold q s;
        same = copy.same ∙ message_at-Extends h h3 m begun.extends below;
      }
