-- ===== src/Sharing/Owners/Growth.antt =====
-- How the memory and what others hold of it grow: arrays that were the topic's alone stay so.
use dmq_lib.Prelude.{
  ℕ, ◌≤◌, ◌<◌, ◌≡◌, ◌⊎◌, inl, inr, refl, Bool, true, none, some, List, [], ◌∷◌, map, ==_iff, nat_eq,
  arith, All,
}
use dmq_lib.Sharing.{Heap, Slice, SharedMessage, clone_message, message_at}
use dmq_lib.Sharing.Copies.{
  Extends, Extends-refl, Extends-trans, OnSlice, OnMessage, IsBelow, IsFresh, IsLibrary,
  IsFresh-widen, IsBelow-widen, message_at-Extends, clone_message-IsMessageCopy,
}
use dmq_lib.Sharing.Owners.{hold, hold_message, is_held}

-- Nobody holds an array that is yet to be made.
abbrev pub IsMade : Heap → (ℕ → Bool) → Type 0
IsMade h held = (a : ℕ) → held a ≡ true → a < h.next

pub record Grows (h : Heap) (held : ℕ → Bool) (k : Heap) (held' : ℕ → Bool) : Type 0 where
  pub extends : Extends h k
  pub agrees : (a : ℕ) → a < h.next → held' a ≡ true → held a ≡ true
  pub more : (a : ℕ) → held a ≡ true → held' a ≡ true
  pub made : IsMade k held'

pub Grows-refl : (h : Heap) (held : ℕ → Bool) → IsMade h held → Grows h held h held
Grows-refl h held made = record {
  extends = Extends-refl h;
  agrees = λ a l e. e;
  more = λ a e. e;
  made = made;
}

pub Grows-trans : (h k j : Heap) (p q r : ℕ → Bool) → Grows h p k q → Grows k q j r → Grows h p j r
Grows-trans h k j p q r f g = record {
  extends = Extends-trans h k j f.extends g.extends;
  agrees = λ a l e. f.agrees a l (g.agrees a (omega (arith, f.extends.grows)) e);
  more = λ a e. g.more a (f.more a e);
  made = g.made;
}

pub Grows-Extends : (h k j : Heap) (p q : ℕ → Bool) → Grows h p k q → Extends k j → Grows h p j q
Grows-Extends h k j p q f e = record {
  extends = Extends-trans h k j f.extends e;
  agrees = f.agrees;
  more = f.more;
  made = λ a t. omega (arith, f.made a t, e.grows);
}

-- A slice that others may be given: they hold its array, or it is a new one.
abbrev pub IsGiven : Heap → (ℕ → Bool) → Heap → Slice → Type 0
IsGiven h held k s = OnSlice (λ a. (a < k.next) × ((h.next ≤ a) ⊎ (held a ≡ true))) s

pub Grows-hold :
    (h k : Heap) (p q : ℕ → Bool) (s : Slice)
    → Grows h p k q
    → IsGiven h p k s
    → Grows h p k (hold s q)
Grows-hold h k p q none f g = f
Grows-hold h k p q (some b) f g = record {
  extends = f.extends;
  agrees = λ a l e. elim g.1 [
    | inl n ↦ ground (arith, ==_iff b a, f.agrees a l)
    | inr t ↦ ground (arith, ==_iff b a, f.agrees a l)
  ];
  more = λ a e. ground (arith, f.more a e);
  made = λ a e. ground (arith, ==_iff b a, f.made a, g.0);
}

pub IsFresh→IsGiven :
    (h k : Heap) (p : ℕ → Bool) (s : Slice) → IsFresh h.next k.next s → IsGiven h p k s
IsFresh→IsGiven h k p none f = tt
IsFresh→IsGiven h k p (some a) f = (f.1, inl f.0)

pub is_held→IsGiven :
    (h k : Heap) (p q : ℕ → Bool) (s : Slice)
    → IsMade h p
    → Grows h p k q
    → is_held p s ≡ true
    → IsGiven h p k s
is_held→IsGiven h k p q none m g e = tt
is_held→IsGiven h k p q (some a) m g e = (omega (arith, m a e, g.extends.grows), inr e)

-- A copy whose ID's slice others may be given can be given to them.
pub Grows-hold_message :
    (h k : Heap) (p q : ℕ → Bool) (m : SharedMessage)
    → Grows h p k q
    → IsGiven h p k m.message_id
    → OnMessage (IsFresh h.next k.next) m
    → Grows h p k (hold_message m q)
Grows-hold_message h k p q m g i f =
    let step = λ (s : Slice) (r : ℕ → Bool) (e : IsFresh h.next k.next s) (x : Grows h p k r).
      Grows-hold h k p r s x (IsFresh→IsGiven h k p s e) in
    Grows-hold h k p _ m.message_id
      (step m.message_body _ f.0 (
        step m.kes_signature _ f.1 (
          step m.operational_certificate.kes_verification_key _ f.2 (
            step m.operational_certificate.cold_signature _ f.3
              (step m.cold_verification_key _ f.4 g)))))
      i

pub OnMessage-mono :
    (P Q : Slice → Type 0) (m : SharedMessage)
    → ((s : Slice) → P s → Q s)
    → OnMessage P m
    → OnMessage Q m
OnMessage-mono P Q m f (b, s, k, c, v) = (f _ b, f _ s, f _ k, f _ c, f _ v)

pub IsGiven-Extends :
    (h k j : Heap) (p : ℕ → Bool) (s : Slice) → Extends k j → IsGiven h p k s → IsGiven h p j s
IsGiven-Extends h k j p none e g = tt
IsGiven-Extends h k j p (some a) e g = (omega (arith, g.0, e.grows), g.1)

pub IsBelow-later :
    (h k : Heap)
    → Extends h k
    → (m : SharedMessage) → OnMessage (IsBelow h.next) m
    → OnMessage (IsBelow k.next) m
IsBelow-later h k e m b =
    OnMessage-mono (IsBelow h.next) (IsBelow k.next) m
      (λ s x. IsBelow-widen h.next k.next s e.grows x) b

pub messages_at-Extends :
    (h k : Heap) (ms : List SharedMessage)
    → Extends h k
    → All (OnMessage (IsBelow h.next)) ms
    → map (message_at k) ms ≡ map (message_at h) ms
messages_at-Extends h k [] e b = refl
messages_at-Extends h k (m ∷ ms) e b =
    cc (message_at-Extends h k m e b.0, messages_at-Extends h k ms e b.1)

module _ (set_message_id : Heap → Slice → Heap × Slice) (library : IsLibrary set_message_id) where
  -- A copy of a message for others: new arrays, and an ID's slice that they may have.
  pub record IsForOthers (h : Heap) (p : ℕ → Bool) (c : Heap × SharedMessage) : Type 0 where
    pub extends : Extends h c.0
    pub fresh : OnMessage (IsFresh h.next (c.0).next) c.1
    pub id : IsGiven h p c.0 c.1.message_id

  pub clone_message-IsForOthers :
      (h : Heap) (p : ℕ → Bool) (m : SharedMessage)
      → IsMade h p
      → OnMessage (IsBelow h.next) m
      → is_held p m.message_id ≡ true
      → IsForOthers h p (clone_message set_message_id h m)
  unfolding clone_message
  clone_message-IsForOthers h p m made b e =
      let (k, s) = set_message_id h m.message_id in
      let first = library.extends h m.message_id in
      let c = clone_message-IsMessageCopy set_message_id library h m b in
      let (j, copy) = clone_message set_message_id h m in
      record {
        extends = Extends-trans h k j first c.extends;
        fresh =
            OnMessage-mono (IsFresh k.next j.next) (IsFresh h.next j.next) copy
              (λ t f. IsFresh-widen h.next k.next j.next j.next t first.grows (omega arith) f)
              c.fresh;
        id = elim (library.given h m.message_id) [
          | inl same ↦ rw same (
              IsGiven-Extends h k j p m.message_id c.extends (
                is_held→IsGiven h k p p m.message_id made
                  (Grows-Extends h h k p p (Grows-refl h p made) first) e))
          | inr f ↦ IsGiven-Extends h k j p s c.extends (IsFresh→IsGiven h k p s f)
        ];
      }
