-- ===== src/Sharing/Copies.antt =====
-- What the copies of topic.go and signer.go show, and which arrays they take.
use dmq_lib.Prelude.{ℕ, ◌≤◌, ◌<◌, ◌≡◌, refl, ◌∙◌, none, some, ==_iff, ◌⊎◌, nat_eq, Bytes, arith}
use dmq_lib.Sharing.{
  Heap, Slice, read, write, alloc, clone_bytes, SharedMessage, clone_operational_certificate,
  message_at, clone_message,
}

-- The arrays that were there are there still, and show the same.
pub record Extends (h : Heap) (k : Heap) : Type 0 where
  pub grows : h.next ≤ k.next
  pub keeps : (a : ℕ) → a < h.next → k.cell a ≡ h.cell a

pub Extends-refl : (h : Heap) → Extends h h
Extends-refl h = record { grows = omega arith; keeps = λ a l. refl }

pub Extends-trans : (h k j : Heap) → Extends h k → Extends k j → Extends h j
Extends-trans h k j e f = record {
  grows = omega (arith, e.grows, f.grows);
  keeps = λ a l. f.keeps a (omega (arith, e.grows)) ∙ e.keeps a l;
}

-- The array of a slice, if it is not nil, has the property.
abbrev pub OnSlice : (ℕ → Type 0) → Slice → Type 0
OnSlice P none = Unit
OnSlice P (some a) = P a

abbrev pub IsBelow : ℕ → Slice → Type 0
IsBelow n s = OnSlice (λ a. a < n) s

-- The array was made between two states of the memory.
abbrev pub IsFresh : ℕ → ℕ → Slice → Type 0
IsFresh n n' s = OnSlice (λ a. (n ≤ a) × (a < n')) s

pub IsFresh-widen : (n m m' n' : ℕ) (s : Slice) → n ≤ m → m' ≤ n' → IsFresh m m' s → IsFresh n n' s
IsFresh-widen n m m' n' none l r f = tt
IsFresh-widen n m m' n' (some a) l r f = (omega (arith, f.0), omega (arith, f.1))

pub IsBelow-widen : (n n' : ℕ) (s : Slice) → n ≤ n' → IsBelow n s → IsBelow n' s
IsBelow-widen n n' none l b = tt
IsBelow-widen n n' (some a) l b = omega arith

pub read-Extends : (h k : Heap) (s : Slice) → Extends h k → IsBelow h.next s → read k s ≡ read h s
read-Extends h k none e b = refl
read-Extends h k (some a) e b = e.keeps a b

pub alloc-Extends : (h : Heap) (bytes : Bytes) → Extends h (alloc h bytes)
unfolding alloc write
alloc-Extends h bytes = record {
  grows = omega arith;
  keeps = λ a l. ground (arith, ==_iff a h.next);
}

-- A copy is in an array of its own, and shows what the slice shows.
pub record IsCopy (h : Heap) (s : Slice) (c : Heap × Slice) : Type 0 where
  pub extends : Extends h c.0
  pub fresh : IsFresh h.next (c.0).next c.1
  pub same : read c.0 c.1 ≡ read h s

pub clone_bytes-IsCopy : (h : Heap) (s : Slice) → IsCopy h s (clone_bytes h s)
unfolding clone_bytes alloc write
clone_bytes-IsCopy h none = record { extends = Extends-refl h; fresh = tt; same = refl }
clone_bytes-IsCopy h (some a) = record {
  extends = alloc-Extends h (h.cell a);
  fresh = (omega arith, omega arith);
  same = ground (arith, ==_iff h.next h.next);
}

-- A copy made after other changes that leave the slice's array alone.
pub clone_bytes_later :
    (h k : Heap) (s : Slice) → Extends h k → IsBelow h.next s → IsCopy h s (clone_bytes k s)
clone_bytes_later h k s e b =
    let c = clone_bytes-IsCopy k s in
    let (j, t) = clone_bytes k s in
    record {
      extends = Extends-trans h k j e c.extends;
      fresh = IsFresh-widen h.next k.next j.next j.next t e.grows (omega arith) c.fresh;
      same = c.same ∙ read-Extends h k s e b;
    }

pub IsFresh→IsBelow : (n n' : ℕ) (s : Slice) → IsFresh n n' s → IsBelow n' s
IsFresh→IsBelow n n' none f = tt
IsFresh→IsBelow n n' (some a) f = f.1

-- A copy stays one while other arrays are made.
pub IsCopy-later :
    (h k j : Heap) (s t : Slice) → IsCopy h s (k, t) → Extends k j → IsCopy h s (j, t)
IsCopy-later h k j s t c e = record {
  extends = Extends-trans h k j c.extends e;
  fresh = IsFresh-widen h.next h.next k.next j.next t (omega arith) e.grows c.fresh;
  same = read-Extends k j t e (IsFresh→IsBelow h.next k.next t c.fresh) ∙ c.same;
}

-- The property of each slice of a message but its ID's, in the order of `cloneMessage`.
abbrev pub OnMessage : (Slice → Type 0) → SharedMessage → Type 0
OnMessage P m =
    P m.message_body
    × P m.kes_signature
    × P m.operational_certificate.kes_verification_key
    × P m.operational_certificate.cold_signature
    × P m.cold_verification_key

pub message_at-Extends :
    (h k : Heap) (m : SharedMessage)
    → Extends h k
    → OnMessage (IsBelow h.next) m
    → message_at k m ≡ message_at h m
message_at-Extends h k m e b =
    let cert = m.operational_certificate in
    cc (
      read-Extends h k m.message_body e b.0,
      read-Extends h k m.kes_signature e b.1,
      read-Extends h k cert.kes_verification_key e b.2,
      read-Extends h k cert.cold_signature e b.3,
      read-Extends h k m.cold_verification_key e b.4,
    )

-- What gOuroboros may do with an ID's slice: no array changes, and the message holds the slice, or
-- one of a new array.
pub record IsLibrary (set_message_id : Heap → Slice → Heap × Slice) : Type 0 where
  pub extends : (h : Heap) (s : Slice) → Extends h (set_message_id h s).0
  pub given :
      (h : Heap) (s : Slice)
      → ((set_message_id h s).1 ≡ s)
        ⊎ IsFresh h.next ((set_message_id h s).0).next (set_message_id h s).1

-- Each slice of the second message but its ID's is a copy of the first's, in an array made since
-- `base`.
pub record IsMessageCopy (base h : Heap) (m : SharedMessage) (c : Heap × SharedMessage)
    : Type 0 where
  pub extends : Extends base c.0
  pub fresh : OnMessage (IsFresh base.next (c.0).next) c.1
  pub same : message_at c.0 c.1 ≡ message_at h m

module _ (set_message_id : Heap → Slice → Heap × Slice) (library : IsLibrary set_message_id) where
  pub clone_message-IsMessageCopy :
      (h : Heap) (m : SharedMessage)
      → OnMessage (IsBelow h.next) m
      → IsMessageCopy (set_message_id h m.message_id).0 h m (clone_message set_message_id h m)
  unfolding clone_message clone_operational_certificate
  clone_message-IsMessageCopy h m b =
      let cert = m.operational_certificate in
      let h1 = (set_message_id h m.message_id).0 in
      let e1 = library.extends h m.message_id in
      let below = λ (s : Slice) (x : IsBelow h.next s). IsBelow-widen h.next h1.next s e1.grows x in
      let (h2, body) = clone_bytes h1 m.message_body in
      let c2 = clone_bytes-IsCopy h1 m.message_body in
      let (h3, signature) = clone_bytes h2 m.kes_signature in
      let c3 = clone_bytes_later h1 h2 m.kes_signature c2.extends (below m.kes_signature b.1) in
      let (h4, key) = clone_bytes h3 cert.kes_verification_key in
      let c4 =
        clone_bytes_later h1 h3 cert.kes_verification_key c3.extends
          (below cert.kes_verification_key b.2) in
      let (h5, cold_signature) = clone_bytes h4 cert.cold_signature in
      let c5 =
        clone_bytes_later h1 h4 cert.cold_signature c4.extends (below cert.cold_signature b.3) in
      let (h6, cold) = clone_bytes h5 m.cold_verification_key in
      let c6 =
        clone_bytes_later h1 h5 m.cold_verification_key c5.extends
          (below m.cold_verification_key b.4) in
      let e5 = (clone_bytes-IsCopy h5 m.cold_verification_key).extends in
      let e4 = Extends-trans h4 h5 h6 (clone_bytes-IsCopy h4 cert.cold_signature).extends e5 in
      let e3 =
        Extends-trans h3 h4 h6 (clone_bytes-IsCopy h3 cert.kes_verification_key).extends e4 in
      let e2 = Extends-trans h2 h3 h6 (clone_bytes-IsCopy h2 m.kes_signature).extends e3 in
      let d2 = IsCopy-later h1 h2 h6 m.message_body body c2 e2 in
      let d3 = IsCopy-later h1 h3 h6 m.kes_signature signature c3 e3 in
      let d4 = IsCopy-later h1 h4 h6 cert.kes_verification_key key c4 e4 in
      let d5 = IsCopy-later h1 h5 h6 cert.cold_signature cold_signature c5 e5 in
      record {
        extends = c6.extends;
        fresh = (d2.fresh, d3.fresh, d4.fresh, d5.fresh, c6.fresh);
        same = cc (d2.same, d3.same, d4.same, d5.same, c6.same) ∙ message_at-Extends h h1 m e1 b;
      }
