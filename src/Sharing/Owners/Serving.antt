-- ===== src/Sharing/Owners/Serving.antt =====
-- The copies that `messagesByIDs` of topic.go makes of the messages it serves.
use dmq_lib.Sharing.Owners.Growth.{
  IsMade, Grows, Grows-refl, Grows-trans, Grows-Extends, Grows-hold_message, IsGiven-Extends,
  OnMessage-mono, IsBelow-later, messages_at-Extends, clone_message-IsForOthers,
}
use dmq_lib.Prelude.{ℕ, ◌≡◌, All-mono, refl, Bool, true, List, [], ◌∷◌, map, nat_eq, arith, All}
use dmq_lib.Sharing.{Heap, Slice, SharedMessage, clone_message, message_at}
use dmq_lib.Sharing.Copies.{
  Extends, Extends-refl, Extends-trans, OnMessage, IsBelow, IsFresh, IsLibrary, IsFresh-widen,
  IsFresh→IsBelow, message_at-Extends, clone_message-IsMessageCopy,
}
use dmq_lib.Sharing.Owners.{is_held, hold_messages, serve_copies}

module _ (set_message_id : Heap → Slice → Heap × Slice) (library : IsLibrary set_message_id) where
  -- Served messages are for others.
  pub serve_copies-Grows :
      (h : Heap) (p : ℕ → Bool) (ms : List SharedMessage)
      → IsMade h p
      → All (OnMessage (IsBelow h.next)) ms
      → All (λ m. is_held p m.message_id ≡ true) ms
      → let (k, copies) = serve_copies set_message_id h ms in Grows h p k (hold_messages copies p)
  unfolding serve_copies
  serve_copies-Grows h p [] made b e = Grows-refl h p made
  serve_copies-Grows h p (m ∷ ms) made b e =
      let first = clone_message-IsForOthers set_message_id library h p m made b.0 e.0 in
      let (k, copy) = clone_message set_message_id h m in
      let begun = Grows-Extends h h k p p (Grows-refl h p made) first.extends in
      let rest =
        serve_copies-Grows k p ms begun.made
          (All-mono (OnMessage (IsBelow h.next)) (OnMessage (IsBelow k.next)) ms
            (IsBelow-later h k first.extends) b.1)
          e.1 in
      let (j, copies) = serve_copies set_message_id k ms in
      Grows-hold_message h j p (hold_messages copies p) copy
        (Grows-trans h k j p p (hold_messages copies p) begun rest)
        (IsGiven-Extends h k j p copy.message_id rest.extends first.id)
        (OnMessage-mono (IsFresh h.next k.next) (IsFresh h.next j.next) copy
          (λ t f. IsFresh-widen h.next h.next k.next j.next t (omega arith) rest.extends.grows f)
          first.fresh)

  -- They show what the topic's show.
  pub serve_copies-same :
      (h : Heap) (ms : List SharedMessage)
      → All (OnMessage (IsBelow h.next)) ms
      → (Extends h (serve_copies set_message_id h ms).0)
        × (map
              (message_at (serve_copies set_message_id h ms).0)
              (serve_copies set_message_id h ms).1
            ≡ map (message_at h) ms)
  unfolding serve_copies
  serve_copies-same h [] b = (Extends-refl h, refl)
  serve_copies-same h (m ∷ ms) b =
      let first = clone_message-IsMessageCopy set_message_id library h m b.0 in
      let (k, copy) = clone_message set_message_id h m in
      let begun =
        Extends-trans h (set_message_id h m.message_id).0 k (library.extends h m.message_id)
          first.extends in
      let below =
        All-mono (OnMessage (IsBelow h.next)) (OnMessage (IsBelow k.next)) ms
          (IsBelow-later h k begun) b.1 in
      let rest = serve_copies-same k ms below in
      let j = (serve_copies set_message_id k ms).0 in
      (
        Extends-trans h k j begun rest.0,
        cc (
          message_at-Extends k j copy rest.0 (
              OnMessage-mono (IsFresh (set_message_id h m.message_id).0.next k.next)
                (IsBelow k.next) copy
                (λ s f. IsFresh→IsBelow (set_message_id h m.message_id).0.next k.next s f)
                first.fresh),
          first.same,
          rest.1,
          messages_at-Extends h k ms begun b.1,
        ),
      )
