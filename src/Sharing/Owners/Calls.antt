-- ===== src/Sharing/Owners/Calls.antt =====
-- topic.go: the calls that reach a topic's queue, and the runs of them, by what the slices show.
use dmq_lib.Sharing.Owners.Serving.{serve_copies-Grows, serve_copies-same}
use dmq_lib.Sharing.Owners.Values.{
  shown, IsApart, shown_step, map-filter, map-append, messages_at-write, own-IsBelow, grown,
}
use dmq_lib.Prelude.{
  ℕ, ◌≡◌, refl, ap, ◌∙◌, Bool, true, false, some, List, [], ◌∷◌, nat_eq, arith, All-append,
  All-filter, filter, map, if_cases, Bool-cases, inl, inr, Bytes,
}
use dmq_lib.Wire.{DmqMessage}
use dmq_lib.Sharing.{Heap, Slice, SharedMessage, message_at, write, alloc}
use dmq_lib.Sharing.Copies.{OnMessage, IsBelow, IsLibrary, alloc-Extends}
use dmq_lib.Sharing.Owners.{
  SharedTopic, SharedCall, makes, writes, submits, asks, prunes, hold, is_held, is_message_held,
  accept_copies, serve_copies, hold_messages, shows, shared_step,
}
use dmq_lib.Sharing.Owners.Growth.{Grows-refl, Grows-Extends, Grows-hold}
use dmq_lib.Sharing.Owners.Acceptance.{IsOwn, held_after, accept_copies-IsAcceptance}

-- A topic that has accepted nothing yet, in an empty memory.
abbrev pub no_topic : SharedTopic
no_topic = record { heap = record { next = 0; cell = λ _. [] }; queue = []; held = λ _. false }

abbrev pub shared_run : (Heap → Slice → Heap × Slice) → SharedTopic → List SharedCall → SharedTopic
shared_run set_message_id t [] = t
shared_run set_message_id t (c ∷ cs) = shared_run set_message_id (shared_step set_message_id t c) cs

-- The queue by values: a submitted message is what its slices show then, and is never written to.
abbrev pub shown_run :
    (Heap → Slice → Heap × Slice)
    → SharedTopic
    → List SharedCall
    → List DmqMessage
    → List DmqMessage
shown_run set_message_id t [] q = q
shown_run set_message_id t (c ∷ cs) q =
    shown_run set_message_id (shared_step set_message_id t c) cs (shown_step t c q)

module _ (set_message_id : Heap → Slice → Heap × Slice) (library : IsLibrary set_message_id) where
  abbrev IsValued : SharedTopic → SharedCall → SharedTopic → Type 0
  IsValued t c u = IsApart u × (shown u ≡ shown_step t c (shown t))

  -- An array of one's own is held by whoever makes it.
  makes-IsValued :
      (t : SharedTopic) (bytes : Bytes)
      → IsApart t
      → IsValued t (makes bytes) (shared_step set_message_id t (makes bytes))
  unfolding shared_step alloc
  makes-IsValued t bytes i =
      let h = t.heap in
      let k = alloc h bytes in
      grown t k (hold (some h.next) t.held) i (
        Grows-hold h k t.held t.held (some h.next)
          (Grows-Extends h h k t.held t.held (Grows-refl h t.held i.made) (alloc-Extends h bytes))
          (omega arith, inl (omega arith)))

  writes-IsValued :
      (t : SharedTopic) (a : ℕ) (bytes : Bytes)
      → IsApart t
      → IsValued t (writes a bytes) (shared_step set_message_id t (writes a bytes))
  unfolding shared_step write
  writes-IsValued t a bytes i =
      if_cases (IsValued t (writes a bytes)) (t.held a) _ _
        (λ e. (
          record { made = i.made; own = i.own; ids = i.ids },
          messages_at-write t.heap t.held a bytes t.queue e i.own,
        ))
        (λ e. (i, refl))

  submits-IsValued :
      (t : SharedTopic) (m : SharedMessage)
      → IsApart t
      → IsValued t (submits m) (shared_step set_message_id t (submits m))
  unfolding shared_step
  submits-IsValued t m i = elim (Bool-cases (is_message_held t.held m)) [
    | inl e ↦
        let c = accept_copies set_message_id t.heap m in
        let accepted = accept_copies-IsAcceptance set_message_id library t.heap t.held m i.made e in
        let q = held_after c t.held in
        let (apart, same) = grown t c.heap q i accepted.grows in
        rw e (
          record {
            made = apart.made;
            own =
                All-append (OnMessage (IsOwn c.heap q)) t.queue (c.queued ∷ []) apart.own
                  (accepted.own, tt);
            ids =
                All-append (λ n. is_held q n.message_id ≡ true) t.queue (c.queued ∷ []) apart.ids
                  (accepted.id, tt);
          },
          map-append c.heap t.queue c.queued ∙ cc (same, accepted.same),
        )
    | inr e ↦ rw e (i, refl)
  ]

  asks-IsValued :
      (t : SharedTopic) (test : DmqMessage → Bool)
      → IsApart t
      → IsValued t (asks test) (shared_step set_message_id t (asks test))
  unfolding shared_step
  asks-IsValued t test i =
      let wanted = filter (shows test t.heap) t.queue in
      let (k, served) = serve_copies set_message_id t.heap wanted in
      grown t k (hold_messages served t.held) i (
        serve_copies-Grows set_message_id library t.heap t.held wanted i.made
          (All-filter (OnMessage (IsBelow t.heap.next)) (shows test t.heap) t.queue
            (own-IsBelow t i))
          (All-filter (λ m. is_held t.held m.message_id ≡ true) (shows test t.heap) t.queue i.ids))

  prunes-IsValued :
      (t : SharedTopic) (test : DmqMessage → Bool)
      → IsApart t
      → IsValued t (prunes test) (shared_step set_message_id t (prunes test))
  unfolding shared_step
  prunes-IsValued t test i = (
    record {
      made = i.made;
      own = All-filter (OnMessage (IsOwn t.heap t.held)) (shows test t.heap) t.queue i.own;
      ids = All-filter (λ m. is_held t.held m.message_id ≡ true) (shows test t.heap) t.queue i.ids;
    },
    map-filter test t.heap t.queue,
  )

  shared_step-IsValued :
      (t : SharedTopic) (c : SharedCall) → IsApart t → IsValued t c (shared_step set_message_id t c)
  shared_step-IsValued t (makes bytes) i = makes-IsValued t bytes i
  shared_step-IsValued t (writes a bytes) i = writes-IsValued t a bytes i
  shared_step-IsValued t (submits m) i = submits-IsValued t m i
  shared_step-IsValued t (asks test) i = asks-IsValued t test i
  shared_step-IsValued t (prunes test) i = prunes-IsValued t test i

  shared_run-IsValued :
      (t : SharedTopic) (cs : List SharedCall)
      → IsApart t
      → IsApart (shared_run set_message_id t cs)
        × (shown (shared_run set_message_id t cs) ≡ shown_run set_message_id t cs (shown t))
  shared_run-IsValued t [] i = (i, refl)
  shared_run-IsValued t (c ∷ cs) i =
      let u = shared_step set_message_id t c in
      let step = shared_step-IsValued t c i in
      let rest = shared_run-IsValued u cs step.0 in
      (rest.0, rest.1 ∙ ap (shown_run set_message_id u cs) step.1)

  -- Whatever others do with the slices they made, submitted, were delivered or were served, in any
  -- order, the queue shows the accepted messages (but for their IDs) as they were when submitted,
  -- less the pruned ones, and what `messagesByIDs` serves shows the same. The condition: gOuroboros
  -- changes no array when it sets an ID, and stores the slice it is given or one of a new array.
  pub shared_run-shown :
      (cs : List SharedCall) (test : DmqMessage → Bool)
      → let t = shared_run set_message_id no_topic cs in
        let (h, served) = serve_copies set_message_id t.heap (filter (shows test t.heap) t.queue) in
        (shown t ≡ shown_run set_message_id no_topic cs [])
        × (map (message_at h) served ≡ filter test (shown t))
  shared_run-shown cs test =
      let start : IsApart no_topic = record { made = λ a e. cc e; own = tt; ids = tt } in
      let reached = shared_run-IsValued no_topic cs start in
      let t = shared_run set_message_id no_topic cs in
      let wanted = filter (shows test t.heap) t.queue in
      let below =
        All-filter (OnMessage (IsBelow t.heap.next)) (shows test t.heap) t.queue
          (own-IsBelow t reached.0) in
      (
        reached.1,
        (serve_copies-same set_message_id library t.heap wanted below).1
            ∙ map-filter test t.heap t.queue,
      )
