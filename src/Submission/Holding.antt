-- ===== src/Submission/Holding.antt =====
-- How long protocol.go holds the reply to a blocking request for IDs.
use dmq_lib.Prelude.{
  ℕ, ◌≤◌, ◌<◌, ◌≡◌, ◌⊎◌, inl, inr, refl, String, true, false, not, Option, none, some, List, [],
  ◌∷◌, length, filter, take, length-take-le, leb, Bool-cases, Bytes, arith,
}
use dmq_lib.Prelude.Int.{pos}
use dmq_lib.Errors.{Error}
use dmq_lib.Time.{Time}
use dmq_lib.Wire.{MessageIdAndSize, Wire}
use dmq_lib.Topic.{TopicRuntime, message_ids}
use dmq_lib.Run.{Call, run}
use dmq_lib.Submission.{SubmissionFlow, mem, new_ids, reply_ids}
use dmq_lib.Submission.Announcing.{new_ids_exact}

-- What the queue has to announce on the connection.
abbrev pub pending : Wire → TopicRuntime → SubmissionFlow → Time → List MessageIdAndSize
pending w t f now = filter (λ i. not (mem i.message_id f.announced)) (message_ids w t (pos 0) now).1

take_nonempty :
    (n : ℕ) (ids : List MessageIdAndSize) → 0 < n → leb 1 (length (take n ids)) ≡ false → ids ≡ []
take_nonempty n [] h e = refl
take_nonempty n (i ∷ ids) h e = ground (arith, e)

module _ (w : Wire) (ip_string : Bytes → String) (count : ℕ) where
  -- At every poll nothing is to be announced.
  pub Quiet : TopicRuntime → SubmissionFlow → List (List Call × Time) → Type 0
  Quiet t f [] = Unit
  Quiet t f ((others, now) ∷ polls) =
      let u = run w ip_string t others in
      let (v, g, _) = new_ids w u f count now in (pending w u f now ≡ []) × Quiet v g polls

module _ (w : Wire) (ip_string : Bytes → String) (send : List MessageIdAndSize → Option Error)
    (count : ℕ) where
  abbrev pub answer :
      TopicRuntime → SubmissionFlow → List (List Call × Time) → Option (List MessageIdAndSize)
  answer t f polls = (reply_ids w ip_string send true count t f polls).2

  abbrev pub Answers : TopicRuntime → SubmissionFlow → List (List Call × Time) → Type 0
  Answers t f polls =
      (Quiet w ip_string count t f polls × (answer t f polls ≡ none))
      ⊎ ((ids : List MessageIdAndSize) × ((answer t f polls ≡ some ids)
            × (1 ≤ length ids)
            × (length ids ≤ count)))

  few :
      (t : TopicRuntime) (f : SubmissionFlow) (now : Time)
      → length (new_ids w t f count now).2 ≤ count
  few t f now = rw (new_ids_exact w t f count now) (length-take-le count (pending w t f now))

  holds :
      0 < count
      → (t : TopicRuntime) (f : SubmissionFlow) (polls : List (List Call × Time))
      → Answers t f polls
  unfolding reply_ids Quiet
  holds h t f [] = inl (tt, refl)
  holds h t f ((others, now) ∷ polls) =
      let u = run w ip_string t others in
      let (v, g, ids) = new_ids w u f count now in
      elim (Bool-cases (leb 1 (length ids))) [
        | inl b ↦ inr (ids, (ground (arith, b), ground (arith, b), few u f now))
        | inr b ↦
            let nothing =
              take_nonempty count (pending w u f now) h (rw (← new_ids_exact w u f count now) b) in
            elim (holds h v g polls) [
              | inl (quiet, none_given) ↦ inl ((nothing, quiet), ground (arith, b, none_given))
              | inr (later, (given, some_ids, room)) ↦
                  inr (later, (ground (arith, b, given), some_ids, room))
            ]
      ]

-- A blocking request for at least one ID is answered as soon as a poll finds a valid message in the
-- queue that was not announced on the connection, with at least one ID and at most as many as were
-- asked for; where there is no answer yet, every poll so far has found nothing of the kind.
pub reply_ids_answers :
    (w : Wire) (ip_string : Bytes → String) (send : List MessageIdAndSize → Option Error)
    (count : ℕ) (t : TopicRuntime) (f : SubmissionFlow) (polls : List (List Call × Time))
    → 0 < count
    → (Quiet w ip_string count t f polls
        × ((reply_ids w ip_string send true count t f polls).2 ≡ none))
      ⊎ ((ids : List MessageIdAndSize) × (((reply_ids w ip_string send true count t f polls).2
              ≡ some ids)
            × (1 ≤ length ids)
            × (length ids ≤ count)))
reply_ids_answers w ip_string send count t f polls h = holds w ip_string send count h t f polls
