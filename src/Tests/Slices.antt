-- ===== src/Tests/Slices.antt =====
-- Examples of what is shown of the slices of a topic's messages.
use dmq_lib.Prelude.{◌≡◌, refl, none, some, List, [], ◌∷◌, inl, map, filter, true}
use dmq_lib.Sharing.{
  Heap, Slice, SharedMessage, message_at, write, alloc, clone_bytes, clone_message,
  clone_operational_certificate,
}
use dmq_lib.Sharing.Copies.{IsLibrary, Extends-refl}
use dmq_lib.Sharing.Owners.{
  SharedCall, makes, writes, submits, asks, shows, serve_copies, accept_copies, shared_step,
}
use dmq_lib.Sharing.Owners.Values.{shown}
use dmq_lib.Sharing.Owners.Calls.{no_topic, shared_run, shown_run, shared_run-shown}

-- A library that stores the slice it is given.
abbrev keep_slice : Heap → Slice → Heap × Slice
keep_slice h s = (h, s)

keep_slice-IsLibrary : IsLibrary keep_slice
keep_slice-IsLibrary = record { extends = λ h s. Extends-refl h; given = λ h s. inl refl }

-- A message whose body is the first array.
abbrev first_body : SharedMessage
first_body = record {
  message_id = none;
  message_body = some 0;
  kes_period = 0;
  expires_at = 1000;
  kes_signature = none;
  operational_certificate = record {
    kes_verification_key = none;
    issue_number = 0;
    kes_period = 0;
    cold_signature = none;
  };
  cold_verification_key = none;
}

-- A message is submitted, its body is overwritten, it is served, and what was served (the fourth
-- array) is overwritten too.
abbrev overwritten : List SharedCall
overwritten =
    makes (7 ∷ [])
    ∷ submits first_body
    ∷ writes 0 (9 ∷ [])
    ∷ asks (λ _. true)
    ∷ writes 4 (9 ∷ [])
    ∷ []

still_seven :
    map (λ m. m.payload.message_body) (shown (shared_run keep_slice no_topic overwritten))
    ≡ (7 ∷ []) ∷ []
unfolding shared_step alloc write clone_bytes clone_message clone_operational_certificate
    accept_copies serve_copies
still_seven = refl

shared_run-shown_example :
    (shown (shared_run keep_slice no_topic overwritten)
      ≡ shown_run keep_slice no_topic overwritten [])
    × (map
          (message_at
            (serve_copies keep_slice (shared_run keep_slice no_topic overwritten).heap (
              filter
                (shows (λ _. true) (shared_run keep_slice no_topic overwritten).heap)
                (shared_run keep_slice no_topic overwritten).queue)).0)
          (serve_copies keep_slice (shared_run keep_slice no_topic overwritten).heap (
            filter
              (shows (λ _. true) (shared_run keep_slice no_topic overwritten).heap)
              (shared_run keep_slice no_topic overwritten).queue)).1
        ≡ filter (λ _. true) (shown (shared_run keep_slice no_topic overwritten)))
shared_run-shown_example = shared_run-shown keep_slice keep_slice-IsLibrary overwritten (λ _. true)
