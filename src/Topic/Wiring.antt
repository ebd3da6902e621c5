-- ===== src/Topic/Wiring.antt =====
-- The channels under the operations of `Channel`: which are open, and that none panics.
use dmq_lib.Prelude.{
  ℕ, ◌≡◌, refl, ◌∙◌, Bool, true, false, not, Option, none, some, List, [], ◌∷◌, All, if◌then◌else◌,
  ◌==◌, ==_iff, nat_eq, arith, Option-cases, inl, inr,
}
use dmq_lib.Prelude.Dict.{lookup, lookup-insert}
use dmq_lib.Prelude.Int.{ℤ}
use dmq_lib.Config.{Message}
use dmq_lib.Topic.Channel.{
  Chan, Channels, make_chan, offer, try_send, send_all, close_chan, close_all, take_first, receive,
}

abbrev pub open_chan : Option Chan → Bool
open_chan none = false
open_chan (some ch) = not ch.closed

-- The channel was made and is not closed.
pub is_open : Channels → ℕ → Bool
is_open cs id = open_chan (lookup id cs.chans)

abbrev pub on_chan : (Chan → Chan) → Option Chan → Option Chan
on_chan f none = none
on_chan f (some ch) = some (f ch)

-- What a send does to a channel that it does not panic on.
abbrev pub deliver : Message → Chan → Chan
deliver m ch = if ch.closed then ch else offer m ch

abbrev pub shut : Chan → Chan
shut ch = record ch { closed = true }

pub lookup-try_send :
    (id j : ℕ) (m : Message) (cs : Channels)
    → lookup j (try_send id m cs).chans
      ≡ (if id == j then on_chan (deliver m) (lookup j cs.chans) else lookup j cs.chans)
unfolding try_send
lookup-try_send id j m cs = elim (Option-cases (lookup id cs.chans)) [
  | inl e ↦ rw (e, try_send) (ground (arith, ==_iff id j))
  | inr (ch, e) ↦
      rw (e, try_send) (ground (arith, ==_iff id j, e, lookup-insert id j (offer m ch) cs.chans))
]

pub lookup-close_chan :
    (id j : ℕ) (cs : Channels)
    → lookup j (close_chan id cs).chans
      ≡ (if id == j then on_chan shut (lookup j cs.chans) else lookup j cs.chans)
unfolding close_chan
lookup-close_chan id j cs = elim (Option-cases (lookup id cs.chans)) [
  | inl e ↦ rw (e, close_chan) (ground (arith, ==_iff id j))
  | inr (ch, e) ↦
      rw (e, close_chan) (ground (arith, ==_iff id j, e, lookup-insert id j (shut ch) cs.chans))
]

pub lookup-make_chan :
    (id j : ℕ) (capacity : ℤ) (cs : Channels)
    → lookup j (make_chan id capacity cs).chans ≡ (
        if id == j
        then some (record { buffer = []; capacity = capacity; closed = false })
        else lookup j cs.chans)
unfolding make_chan
lookup-make_chan id j capacity cs = lookup-insert id j _ cs.chans

try_send-panicked :
    (id : ℕ) (m : Message) (cs : Channels)
    → is_open cs id ≡ true
    → (try_send id m cs).panicked ≡ cs.panicked
unfolding is_open try_send
try_send-panicked id m cs h = ground arith

pub close_chan-panicked :
    (id : ℕ) (cs : Channels) → is_open cs id ≡ true → (close_chan id cs).panicked ≡ cs.panicked
unfolding is_open close_chan
close_chan-panicked id cs h = ground arith

pub make_chan-panicked :
    (id : ℕ) (capacity : ℤ) (cs : Channels) → (make_chan id capacity cs).panicked ≡ cs.panicked
unfolding make_chan
make_chan-panicked id capacity cs = refl

is_open-try_send :
    (id j : ℕ) (m : Message) (cs : Channels) → is_open (try_send id m cs) j ≡ is_open cs j
unfolding is_open
is_open-try_send id j m cs = ground (arith, lookup-try_send id j m cs)

pub is_open-close_chan :
    (id j : ℕ) (cs : Channels)
    → is_open (close_chan id cs) j ≡ (if id == j then false else is_open cs j)
unfolding is_open
is_open-close_chan id j cs = ground (arith, lookup-close_chan id j cs)

pub is_open-make_chan :
    (id j : ℕ) (capacity : ℤ) (cs : Channels)
    → is_open (make_chan id capacity cs) j ≡ (if id == j then true else is_open cs j)
unfolding is_open
is_open-make_chan id j capacity cs = ground (arith, lookup-make_chan id j capacity cs)

-- The fan-out closes and opens nothing.
pub is_open-send_all :
    (ids : List ℕ) (m : Message) (cs : Channels) (j : ℕ)
    → is_open (send_all ids m cs) j ≡ is_open cs j
unfolding send_all
is_open-send_all [] m cs j = refl
is_open-send_all (id ∷ ids) m cs j =
    is_open-send_all ids m (try_send id m cs) j ∙ is_open-try_send id j m cs

abbrev pub AllOpen : Channels → List ℕ → Type 0
AllOpen cs = All (λ id. is_open cs id ≡ true)

-- Channels that answer alike.
AllOpen-cong :
    (cs ds : Channels)
    → ((j : ℕ) → is_open ds j ≡ is_open cs j)
    → (ids : List ℕ) → AllOpen cs ids
    → AllOpen ds ids
AllOpen-cong cs ds e [] h = tt
AllOpen-cong cs ds e (id ∷ ids) h = (e id ∙ h.0, AllOpen-cong cs ds e ids h.1)

pub AllOpen-send_all :
    (subs ids : List ℕ) (m : Message) (cs : Channels)
    → AllOpen cs subs
    → AllOpen (send_all ids m cs) subs
AllOpen-send_all subs ids m cs =
    AllOpen-cong cs (send_all ids m cs) (is_open-send_all ids m cs) subs

-- A fan-out to open channels does not panic.
pub send_all-panicked :
    (ids : List ℕ) (m : Message) (cs : Channels)
    → AllOpen cs ids
    → (send_all ids m cs).panicked ≡ cs.panicked
unfolding send_all
send_all-panicked [] m cs h = refl
send_all-panicked (id ∷ ids) m cs h =
    send_all-panicked ids m (try_send id m cs)
      (AllOpen-cong cs (try_send id m cs) (λ j. is_open-try_send id j m cs) ids h.1)
    ∙ try_send-panicked id m cs h.0

-- Not among the numbers of a list.
abbrev pub Absent : ℕ → List ℕ → Type 0
Absent id ids = All (λ j. (j == id) ≡ false) ids

abbrev pub IsDistinct : List ℕ → Type 0
IsDistinct [] = Unit
IsDistinct (id ∷ ids) = Absent id ids × IsDistinct ids

pub AllOpen-close_chan :
    (id : ℕ) (cs : Channels) (ids : List ℕ)
    → Absent id ids
    → AllOpen cs ids
    → AllOpen (close_chan id cs) ids
AllOpen-close_chan id cs [] a h = tt
AllOpen-close_chan id cs (j ∷ ids) a h =
    ground (arith, is_open-close_chan id j cs, AllOpen-close_chan id cs ids a.1 h.1)

pub AllOpen-make_chan :
    (id : ℕ) (capacity : ℤ) (cs : Channels) (ids : List ℕ)
    → AllOpen cs ids
    → AllOpen (make_chan id capacity cs) ids
AllOpen-make_chan id capacity cs [] h = tt
AllOpen-make_chan id capacity cs (j ∷ ids) h =
    ground (arith, is_open-make_chan id j capacity cs, AllOpen-make_chan id capacity cs ids h.1)

-- Closing distinct open channels does not panic.
pub close_all-panicked :
    (ids : List ℕ) (cs : Channels)
    → IsDistinct ids
    → AllOpen cs ids
    → (close_all ids cs).panicked ≡ cs.panicked
unfolding close_all
close_all-panicked [] cs d h = refl
close_all-panicked (id ∷ ids) cs d h =
    close_all-panicked ids (close_chan id cs) d.1 (AllOpen-close_chan id cs ids d.0 h.1)
    ∙ close_chan-panicked id cs h.0

abbrev pub drained : Chan → Chan
drained ch = take_first ch ch.buffer

pub lookup-receive :
    (id j : ℕ) (cs : Channels)
    → lookup j (receive id cs).0.chans
      ≡ (if id == j then on_chan drained (lookup j cs.chans) else lookup j cs.chans)
unfolding receive
lookup-receive id j cs = elim (Option-cases (lookup id cs.chans)) [
  | inl e ↦ rw (e, receive) (ground (arith, ==_iff id j))
  | inr (ch, e) ↦
      rw (e, receive) (ground (arith, ==_iff id j, e, lookup-insert id j (drained ch) cs.chans))
]

open-drained : (ch : Chan) (b : List Message) → (take_first ch b).closed ≡ ch.closed
open-drained ch [] = refl
open-drained ch (m ∷ b) = refl

-- A receive closes and opens nothing, and does not panic.
is_open-receive : (id j : ℕ) (cs : Channels) → is_open (receive id cs).0 j ≡ is_open cs j
unfolding is_open
is_open-receive id j cs = elim (Option-cases (lookup j cs.chans)) [
  | inl e ↦ ground (arith, lookup-receive id j cs, e)
  | inr (ch, e) ↦ ground (arith, lookup-receive id j cs, e, open-drained ch ch.buffer)
]

pub AllOpen-receive :
    (id : ℕ) (cs : Channels) (ids : List ℕ) → AllOpen cs ids → AllOpen (receive id cs).0 ids
AllOpen-receive id cs = AllOpen-cong cs (receive id cs).0 (λ j. is_open-receive id j cs)

pub receive-panicked : (id : ℕ) (cs : Channels) → (receive id cs).0.panicked ≡ cs.panicked
unfolding receive
receive-panicked id cs = ground arith
