-- ===== src/Topic/Buffers.antt =====
-- The buffers of the channels never hold more than their capacity.
use dmq_lib.Prelude.{
  ℕ, ◌≡◌, refl, ap, false, some, List, [], ◌∷◌, length, length-append, All, nat_eq, arith,
  Option-cases, inl, inr,
}
use dmq_lib.Prelude.Dict.{Dict, lookup, insert}
use dmq_lib.Prelude.Int.{ℤ, pos, ◌≤ℤ◌}
use dmq_lib.Config.{Message}
use dmq_lib.Topic.Wiring.{shut}
use dmq_lib.Topic.Channel.{
  Chan, Channels, make_chan, offer, try_send, send_all, close_chan, close_all, take_first, receive,
}

-- Every buffer holds at most its capacity.
abbrev pub Fits : ℕ × Chan → Type 0
Fits c = pos (length c.1.buffer) ≤ℤ c.1.capacity

All-insert :
    (id : ℕ) (ch : Chan) (m : Dict ℕ Chan) → Fits (id, ch) → All Fits m → All Fits (insert id ch m)
unfolding insert
All-insert id ch [] f h = (f, tt)
All-insert id ch ((j, d) ∷ m) f h = ground (arith, All-insert id ch m f h.1)

lookup-Fits :
    (id : ℕ) (ch : Chan) (m : Dict ℕ Chan) → All Fits m → lookup id m ≡ some ch → Fits (id, ch)
unfolding lookup
lookup-Fits id ch [] h e = cc
lookup-Fits id ch ((j, d) ∷ m) h e = ground (arith, lookup-Fits id ch m h.1)

offer-Fits : (id : ℕ) (m : Message) (ch : Chan) → Fits (id, ch) → Fits (id, offer m ch)
offer-Fits id m ch h = ground (arith, length-append ch.buffer (m ∷ []))

-- The buffers keep to their capacities.
abbrev pub AllFit : Channels → Type 0
AllFit cs = All Fits cs.chans

pub try_send-Fits : (id : ℕ) (m : Message) (cs : Channels) → AllFit cs → AllFit (try_send id m cs)
unfolding try_send
try_send-Fits id m cs h = elim (Option-cases (lookup id cs.chans)) [
  | inl e ↦ rw (e, try_send) h
  | inr (ch, e) ↦
      rw (e, try_send)
        (ground (
          arith,
          All-insert id (offer m ch) cs.chans (offer-Fits id m ch (lookup-Fits id ch cs.chans h e))
              h,
        ))
]

pub send_all-Fits :
    (ids : List ℕ) (m : Message) (cs : Channels) → AllFit cs → AllFit (send_all ids m cs)
unfolding send_all
send_all-Fits [] m cs h = h
send_all-Fits (id ∷ ids) m cs h = send_all-Fits ids m (try_send id m cs) (try_send-Fits id m cs h)

pub close_chan-Fits : (id : ℕ) (cs : Channels) → AllFit cs → AllFit (close_chan id cs)
unfolding close_chan
close_chan-Fits id cs h = elim (Option-cases (lookup id cs.chans)) [
  | inl e ↦ rw (e, close_chan) h
  | inr (ch, e) ↦
      rw (e, close_chan)
        (ground (arith, All-insert id (shut ch) cs.chans (lookup-Fits id ch cs.chans h e) h))
]

pub close_all-Fits : (ids : List ℕ) (cs : Channels) → AllFit cs → AllFit (close_all ids cs)
unfolding close_all
close_all-Fits [] cs h = h
close_all-Fits (id ∷ ids) cs h = close_all-Fits ids (close_chan id cs) (close_chan-Fits id cs h)

pub make_chan-Fits :
    (id : ℕ) (capacity : ℤ) (cs : Channels)
    → pos 0 ≤ℤ capacity
    → AllFit cs
    → AllFit (make_chan id capacity cs)
unfolding make_chan
make_chan-Fits id capacity cs c h =
    All-insert id (record { buffer = []; capacity = capacity; closed = false }) cs.chans c h

take_first-Fits :
    (id : ℕ) (ch : Chan) (b : List Message)
    → ch.buffer ≡ b
    → Fits (id, ch)
    → Fits (id, take_first ch b)
take_first-Fits id ch [] e h = h
take_first-Fits id ch (m ∷ rest) e h = omega (arith, ap length e)

pub receive-Fits : (id : ℕ) (cs : Channels) → AllFit cs → AllFit (receive id cs).0
unfolding receive
receive-Fits id cs h = elim (Option-cases (lookup id cs.chans)) [
  | inl e ↦ rw (e, receive) h
  | inr (ch, e) ↦
      rw (e, receive)
        (All-insert id (take_first ch ch.buffer) cs.chans
          (take_first-Fits id ch ch.buffer refl (lookup-Fits id ch cs.chans h e)) h)
]
