-- ===== src/Topic/Channel.antt =====
-- The channels of a topic's subscriptions. A send never blocks (`select` with a `default`), and a
-- send on a closed channel or a second `close` is a run-time panic, which `panicked` records.
use dmq_lib.Prelude.{
  ℕ, Bool, true, false, Option, none, some, List, [], ◌∷◌, ◌++◌, length, if◌then◌else◌, nat_eq,
}
use dmq_lib.Prelude.Dict.{Dict, lookup, insert}
use dmq_lib.Prelude.Int.{ℤ, pos, ltb_ℤ}
use dmq_lib.Config.{Message}

pub record Chan : Type 0 where
  pub buffer : List Message
  pub capacity : ℤ
  pub closed : Bool

pub record Channels : Type 0 where
  pub chans : Dict ℕ Chan
  pub panicked : Bool

-- make(chan Message, capacity)
unfoldable pub make_chan : ℕ → ℤ → Channels → Channels
make_chan id capacity cs = record cs {
  chans = insert id (record { buffer = []; capacity = capacity; closed = false }) cs.chans;
}

-- select { case ch <- envelope: default: } on an open channel
abbrev pub offer : Message → Chan → Chan
offer m ch =
    if ltb_ℤ (pos (length ch.buffer)) ch.capacity
    then record ch { buffer = ch.buffer ++ m ∷ [] }
    else ch

abbrev pub panic : Channels → Channels
panic cs = record cs { panicked = true }

unfoldable pub try_send : ℕ → Message → Channels → Channels
try_send id m cs = elim (lookup id cs.chans) [
  | none ↦ cs
  | some ch ↦ if ch.closed then panic cs else record cs { chans = insert id (offer m ch) cs.chans }
]

-- for _, ch := range t.subscribers { select … }
unfoldable pub send_all : List ℕ → Message → Channels → Channels
send_all [] m cs = cs
send_all (id ∷ rest) m cs = send_all rest m (try_send id m cs)

-- close(ch)
unfoldable pub close_chan : ℕ → Channels → Channels
close_chan id cs = elim (lookup id cs.chans) [
  | none ↦ cs
  | some ch ↦
      if ch.closed
      then panic cs
      else record cs { chans = insert id (record ch { closed = true }) cs.chans }
]

-- for id, ch := range t.subscribers { close(ch); … }
unfoldable pub close_all : List ℕ → Channels → Channels
close_all [] cs = cs
close_all (id ∷ rest) cs = close_all rest (close_chan id cs)

-- What a receive leaves of a channel, and what it returns: the oldest message, if there is one.
abbrev pub take_first : Chan → List Message → Chan
take_first ch [] = ch
take_first ch (m ∷ rest) = record ch { buffer = rest }

abbrev pub first : List Message → Option Message
first [] = none
first (m ∷ rest) = some m

unfoldable pub receive : ℕ → Channels → Channels × Option Message
receive id cs = elim (lookup id cs.chans) [
  | none ↦ (cs, none)
  | some ch ↦ (record cs { chans = insert id (take_first ch ch.buffer) cs.chans }, first ch.buffer)
]
