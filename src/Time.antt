-- ===== src/Time.antt =====
-- Go's `time` package, as the program uses it: a `Duration` is a signed number of nanoseconds, and
-- an instant the nanoseconds since the Unix epoch. Readings of the monotonic clock are not modelled.
use dmq_lib.Prelude.{ℕ, ◌*◌, ◌-◌, ◌/◌, ◌^◌, Bool, if◌then◌else◌}
use dmq_lib.Prelude.Int.{ℤ, pos, negsuc, ltb_ℤ, ◌+ℤ◌, ◌-ℤ◌}

abbrev pub Duration : Type 0
Duration = ℤ

abbrev pub Time : Type 0
Time = ℤ

abbrev pub nanos_per_second : ℕ
nanos_per_second = 1000000000

-- n * time.Second
abbrev pub seconds : ℕ → Duration
seconds n = pos (n * nanos_per_second)

abbrev pub minutes : ℕ → Duration
minutes n = pos (n * 60 * nanos_per_second)

-- d <= 0
abbrev pub is_nonpositive : ℤ → Bool
is_nonpositive d = if ltb_ℤ (pos 0) d then Bool.false else Bool.true

abbrev pub max_duration : ℤ
max_duration = pos (2 ^ 63 - 1)

abbrev pub min_duration : ℤ
min_duration = negsuc (2 ^ 63 - 1)

-- t.Sub(u), which saturates.
unfoldable pub time_sub : Time → Time → Duration
unfolding ◌-ℤ◌
time_sub t u =
    let d = t -ℤ u in
    if ltb_ℤ max_duration d then max_duration else if ltb_ℤ d min_duration then min_duration else d

-- t.Add(d). Instants are not bounded here.
unfoldable pub time_add : Time → Duration → Time
unfolding ◌+ℤ◌
time_add t d = t +ℤ d

-- t.Unix(): whole seconds, rounded towards the past.
unfoldable pub unix : Time → ℤ
unix (pos n) = pos (n / nanos_per_second)
unix (negsuc n) = negsuc (n / nanos_per_second)
