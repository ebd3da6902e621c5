-- ===== src/Cardano/Periods.antt =====
-- KES periods of cardano.go: the period at a time, and the time at which a period begins.
use native.Mathlib.Nat.{le-div_iff_mul-le, div-le_self}
use dmq_lib.Prelude.{ℕ, ◌+◌, ◌-◌, ◌*◌, ◌/◌, ◌%◌, ◌^◌, ◌≤◌, ◌<◌, ◌≡◌, ◌↔◌, arith, nat_eq}
use dmq_lib.Prelude.Int.{pos, ◌≤ℤ◌}
use dmq_lib.Errors.{ok}
use dmq_lib.Time.{time_sub, time_add}
use dmq_lib.Cardano.{
  NetworkParams, slot_length_or_second, current_slot_for, current_absolute_slot_for,
  current_kes_period_for, kes_period_start,
}

time_sub_after : (s d : ℕ) → d < 2 ^ 63 → time_sub (pos (s + d)) (pos s) ≡ pos d
unfolding time_sub
time_sub_after s d h = ground arith

time_add_after : (s d : ℕ) → time_add (pos s) (pos d) ≡ pos (s + d)
unfolding time_add
time_add_after s d = ground arith

div_below : (d l : ℕ) → 0 < l → d < 2 ^ 63 → d / l < 2 ^ 63
div_below d l h k = omega (arith, div-le_self d l)

pub low_word : (x : ℕ) → x < 2 ^ 64 → x % 2 ^ 64 ≡ x
low_word x h = omega arith

high_word : (x : ℕ) → x < 2 ^ 64 → x / 2 ^ 64 ≡ 0
high_word x h = omega arith

slots_iff : (k x y : ℕ) → 0 < k → (x ≤ y / k) ↔ (x * k ≤ y)
slots_iff k x y h = le-div_iff_mul-le h

module _ (p : NetworkParams) (l s a k : ℕ) (slot : slot_length_or_second p.slot_length ≡ pos l)
    (start : p.start ≡ pos s) (absolute : p.absolute_start_slot ≡ a)
    (slots : p.slots_per_kes_period ≡ k) (some_slots : 0 < k) (some_time : 0 < l) where
  -- The slot at `d` nanoseconds after the start.
  current_slot_for_exact : (d : ℕ) → d < 2 ^ 63 → current_slot_for p (pos (s + d)) ≡ ok (d / l)
  unfolding current_slot_for
  current_slot_for_exact d h =
      rw (slot, start, time_sub_after s d h) (ground (arith, div_below d l some_time h))

  current_kes_period_for_exact :
      (d : ℕ)
      → d < 2 ^ 63
      → a + d / l < 2 ^ 64
      → current_kes_period_for p (pos (s + d)) ≡ ok ((a + d / l) / k)
  unfolding current_kes_period_for current_absolute_slot_for
  current_kes_period_for_exact d h b =
      rw (current_slot_for_exact d h, absolute, slots) (ground arith)

  kes_period_start_exact :
      (period : ℕ)
      → period * k < 2 ^ 64
      → a ≤ period * k
      → (period * k - a) * l < 2 ^ 63
      → l < 2 ^ 63
      → kes_period_start p period ≡ pos (s + (period * k - a) * l)
  unfolding kes_period_start
  kes_period_start_exact period b c e f =
      rw
        (
          slot,
          start,
          absolute,
          slots,
          low_word (period * k) b,
          high_word (period * k) b,
          low_word l (omega (arith, f)),
          low_word ((period * k - a) * l) (omega (arith, e)),
          high_word ((period * k - a) * l) (omega (arith, e)),
          time_add_after,
        )
        (ground arith)

  -- A network that starts `s` nanoseconds after the epoch, at the slot `a`, with slots of `l` nanoseconds
  -- and periods of `k` slots: at `d` nanoseconds from the start its current period is the one of the
  -- slot that is reached, and a period has begun by then exactly where it is not after the current
  -- one, as long as the slots and the times fit in the program's words.
  pub kes_period_start-current :
      (period d : ℕ)
      → period * k < 2 ^ 64
      → a ≤ period * k
      → (period * k - a) * l < 2 ^ 63
      → l < 2 ^ 63
      → d < 2 ^ 63
      → a + d / l < 2 ^ 64
      → (current_kes_period_for p (pos (s + d)) ≡ ok ((a + d / l) / k))
        × ((kes_period_start p period ≤ℤ pos (s + d)) ↔ (period ≤ (a + d / l) / k))
  kes_period_start-current period d b c e f h i =
      let up = slots_iff k period (a + d / l) some_slots in
      let down = slots_iff l (period * k - a) d some_time in
      (
        current_kes_period_for_exact d h i,
        rw (kes_period_start_exact period b c e f) (
          λ x. up.1 (omega (arith, down.1 (omega (arith, x)))),
          λ x. omega (arith, down.0 (omega (arith, up.0 x))),
        ),
      )
