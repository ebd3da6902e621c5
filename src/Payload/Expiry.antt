-- ===== src/Payload/Expiry.antt =====
-- The expiration that payload.go computes.
use dmq_lib.Prelude.{ℕ, ◌≡◌, ◌↔◌, ◌<◌, ◌^◌, ◌+◌, ◌/◌, arith, ltb, if◌then◌else◌}
use dmq_lib.Prelude.Int.{pos}
use dmq_lib.Errors.{Error, ok, err, detailed, expiry, message_expiry_out_of_range}
use dmq_lib.Time.{Time, Duration, unix, time_add, nanos_per_second}
use dmq_lib.Payload.{ttl_or_default, not_before_epoch, expires_at}

abbrev pub out_of_range : ℕ → ℕ → Error
out_of_range n d =
    detailed message_expiry_out_of_range (expiry (pos (n / nanos_per_second)) (pos d))

-- A lifetime of `d` nanoseconds from the clock `n`: the computed expiration is the second in which
-- the lifetime ends, with nothing lost by the conversion to 32 bits, and there is none exactly when
-- that second does not fit in 32 bits. The guard on the clock decides nothing more.
pub expires_at_exact :
    (n d : ℕ)
    → 0 < d
    → expires_at (pos n) (pos d) ≡ (
        if ltb ((n + d) / nanos_per_second) (2 ^ 32)
        then ok ((n + d) / nanos_per_second)
        else err (out_of_range n d))
unfolding expires_at
expires_at_exact n d h = ground arith

-- The computed expiration is `e` exactly when `e` is the second in which the lifetime ends, counted
-- from the clock or from the epoch where the clock stands before it, and `e` fits in 32 bits. A
-- lifetime that is not positive counts as the default.
pub expires_at_iff :
    (now : Time) (ttl : Duration) (e : ℕ)
    → (expires_at now ttl ≡ ok e)
      ↔ ((unix (time_add (not_before_epoch now) (ttl_or_default ttl)) ≡ pos e) × (e < 2 ^ 32))
unfolding expires_at
expires_at_iff now ttl e = (λ h. ground arith, λ h. ground arith)
