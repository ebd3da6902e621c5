-- ===== src/Network/Backoff.antt =====
-- The reconnecting loop of `outboundLoop` in network.go, by the waits between its dials. A duration
-- is a signed 64-bit number, and its doubling wraps around.
use native.Mathlib.Nat.{two-pow-succ, mul-add}
use Prim.Native.Nat.{min}
use dmq_lib.Prelude.{
  ℕ, zero, suc, ◌+◌, ◌-◌, ◌*◌, ◌^◌, ◌≤◌, ◌<◌, ◌≡◌, refl, ap, ◌∙◌, Bool, true, false, List, [], ◌∷◌,
  All, ltb, if◌then◌else◌, arith,
}
use dmq_lib.Prelude.Int.{pos, negsuc, ltb_ℤ, ◌≤ℤ◌}
use dmq_lib.Time.{Duration}
use dmq_lib.Config.{ReconnectConfig, default_reconnect_config}

-- backoff *= 2, for a backoff that is not negative.
abbrev pub double : Duration → Duration
double (pos b) = if ltb (2 * b) (2 ^ 63) then pos (2 * b) else negsuc (2 ^ 64 - 1 - 2 * b)
double (negsuc b) = negsuc (2 * b + 1)

-- backoff *= 2; if backoff > MaxBackoff { backoff = MaxBackoff }
pub next_backoff : ReconnectConfig → Duration → Duration
next_backoff cfg backoff =
    if ltb_ℤ cfg.max_backoff (double backoff) then cfg.max_backoff else double backoff

-- The waits of the loop, where each dial ends without an error or with one.
pub outbound_waits : ReconnectConfig → Duration → List Bool → List Duration
outbound_waits cfg backoff [] = []
outbound_waits cfg backoff (served ∷ dials) =
    let wait = if served then cfg.initial_backoff else backoff in
    wait ∷ outbound_waits cfg (next_backoff cfg wait) dials

abbrev pub Between : ReconnectConfig → Duration → Type 0
Between cfg d = (cfg.initial_backoff ≤ℤ d) × (d ≤ℤ cfg.max_backoff)

next_backoff-min :
    (cfg : ReconnectConfig) (m b : ℕ)
    → cfg.max_backoff ≡ pos m
    → m < 2 ^ 62
    → b ≤ m
    → next_backoff cfg (pos b) ≡ pos (min (2 * b) m)
unfolding next_backoff
next_backoff-min cfg m b f h k = rw f (ground (arith, h, k))

outbound_waits-Between :
    (cfg : ReconnectConfig) (i m b : ℕ) (dials : List Bool)
    → cfg.initial_backoff ≡ pos i
    → cfg.max_backoff ≡ pos m
    → m < 2 ^ 62
    → i ≤ m
    → i ≤ b
    → b ≤ m
    → All (Between cfg) (outbound_waits cfg (pos b) dials)
unfolding outbound_waits next_backoff
outbound_waits-Between cfg i m b [] e f h im ib bm = tt
outbound_waits-Between cfg i m b (true ∷ dials) e f h im ib bm = (
  rw (e, f) (omega (arith, im), omega (arith, im)),
  rw (e, next_backoff-min cfg m i f h im)
      (outbound_waits-Between cfg i m (min (2 * i) m) dials e f h im (omega (arith, im))
        (omega arith)),
)
outbound_waits-Between cfg i m b (false ∷ dials) e f h im ib bm = (
  rw (e, f) (omega (arith, ib), omega (arith, bm)),
  rw (next_backoff-min cfg m b f h bm) (
      outbound_waits-Between cfg i m (min (2 * b) m) dials e f h im (omega (arith, ib, im))
        (omega arith)),
)

-- A number of dials that all fail.
abbrev pub failures : ℕ → List Bool
failures zero = []
failures (suc n) = false ∷ failures n

-- Waits that start at 2^k times the initial backoff and double up to the maximum, `n` of them.
abbrev pub doubling : ℕ → ℕ → ℕ → ℕ → List Duration
doubling i m k zero = []
doubling i m k (suc n) = pos (min (i * 2 ^ k) m) ∷ doubling i m (suc k) n

double_power : (i n m : ℕ) → min (2 * min (i * 2 ^ n) m) m ≡ min (i * 2 ^ suc n) m
double_power i n m = rw (two-pow-succ n, mul-add) (omega arith)

outbound_waits-doubling :
    (cfg : ReconnectConfig) (i m k n : ℕ)
    → cfg.max_backoff ≡ pos m
    → m < 2 ^ 62
    → outbound_waits cfg (pos (min (i * 2 ^ k) m)) (failures n) ≡ doubling i m k n
unfolding outbound_waits
outbound_waits-doubling cfg i m k zero f h = refl
outbound_waits-doubling cfg i m k (suc n) f h =
    let next = next_backoff-min cfg m (min (i * 2 ^ k) m) f h (omega arith) in
    ap (λ ws. pos (min (i * 2 ^ k) m) ∷ ws)
      (rw (next, double_power i k m) (outbound_waits-doubling cfg i m (suc k) n f h))

in_order :
    (cfg : ReconnectConfig) (i m : ℕ)
    → (default_reconnect_config cfg).initial_backoff ≡ pos i
    → (default_reconnect_config cfg).max_backoff ≡ pos m
    → i ≤ m
unfolding default_reconnect_config
in_order cfg i m e f = ground (arith, e, f)

-- With the defaults filled in, and a maximum below 2^62 nanoseconds, every wait of the loop, however
-- the dials end, is between the initial and the maximal backoff, so it never overflows; and where
-- dials fail in a row, from the start or after one that ended without an error, the waits are the
-- initial one, twice it, four times it, and so on up to the maximum.
pub outbound_waits-bounds :
    (cfg : ReconnectConfig) (i m n : ℕ) (backoff : Duration) (dials : List Bool)
    → (default_reconnect_config cfg).initial_backoff ≡ pos i
    → (default_reconnect_config cfg).max_backoff ≡ pos m
    → m < 2 ^ 62
    → let c = default_reconnect_config cfg in
      All (Between c) (outbound_waits c (pos i) dials)
      × (outbound_waits c (pos i) (failures n) ≡ doubling i m 0 n)
      × (outbound_waits c backoff (true ∷ failures n) ≡ doubling i m 0 (suc n))
unfolding outbound_waits
outbound_waits-bounds cfg i m n backoff dials e f h =
    let c = default_reconnect_config cfg in
    let im = in_order cfg i m e f in
    let first : i ≡ min (i * 2 ^ 0) m = omega (arith, im) in
    let started = λ (n : ℕ).
      ap (λ b. outbound_waits c (pos b) (failures n)) first
      ∙ outbound_waits-doubling c i m 0 n f h in
    (
      outbound_waits-Between c i m i dials e f h im (omega arith) im,
      started n,
      ap (λ d. d ∷ outbound_waits c (next_backoff c d) (failures n)) e ∙ started (suc n),
    )
