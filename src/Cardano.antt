-- ===== src/Cardano.antt =====
-- cardano.go: slots, epochs and KES periods of a network. The counts are 64-bit words. The file that
-- holds a Shelley genesis, its JSON, a floating-point slot length and the text of a time are what
-- Go's packages make of them, the parameter `GenesisFiles`.
pub mod Periods
use dmq_lib.Prelude.{
  ℕ, ◌≡◌, suc, ◌+◌, ◌-◌, ◌*◌, ◌/◌, ◌%◌, ◌^◌, String, Bool, true, false, ◌||◌, not, Option, none,
  some, ◌==◌, nat_eq, string_eq, ltb, leb, if◌then◌else◌, Bytes,
}
use dmq_lib.Prelude.Int.{ℤ, pos, negsuc, ltb_ℤ, ◌-ℤ◌}
use dmq_lib.Errors.{Error, Result, ok, err, plain, context, fail_if, ◌>>=◌, ◌>>◌}
use dmq_lib.Time.{Time, Duration, seconds, is_nonpositive, max_duration, time_sub, time_add}

abbrev pub cardano_slots_per_kes_period : ℕ
cardano_slots_per_kes_period = 129600

abbrev pub cardano_mainnet_shelley_start_slot : ℕ
cardano_mainnet_shelley_start_slot = 4492800

abbrev pub cardano_preprod_shelley_start_slot : ℕ
cardano_preprod_shelley_start_slot = 86400

-- time.Date(2020, 7, 29, 21, 44, 51, 0, time.UTC)
abbrev pub cardano_mainnet_shelley_start : Time
cardano_mainnet_shelley_start = seconds 1596059091

-- time.Date(2022, 6, 21, 0, 0, 0, 0, time.UTC)
abbrev pub cardano_preprod_shelley_start : Time
cardano_preprod_shelley_start = seconds 1655769600

-- time.Date(2022, 10, 25, 0, 0, 0, 0, time.UTC)
abbrev pub cardano_preview_start : Time
cardano_preview_start = seconds 1666656000

-- `time.Time{}`: the first of January of the year 1.
abbrev pub zero_time : Time
zero_time = negsuc (62135596800 * 1000000000 - 1)

pub record NetworkParams : Type 0 where
  pub start : Time
  pub absolute_start_slot : ℕ
  pub slot_length : Duration
  pub epoch_length : ℕ
  pub slots_per_kes_period : ℕ
  pub max_kes_evolutions : ℕ

abbrev pub mainnet_magic : ℕ
mainnet_magic = 764824073

unfoldable pub network_params_for_magic : ℕ → Result NetworkParams
network_params_for_magic magic =
    if magic == mainnet_magic
    then ok (record {
      start = cardano_mainnet_shelley_start;
      absolute_start_slot = cardano_mainnet_shelley_start_slot;
      slot_length = seconds 1;
      epoch_length = 432000;
      slots_per_kes_period = cardano_slots_per_kes_period;
      max_kes_evolutions = 62;
    })
    else if magic == 1
    then ok (record {
      start = cardano_preprod_shelley_start;
      absolute_start_slot = cardano_preprod_shelley_start_slot;
      slot_length = seconds 1;
      epoch_length = 432000;
      slots_per_kes_period = cardano_slots_per_kes_period;
      max_kes_evolutions = 62;
    })
    else if magic == 2
    then ok (record {
      start = cardano_preview_start;
      absolute_start_slot = 0;
      slot_length = seconds 1;
      epoch_length = 86400;
      slots_per_kes_period = cardano_slots_per_kes_period;
      max_kes_evolutions = 62;
    })
    else err (plain "unknown network magic")

-- a / b on durations, rounded towards zero, for a positive b.
abbrev pub quotient : Duration → Duration → Duration
quotient (pos a) (pos b) = pos (a / b)
quotient (negsuc a) (pos b) = if suc a / b == 0 then pos 0 else negsuc (suc a / b - 1)
quotient a (negsuc b) = pos 0

-- uint64(d)
abbrev pub to_uint64 : ℤ → ℕ
to_uint64 (pos n) = n % 2 ^ 64
to_uint64 (negsuc n) = 2 ^ 64 - 1 - n % 2 ^ 64

-- if slotLength <= 0 { slotLength = time.Second }
abbrev pub slot_length_or_second : Duration → Duration
slot_length_or_second d = if is_nonpositive d then seconds 1 else d

abbrev pub before_start : Error
before_start = plain "clock is before network start"

unfoldable pub current_slot_for : NetworkParams → Time → Result ℕ
current_slot_for p now =
    let slot_duration = quotient (time_sub now p.start) (slot_length_or_second p.slot_length) in
    if ltb_ℤ now p.start
    then err before_start
    else if ltb_ℤ slot_duration (pos 0)
    then err before_start
    else ok (to_uint64 slot_duration)

unfoldable pub current_absolute_slot_for : NetworkParams → Time → Result ℕ
current_absolute_slot_for p now = do
  slot ← current_slot_for p now
  fail_if (ltb (2 ^ 64 - 1 - p.absolute_start_slot) slot) (plain "slot overflow")
  ok ((p.absolute_start_slot + slot) % 2 ^ 64)

unfoldable pub current_kes_period_for : NetworkParams → Time → Result ℕ
current_kes_period_for p now = do
  fail_if (p.slots_per_kes_period == 0) (plain "slotsPerKESPeriod must be > 0")
  slot ← current_absolute_slot_for p now
  ok (slot / p.slots_per_kes_period)

unfoldable pub current_kes_period : ℕ → Time → Result ℕ
current_kes_period magic now = do p ← network_params_for_magic magic; current_kes_period_for p now

unfoldable pub current_epoch_for : NetworkParams → Time → Result ℕ
current_epoch_for p now = do
  fail_if (p.epoch_length == 0) (plain "epochLength must be > 0")
  slot ← current_slot_for p now
  ok (slot / p.epoch_length)

-- bits.Mul64(a, b): the high word and the low word.
abbrev pub mul_64 : ℕ → ℕ → ℕ × ℕ
mul_64 a b = (a * b / 2 ^ 64, a * b % 2 ^ 64)

unfoldable pub kes_period_start : NetworkParams → ℕ → Time
kes_period_start p period =
    let slot_length = slot_length_or_second p.slot_length in
    let (slots_hi, slots) = mul_64 period p.slots_per_kes_period in
    let (nanos_hi, nanos) = mul_64 (slots - p.absolute_start_slot) (to_uint64 slot_length) in
    if not (slots_hi == 0)
    then zero_time
    else if ltb slots p.absolute_start_slot
    then zero_time
    else if not (nanos_hi == 0) || ltb (2 ^ 63 - 1) nanos
    then zero_time
    else time_add p.start (pos nanos)

-- What `json.Unmarshal` makes of a genesis, with `f` for a floating-point number.
pub record ShelleyGenesis (F : Type 0) : Type 0 where
  pub system_start : String
  pub slot_length : Option F
  pub epoch_length : ℕ
  pub slots_per_kes_period : ℕ
  pub max_kes_evolutions : ℕ
  pub network_magic : ℕ
  pub absolute_start_slot : Option ℕ

-- os.ReadFile, json.Unmarshal, time.Parse(time.RFC3339, …), f <= 0, and
-- time.Duration(f * float64(time.Second)).
pub record GenesisFiles (F : Type 0) : Type 0 where
  pub read_file : String → Result Bytes
  pub unmarshal : Bytes → Result (ShelleyGenesis F)
  pub parse_time : String → Result Time
  pub is_nonpositive_float : F → Bool
  pub duration_of : F → Duration

-- if err != nil { return …, fmt.Errorf("…: %w", err) }
abbrev pub in_context {ℓ} : {A : Type ℓ} → String → Result A → Result A
in_context c (ok a) = ok a
in_context c (err e) = err (context c e)

pub in_context_ok {ℓ} :
    {A : Type ℓ} (c : String) (r : Result A) (a : A) → in_context c r ≡ ok a → r ≡ ok a
in_context_ok c (ok a) b h = h
in_context_ok c (err e) b h = cc

module _ {F : Type 0} (files : GenesisFiles F) where
  pub genesis_slot_length : Option F → Result Duration
  genesis_slot_length none = ok (seconds 1)
  genesis_slot_length (some f) =
      let invalid_length : Result Duration = err (plain "shelley genesis has invalid slotLength") in
      if files.is_nonpositive_float f
      then invalid_length
      else if is_nonpositive (files.duration_of f)
      then invalid_length
      else ok (files.duration_of f)

  -- The start that the genesis names, or that of mainnet.
  pub genesis_start : ShelleyGenesis F → Time → Time × ℕ
  genesis_start genesis start = elim genesis.absolute_start_slot [
    | some slot ↦ (start, slot)
    | none ↦
        if genesis.network_magic == mainnet_magic
        then (cardano_mainnet_shelley_start, cardano_mainnet_shelley_start_slot)
        else (start, 0)
  ]

  unfoldable pub network_params_from_shelley_genesis : String → Result NetworkParams
  unfolding genesis_slot_length genesis_start
  network_params_from_shelley_genesis path = do
    raw ← in_context "read Shelley genesis" (files.read_file path)
    genesis ← in_context "parse Shelley genesis" (files.unmarshal raw)
    fail_if (genesis.system_start == "") (plain "shelley genesis missing systemStart")
    start ← in_context "parse Shelley genesis systemStart" (files.parse_time genesis.system_start)
    fail_if (genesis.slots_per_kes_period == 0) (plain "shelley genesis missing slotsPerKESPeriod")
    slot_length ← genesis_slot_length genesis.slot_length
    fail_if (genesis.epoch_length == 0) (plain "shelley genesis missing epochLength")
    ok (record {
      start = (genesis_start genesis start).0;
      absolute_start_slot = (genesis_start genesis start).1;
      slot_length = slot_length;
      epoch_length = genesis.epoch_length;
      slots_per_kes_period = genesis.slots_per_kes_period;
      max_kes_evolutions = genesis.max_kes_evolutions;
    })
