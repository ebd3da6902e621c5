-- ===== src/Payload.antt =====
-- payload.go
pub mod Expiry
use dmq_lib.Prelude.{ℕ, ◌-◌, ◌%◌, ◌^◌, [], length, ltb, if◌then◌else◌, Bytes}
use dmq_lib.Prelude.Int.{ℤ, pos, negsuc, ltb_ℤ}
use dmq_lib.Errors.{
  Result, ok, err, detailed, body_size, expiry, message_body_too_large, message_expiry_out_of_range,
  fail_if, ◌>>=◌, ◌>>◌,
}
use dmq_lib.Time.{Time, Duration, minutes, is_nonpositive, unix, time_add}
use dmq_lib.Wire.{DmqMessagePayload}

abbrev pub max_message_body_bytes : ℕ
max_message_body_bytes = 2000

abbrev pub default_message_ttl : Duration
default_message_ttl = minutes 30

abbrev pub max_message_ttl : Duration
max_message_ttl = minutes 30

abbrev pub max_message_expires_at_unix : ℤ
max_message_expires_at_unix = pos (2 ^ 32 - 1)

unfoldable pub validate_message_body : Bytes → Result (Unit {0})
validate_message_body body =
    fail_if (ltb max_message_body_bytes (length body))
      (detailed message_body_too_large (body_size (length body)))

-- if ttl <= 0 { ttl = DefaultMessageTTL }
abbrev pub ttl_or_default : Duration → Duration
ttl_or_default ttl = if is_nonpositive ttl then default_message_ttl else ttl

-- if nowUnix < 0 { now = time.Unix(0, 0) }
abbrev pub not_before_epoch : Time → Time
not_before_epoch now = if ltb_ℤ (unix now) (pos 0) then pos 0 else now

-- uint32(n)
abbrev pub to_uint32 : ℤ → ℕ
to_uint32 (pos n) = n % 2 ^ 32
to_uint32 (negsuc n) = 2 ^ 32 - 1 - n % 2 ^ 32

pub expires_at : Time → Duration → Result ℕ
unfolding unix time_add
expires_at now ttl =
    let lifetime = ttl_or_default ttl in
    let out_of_range = detailed message_expiry_out_of_range (expiry (unix now) lifetime) in
    let expires = unix (time_add (not_before_epoch now) lifetime) in
    if ltb_ℤ max_message_expires_at_unix (unix now)
    then err out_of_range
    else if ltb_ℤ max_message_expires_at_unix expires
    then err out_of_range
    else ok (to_uint32 expires)

unfoldable pub new_message_payload : Time → Duration → Bytes → Result DmqMessagePayload
unfolding validate_message_body expires_at
new_message_payload now ttl body = do
  validate_message_body body
  expires ← expires_at now ttl
  ok (record { message_id = []; message_body = body; kes_period = 0; expires_at = expires })
