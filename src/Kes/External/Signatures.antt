-- ===== src/Kes/External/Signatures.antt =====
-- What a helper program prints and what `ParseExternalKESSignature` of kes_payload.go makes of it.
use dmq_lib.Prelude.{◌%◌, ◌≡◌, ◌≢◌, refl, false, [], ◌∷◌, ◌++◌, length, Bytes}
use dmq_lib.Errors.{ok, result_cases}
use dmq_lib.Encoding.{hex_encode, hex_decode, base64_encode, is_end}
use dmq_lib.Encoding.RoundTrip.{
  AreBytes, hex_decode-hex_encode, hex_encode-IsGraphic, base64_encode-IsGraphic,
  base64_decode-base64_encode, base64_encode_not_hex,
}
use dmq_lib.Encoding.Trim.{AreSpaces, trim_space_lem}
use dmq_lib.Kes.External.{base64_signature, parse_external_kes_signature}

-- A text prints a signature: in hex, or in base64 where that has padding and so is not hex.
pub data Prints (signature : Bytes) : Bytes → Type 0 where
  in_hex : Prints signature (hex_encode signature)
  in_base64 : length signature % 3 ≢ 0 → Prints signature (base64_encode signature)

hex_nonempty : (bs : Bytes) → bs ≢ [] → is_end (hex_encode bs) ≡ false
unfolding hex_encode
hex_nonempty [] h = absurd (h refl)
hex_nonempty (b ∷ bs) h = refl

base64_nonempty : (bs : Bytes) → bs ≢ [] → is_end (base64_encode bs) ≡ false
unfolding base64_encode
base64_nonempty [] h = absurd (h refl)
base64_nonempty (a ∷ []) h = refl
base64_nonempty (a ∷ b ∷ []) h = refl
base64_nonempty (a ∷ b ∷ c ∷ bs) h = refl

has_bytes : (bs : Bytes) → bs ≢ [] → is_end bs ≡ false
has_bytes [] h = absurd (h refl)
has_bytes (b ∷ bs) h = refl

not_end : (bs : Bytes) → is_end bs ≡ false → bs ≢ []
not_end [] h e = cc
not_end (b ∷ bs) h e = cc

base64_understood :
    (signature : Bytes)
    → AreBytes signature
    → signature ≢ []
    → base64_signature (base64_encode signature) ≡ ok signature
unfolding base64_signature
base64_understood signature hb h =
    rw (base64_decode-base64_encode signature hb, has_bytes signature h) refl

-- A helper that prints a signature that is not empty, with any white space of ASCII before and after
-- it, is understood: in hex always, and in base64 where the length of the signature is not a
-- multiple of three.
pub parse_external_kes_signature-Prints :
    (signature text before after : Bytes)
    → Prints signature text
    → AreBytes signature
    → signature ≢ []
    → AreSpaces before
    → AreSpaces after
    → parse_external_kes_signature (before ++ (text ++ after)) ≡ ok signature
unfolding parse_external_kes_signature
parse_external_kes_signature-Prints signature text before after in_hex hb h sb sa =
    let e = hex_nonempty signature h in
    rw
      (
        trim_space_lem before after (hex_encode signature) sb sa (hex_encode-IsGraphic signature hb)
            (not_end _ e),
        e,
        hex_decode-hex_encode signature hb,
        has_bytes signature h,
      )
      refl
parse_external_kes_signature-Prints signature text before after (in_base64 n) hb h sb sa =
    let e = base64_nonempty signature h in
    let trimmed =
      trim_space_lem before after (base64_encode signature) sb sa
        (base64_encode-IsGraphic signature hb) (not_end _ e) in
    rw (trimmed, e)
      (result_cases (λ r. r ≡ ok signature) (hex_decode (base64_encode signature)) _ _
        (λ _ _. rw trimmed (base64_understood signature hb h))
        (λ bytes x. absurd (base64_encode_not_hex signature bytes n x)))
