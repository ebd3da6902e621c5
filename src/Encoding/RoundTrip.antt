-- ===== src/Encoding/RoundTrip.antt =====
-- What is encoded in hex or in base64 is decoded again.
use dmq_lib.Prelude.{
  ℕ, ◌+◌, ◌*◌, ◌/◌, ◌%◌, ◌≤◌, ◌<◌, ◌≡◌, ◌≢◌, refl, ap, inl, inr, Bool, Bool-cases, true, false,
  ◌||◌, not, Option, none, some, [], ◌∷◌, ◌==◌, nat_eq, filter, any, length, arith, All, Bytes,
}
use dmq_lib.Errors.{Result, ok, err}
use dmq_lib.Encoding.{
  from_hex, hex_digit, hex_encode, hex_decode, base64_char, from_base64, base64_encode, base64_last,
  base64_tail, base64_quantum, base64_quanta, base64_decode, is_end, hex_step,
}

abbrev pub AreBytes : Bytes → Type 0
AreBytes = All (λ b. b < 256)

from_hex-hex_digit : (n : ℕ) → n < 16 → from_hex (hex_digit n) ≡ some n
unfolding from_hex hex_digit
from_hex-hex_digit n h = ground arith

pub hex_decode-hex_encode : (bs : Bytes) → AreBytes bs → hex_decode (hex_encode bs) ≡ ok bs
unfolding hex_decode hex_encode
hex_decode-hex_encode [] h = refl
hex_decode-hex_encode (b ∷ bs) h =
    ground (
      arith,
      from_hex-hex_digit (b / 16),
      from_hex-hex_digit (b % 16),
      hex_decode-hex_encode bs h.1,
    )

from_base64-base64_char : (n : ℕ) → n < 64 → from_base64 (base64_char n) ≡ some n
unfolding from_base64 base64_char
from_base64-base64_char n h = ground arith

-- No digit is the padding or a line break.
base64_char_plain :
    (n : ℕ) → n < 64 → (base64_char n ≢ b'=') × (33 ≤ base64_char n) × (base64_char n < 127)
unfolding base64_char
base64_char_plain n h = ground arith

not_padding : (n : ℕ) → n < 64 → (base64_char n == b'=') ≡ false
unfolding base64_char
not_padding n h = ground arith

-- Four digits with no padding stand for three bytes.
quantum_full :
    (s t u v : ℕ) (ends : Bool) (rest : Bytes)
    → s < 64
    → t < 64
    → u < 64
    → v < 64
    → base64_quantum (base64_char s) (base64_char t) (base64_char u) (base64_char v) ends (ok rest)
      ≡ ok ((s * 4 + t / 16) ∷ (t % 16 * 16 + u / 4) ∷ (u % 4 * 64 + v) ∷ rest)
unfolding base64_quantum base64_tail base64_last
quantum_full s t u v ends rest hs ht hu hv =
    rw
      (
        from_base64-base64_char s hs,
        from_base64-base64_char t ht,
        from_base64-base64_char u hu,
        from_base64-base64_char v hv,
        not_padding u hu,
        not_padding v hv,
      )
      refl

three_bytes :
    (a b c : ℕ) (rest : Bytes)
    → a < 256
    → b < 256
    → c < 256
    → ◌≡◌ {A = Bytes}
        ((a / 4 * 4 + (a % 4 * 16 + b / 16) / 16)
          ∷ ((a % 4 * 16 + b / 16) % 16 * 16 + (b % 16 * 4 + c / 64) / 4)
          ∷ ((b % 16 * 4 + c / 64) % 4 * 64 + c % 64)
          ∷ rest)
        (a ∷ b ∷ c ∷ rest)
three_bytes a b c rest ha hb hc =
    let x : a / 4 * 4 + (a % 4 * 16 + b / 16) / 16 ≡ a = omega arith in
    let y : (a % 4 * 16 + b / 16) % 16 * 16 + (b % 16 * 4 + c / 64) / 4 ≡ b = omega arith in
    let z : (b % 16 * 4 + c / 64) % 4 * 64 + c % 64 ≡ c = omega arith in cc (x, y, z)

pub base64_quanta-base64_encode :
    (bs : Bytes) → AreBytes bs → base64_quanta (base64_encode bs) ≡ ok bs
unfolding base64_quanta base64_encode
base64_quanta-base64_encode [] h = refl
base64_quanta-base64_encode (a ∷ []) h =
    unfold base64_quantum base64_tail in
    ground (arith, from_base64-base64_char (a / 4), from_base64-base64_char (a % 4 * 16))
base64_quanta-base64_encode (a ∷ b ∷ []) h =
    unfold base64_quantum base64_tail base64_last in
    ground (
      arith,
      from_base64-base64_char (a / 4),
      from_base64-base64_char (a % 4 * 16 + b / 16),
      from_base64-base64_char (b % 16 * 4),
      base64_char_plain (b % 16 * 4),
    )
base64_quanta-base64_encode (a ∷ b ∷ c ∷ rest) (ha, (hb, (hc, hs))) =
    rw
      (
        base64_quanta-base64_encode rest hs,
        quantum_full (a / 4) (a % 4 * 16 + b / 16) (b % 16 * 4 + c / 64) (c % 64)
            (is_end (base64_encode rest)) rest (omega arith) (omega arith) (omega arith)
            (omega arith),
      )
      (ap ok (three_bytes a b c rest ha hb hc))

-- A printable character that is not a space.
abbrev pub IsGraphic : ℕ → Type 0
IsGraphic c = (33 ≤ c) × (c < 127)

hex_digit-IsGraphic : (n : ℕ) → n < 16 → IsGraphic (hex_digit n)
unfolding hex_digit
hex_digit-IsGraphic n h = ground arith

pub hex_encode-IsGraphic : (bs : Bytes) → AreBytes bs → All IsGraphic (hex_encode bs)
unfolding hex_encode
hex_encode-IsGraphic [] h = tt
hex_encode-IsGraphic (b ∷ bs) (hb, hs) = (
  hex_digit-IsGraphic (b / 16) (omega arith),
  (hex_digit-IsGraphic (b % 16) (omega arith), hex_encode-IsGraphic bs hs),
)

base64_char-IsGraphic : (n : ℕ) → n < 64 → IsGraphic (base64_char n)
unfolding base64_char
base64_char-IsGraphic n h = ground arith

pub base64_encode-IsGraphic : (bs : Bytes) → AreBytes bs → All IsGraphic (base64_encode bs)
unfolding base64_encode
base64_encode-IsGraphic [] h = tt
base64_encode-IsGraphic (a ∷ []) (ha, _) = (
  base64_char-IsGraphic (a / 4) (omega arith),
  (base64_char-IsGraphic (a % 4 * 16) (omega arith), omega arith),
)
base64_encode-IsGraphic (a ∷ b ∷ []) (ha, (hb, _)) = (
  base64_char-IsGraphic (a / 4) (omega arith),
  (
    base64_char-IsGraphic (a % 4 * 16 + b / 16) (omega arith),
    (base64_char-IsGraphic (b % 16 * 4) (omega arith), omega arith),
  ),
)
base64_encode-IsGraphic (a ∷ b ∷ c ∷ rest) (ha, (hb, (hc, hs))) = (
  base64_char-IsGraphic (a / 4) (omega arith),
  (
    base64_char-IsGraphic (a % 4 * 16 + b / 16) (omega arith),
    (
      base64_char-IsGraphic (b % 16 * 4 + c / 64) (omega arith),
      (base64_char-IsGraphic (c % 64) (omega arith), base64_encode-IsGraphic rest hs),
    ),
  ),
)

no_line_breaks :
    (text : Bytes) → All IsGraphic text → filter (λ c. not (c == 10 || c == 13)) text ≡ text
no_line_breaks [] h = refl
no_line_breaks (c ∷ cs) h = ground (arith, no_line_breaks cs h.1)

pub base64_decode-base64_encode :
    (bs : Bytes) → AreBytes bs → base64_decode (base64_encode bs) ≡ ok bs
unfolding base64_decode
base64_decode-base64_encode bs h =
    rw (no_line_breaks (base64_encode bs) (base64_encode-IsGraphic bs h))
      (base64_quanta-base64_encode bs h)

abbrev is_ok {ℓ} : {A : Type ℓ} → Result A → Bool
is_ok (ok a) = true
is_ok (err e) = false

from_hex-padding : (c : ℕ) → (c == b'=') ≡ true → from_hex c ≡ none
unfolding from_hex
from_hex-padding c h = ground arith

high_fails : (y : Option ℕ) (r : Result Bytes) → is_ok (hex_step none y r) ≡ false
high_fails y r = refl

low_fails : (x : Option ℕ) (r : Result Bytes) → is_ok (hex_step x none r) ≡ false
low_fails none r = refl
low_fails (some high) r = refl

rest_fails : (x y : Option ℕ) (r : Result Bytes) → is_ok r ≡ false → is_ok (hex_step x y r) ≡ false
rest_fails none y r h = refl
rest_fails (some high) none r h = refl
rest_fails (some high) (some low) (err e) h = refl
rest_fails (some high) (some low) (ok bytes) h = cc

-- A text with padding in it is not hex.
padded_not_hex : (text : Bytes) → any (λ c. c == b'=') text ≡ true → is_ok (hex_decode text) ≡ false
unfolding hex_decode
padded_not_hex [] h = ground arith
padded_not_hex (c ∷ []) h = ground (arith, from_hex-padding c)
padded_not_hex (c ∷ d ∷ cs) h = elim (Bool-cases (c == b'=')) [
  | inl x ↦ rw (from_hex-padding c x) (high_fails (from_hex d) (hex_decode cs))
  | inr x ↦ elim (Bool-cases (d == b'=')) [
    | inl y ↦ rw (from_hex-padding d y) (low_fails (from_hex c) (hex_decode cs))
    | inr y ↦
        rest_fails (from_hex c) (from_hex d) (hex_decode cs) (padded_not_hex cs (cc (h, x, y)))
  ]
]

base64_padded : (bs : Bytes) → length bs % 3 ≢ 0 → any (λ c. c == b'=') (base64_encode bs) ≡ true
unfolding base64_encode
base64_padded [] h = ground arith
base64_padded (a ∷ []) h = ground arith
base64_padded (a ∷ b ∷ []) h = ground arith
base64_padded (a ∷ b ∷ c ∷ rest) h = ground (arith, base64_padded rest)

-- Where a text in base64 has padding it cannot be taken for hex.
pub base64_encode_not_hex :
    (bs bytes : Bytes) → length bs % 3 ≢ 0 → hex_decode (base64_encode bs) ≢ ok bytes
base64_encode_not_hex bs bytes h e = cc (padded_not_hex (base64_encode bs) (base64_padded bs h), e)
