-- ===== src/Encoding.antt =====
-- The calls of Go's standard library on bytes: `encoding/hex`, `base64.StdEncoding` and, on a string
-- of bytes, `strings.TrimSpace`.
pub mod RoundTrip
pub mod Trim
use mathlib.Core.List.{reverse}
use dmq_lib.Prelude.{
  ℕ, zero, suc, ◌+◌, ◌-◌, ◌*◌, ◌/◌, ◌%◌, ◌≡◌, refl, Bool, true, false, ◌&&◌, ◌||◌, not, Option,
  none, some, List, [], ◌∷◌, ◌++◌, ◌==◌, nat_eq, ltb, leb, if◌then◌else◌, filter, length, Bytes,
}
use dmq_lib.Errors.{Error, Result, ok, err, external, ◌>>=◌}

-- c - low, where c is in the range
abbrev from_range : ℕ → ℕ → ℕ → ℕ → Option ℕ → Option ℕ
from_range c low high base other = if leb low c && leb c high then some (c - low + base) else other

-- hex.fromHexChar
unfoldable pub from_hex : ℕ → Option ℕ
from_hex c = from_range c b'0' b'9' 0 (from_range c b'a' b'f' 10 (from_range c b'A' b'F' 10 none))

unfoldable pub hex_digit : ℕ → ℕ
hex_digit n = if ltb n 10 then n + 48 else n + 87

-- hex.EncodeToString
unfoldable pub hex_encode : Bytes → Bytes
hex_encode [] = []
hex_encode (b ∷ bs) = hex_digit (b / 16) ∷ hex_digit (b % 16) ∷ hex_encode bs

abbrev pub invalid_byte : Error
invalid_byte = external "encoding/hex: invalid byte"

-- ok, or the error
abbrev pub or_err : Error → Option ℕ → Result ℕ
or_err e none = err e
or_err e (some n) = ok n

-- Two digits, and what follows them.
abbrev pub hex_step : Option ℕ → Option ℕ → Result Bytes → Result Bytes
hex_step x y rest = do
  high ← or_err invalid_byte x
  low ← or_err invalid_byte y
  bytes ← rest
  ok ((high * 16 + low) ∷ bytes)

-- hex.DecodeString
unfoldable pub hex_decode : Bytes → Result Bytes
hex_decode [] = ok []
hex_decode (c ∷ []) = do
  high ← or_err invalid_byte (from_hex c)
  err (external "encoding/hex: odd length hex string")
hex_decode (c ∷ d ∷ cs) = let rest = hex_decode cs in hex_step (from_hex c) (from_hex d) rest

-- encodeStd
unfoldable pub base64_char : ℕ → ℕ
base64_char n =
    if ltb n 26
    then n + 65
    else if ltb n 52
    then n + 71
    else if ltb n 62
    then n - 52 + 48
    else if n == 62
    then b'+'
    else b'/'

-- decodeMap
unfoldable pub from_base64 : ℕ → Option ℕ
from_base64 c = from_range c b'A' b'Z' 0 (
    from_range c b'a' b'z' 26
      (from_range c b'0' b'9' 52 (from_range c b'+' b'+' 62 (from_range c b'/' b'/' 63 none))))

-- base64.StdEncoding.EncodeToString
unfoldable pub base64_encode : Bytes → Bytes
base64_encode [] = []
base64_encode (a ∷ []) = base64_char (a / 4) ∷ base64_char (a % 4 * 16) ∷ b'=' ∷ b'=' ∷ []
base64_encode (a ∷ b ∷ []) =
    base64_char (a / 4) ∷ base64_char (a % 4 * 16 + b / 16) ∷ base64_char (b % 16 * 4) ∷ b'=' ∷ []
base64_encode (a ∷ b ∷ c ∷ rest) =
    base64_char (a / 4)
    ∷ base64_char (a % 4 * 16 + b / 16)
    ∷ base64_char (b % 16 * 4 + c / 64)
    ∷ base64_char (c % 64)
    ∷ base64_encode rest

abbrev pub corrupt : Error
corrupt = external "illegal base64 data"

abbrev pub is_end : Bytes → Bool
is_end [] = true
is_end (c ∷ cs) = false

abbrev or_corrupt : Bool → Bytes → Result Bytes
or_corrupt ends bytes = if ends then ok bytes else err corrupt

-- The last character, behind the values of the first three; `=` is padding.
unfoldable pub base64_last : ℕ → ℕ → ℕ → ℕ → Bool → Result Bytes → Result Bytes
base64_last s t u d ends rest =
    let first = s * 4 + t / 16 in
    let second = t % 16 * 16 + u / 4 in
    let full : Result Bytes = or_err corrupt (from_base64 d) >>= λ v.
    rest >>= λ bytes. ok (first ∷ second ∷ (u % 4 * 64 + v) ∷ bytes) in
    if d == b'=' then or_corrupt ends (first ∷ second ∷ []) else full

-- The third character, behind the values of the first two.
unfoldable pub base64_tail : ℕ → ℕ → ℕ → ℕ → Bool → Result Bytes → Result Bytes
unfolding base64_last
base64_tail s t c d ends rest =
    if c == b'=' && d == b'='
    then or_corrupt ends ((s * 4 + t / 16) ∷ [])
    else or_err corrupt (from_base64 c) >>= λ u. base64_last s t u d ends rest

-- What four characters stand for, before what the rest stands for.
unfoldable pub base64_quantum : ℕ → ℕ → ℕ → ℕ → Bool → Result Bytes → Result Bytes
unfolding base64_tail
base64_quantum a b c d ends rest = do
  s ← or_err corrupt (from_base64 a)
  t ← or_err corrupt (from_base64 b)
  base64_tail s t c d ends rest

unfoldable pub base64_quanta : Bytes → Result Bytes
unfolding base64_quantum
base64_quanta [] = ok []
base64_quanta (a ∷ b ∷ c ∷ d ∷ cs) =
    let rest = base64_quanta cs in base64_quantum a b c d (is_end cs) rest
base64_quanta _ = err corrupt

-- base64.StdEncoding.DecodeString, which passes over line breaks.
unfoldable pub base64_decode : Bytes → Result Bytes
unfolding base64_quanta
base64_decode text = base64_quanta (filter (λ c. not (c == 10 || c == 13)) text)

-- The white space of ASCII: unicode.IsSpace below 128.
abbrev pub is_ascii_space : ℕ → Bool
is_ascii_space c = (leb 9 c && leb c 13) || c == 32

-- unicode.IsSpace of the rune that UTF-8 encodes in two or in three bytes.
abbrev is_wide_space : ℕ → ℕ → ℕ → Bool
is_wide_space a b c =
    (a == 225 && b == 154 && c == 128)
    || (a == 226
        && ((b == 128 && ((leb 128 c && leb c 138) || c == 168 || c == 169 || c == 175))
            || (b == 129 && c == 159)))
    || (a == 227 && b == 128 && c == 128)

abbrev is_pair_space : ℕ → ℕ → Bool
is_pair_space a b = a == 194 && (b == 133 || b == 160)

-- How many bytes the white space takes that a text begins with, and the same from its end, for
-- the text in reverse.
unfoldable pub space_width : Bytes → ℕ
space_width [] = 0
space_width (a ∷ []) = if is_ascii_space a then 1 else 0
space_width (a ∷ b ∷ []) = if is_ascii_space a then 1 else if is_pair_space a b then 2 else 0
space_width (a ∷ b ∷ c ∷ cs) =
    if is_ascii_space a
    then 1
    else if is_pair_space a b
    then 2
    else if is_wide_space a b c
    then 3
    else 0

unfoldable pub space_width_back : Bytes → ℕ
space_width_back [] = 0
space_width_back (a ∷ []) = if is_ascii_space a then 1 else 0
space_width_back (a ∷ b ∷ []) = if is_ascii_space a then 1 else if is_pair_space b a then 2 else 0
space_width_back (a ∷ b ∷ c ∷ cs) =
    if is_ascii_space a
    then 1
    else if is_pair_space b a
    then 2
    else if is_wide_space c b a
    then 3
    else 0

unfoldable pub drop : ℕ → Bytes → Bytes
drop zero cs = cs
drop (suc n) [] = []
drop (suc n) (c ∷ cs) = drop n cs

-- strings.TrimLeftFunc; each round takes a byte at least.
unfoldable pub trim : (Bytes → ℕ) → ℕ → Bytes → Bytes
trim width zero s = s
trim width (suc fuel) s = elim (width s) [ zero ↦ s | suc n ↦ trim width fuel (drop (suc n) s) ]

-- strings.TrimSpace
unfoldable pub trim_space : Bytes → Bytes
trim_space s =
    let left = trim space_width (length s) s in
    reverse (trim space_width_back (length left) (reverse left))

hex_text : hex_decode (hex_encode (171 ∷ 7 ∷ [])) ≡ ok (171 ∷ 7 ∷ [])
unfolding hex_decode hex_encode hex_digit from_hex
hex_text = refl

base64_text : base64_decode (base64_encode (171 ∷ 7 ∷ 255 ∷ 1 ∷ [])) ≡ ok (171 ∷ 7 ∷ 255 ∷ 1 ∷ [])
unfolding base64_decode base64_encode base64_char from_base64
base64_text = refl

trimmed_text :
    trim_space (32 ∷ 194 ∷ 160 ∷ 65 ∷ 10 ∷ 66 ∷ 226 ∷ 128 ∷ 169 ∷ 10 ∷ []) ≡ 65 ∷ 10 ∷ 66 ∷ []
unfolding trim_space trim space_width space_width_back drop
trimmed_text = refl
