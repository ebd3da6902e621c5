-- ===== src/Text.antt =====
-- The calls of Go's standard library on texts: `strconv.FormatUint`, `strings.Contains`,
-- `strings.TrimSpace`, `net.JoinHostPort`, and the order of strings.
pub mod Order
pub mod Digits
use Prim.Native.Char.{code}
use Prim.Native.String.{String, ◌++◌ as str_append, compare}
use text.Mathlib.Text.{find?, is_lt}
use dmq_lib.Prelude.{
  ℕ, zero, suc, ◌/◌, ◌%◌, ◌≡◌, refl, Bool, true, false, ◌&&◌, ◌||◌, List, [], ◌∷◌, leb, none, some,
  ltb, if◌then◌else◌, ◌==◌, nat_eq,
}

infixr 65 ◌+s◌
abbrev pub ◌+s◌ : String → String → String
s +s t = str_append s t

-- The digit of a number below ten.
abbrev digit : ℕ → String
digit n =
    if n == 0
    then "0"
    else if n == 1
    then "1"
    else if n == 2
    then "2"
    else if n == 3
    then "3"
    else if n == 4
    then "4"
    else if n == 5
    then "5"
    else if n == 6
    then "6"
    else if n == 7
    then "7"
    else if n == 8
    then "8"
    else "9"

-- A 64-bit number has at most twenty digits.
format_digits : ℕ → ℕ → String → String
format_digits zero n acc = acc
format_digits (suc f) n acc =
    let rest = format_digits f (n / 10) (digit (n % 10) +s acc) in
    if ltb n 10 then digit n +s acc else rest

pub format_uint : ℕ → String
unfolding format_digits
format_uint n = format_digits 20 n ""

pub contains : String → String → Bool
contains s t = elim (find? s t) [ none ↦ false | some i ↦ true ]

pub join_host_port : String → String → String
unfolding contains
join_host_port host port =
    if contains host ":" then "[" +s host +s "]:" +s port else host +s ":" +s port

-- s < t
unfoldable pub str_ltb : String → String → Bool
str_ltb s t = is_lt (compare s t)

port_text : join_host_port "relay.example" (format_uint 3001) ≡ "relay.example:3001"
unfolding join_host_port format_uint
port_text = refl

-- The code points of a text.
abbrev pub codes : String → List ℕ
codes String.[] = []
codes (String.◌∷◌ c s) = code c ∷ codes s

-- unicode.IsSpace
abbrev pub is_space : ℕ → Bool
is_space c =
    (leb 9 c && leb c 13)
    || c == 32
    || c == 133
    || c == 160
    || c == 5760
    || (leb 8192 c && leb c 8202)
    || c == 8232
    || c == 8233
    || c == 8239
    || c == 8287
    || c == 12288

-- strings.TrimSpace(s) == ""
abbrev pub is_blank : String → Bool
is_blank String.[] = true
is_blank (String.◌∷◌ c s) = is_space (code c) && is_blank s

unfoldable pub trim_left : String → String
trim_left String.[] = String.[]
trim_left (String.◌∷◌ c s) =
    let rest = trim_left s in if is_space (code c) then rest else String.◌∷◌ c s

unfoldable pub trim_right : String → String
trim_right String.[] = String.[]
trim_right (String.◌∷◌ c s) =
    let rest = trim_right s in
    if is_space (code c) && is_blank s then String.[] else String.◌∷◌ c rest

-- strings.TrimSpace
unfoldable pub trim_text : String → String
unfolding trim_left trim_right
trim_text s = trim_right (trim_left s)

trimmed : trim_text " \tDMQ X\n" ≡ "DMQ X"
unfolding trim_text
trimmed = refl
