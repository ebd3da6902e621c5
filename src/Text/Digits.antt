-- ===== src/Text/Digits.antt =====
-- `strconv.FormatUint` gives different texts for different numbers.
use Prim.Native.Char.{Char, code}
use Prim.Native.String.{String}
use Prim.Native.String.append
use dmq_lib.Prelude.{
  ℕ, zero, suc, ◌+◌, ◌-◌, ◌*◌, ◌/◌, ◌%◌, ◌^◌, ◌<◌, ◌≡◌, sym, ap, ◌∙◌, ltb, ==_iff, nat_eq, arith,
  Bool-cases, inl, inr,
}
use dmq_lib.Text.{◌+s◌, digit, format_digits, format_uint}

-- The number that a text of digits writes, after a first part.
abbrev value : ℕ → String → ℕ
value a String.[] = a
value a (String.◌∷◌ c s) = value (10 * a + (code c - 48)) s

value-one :
    (a : ℕ) (c : Char) (acc : String)
    → value a (String.◌∷◌ c String.[] +s acc) ≡ value (10 * a + (code c - 48)) acc
value-one a c acc =
    ap (value a) (append.cons c String.[] acc ∙ ap (λ t. String.◌∷◌ c t) (append.nil acc))

value-digit : (a n : ℕ) (acc : String) → n < 10 → value a (digit n +s acc) ≡ value (10 * a + n) acc
value-digit a n acc h = ground (
  arith,
  ==_iff n 0,
  ==_iff n 1,
  ==_iff n 2,
  ==_iff n 3,
  ==_iff n 4,
  ==_iff n 5,
  ==_iff n 6,
  ==_iff n 7,
  ==_iff n 8,
  value-one a "0" acc,
  value-one a "1" acc,
  value-one a "2" acc,
  value-one a "3" acc,
  value-one a "4" acc,
  value-one a "5" acc,
  value-one a "6" acc,
  value-one a "7" acc,
  value-one a "8" acc,
  value-one a "9" acc,
)

value-format_digits :
    (f n : ℕ) (acc : String) → n < 10 ^ f → value 0 (format_digits f n acc) ≡ value n acc
unfolding format_digits
value-format_digits zero n acc h = ap (λ k. value k acc) (omega (arith, h))
value-format_digits (suc f) n acc h = elim (Bool-cases (ltb n 10)) [
  | inl e ↦ rw e (value-digit 0 n acc (ground (arith, e)) ∙ ap (λ k. value k acc) (omega arith))
  | inr e ↦
      let less : n / 10 < 10 ^ f = omega (arith, h) in
      let digit_less : n % 10 < 10 = omega arith in
      let whole : 10 * (n / 10) + n % 10 ≡ n = omega arith in
      rw e (
        value-format_digits f (n / 10) (digit (n % 10) +s acc) less
        ∙ value-digit (n / 10) (n % 10) acc digit_less
        ∙ ap (λ k. value k acc) whole)
]

pub format_uint_inj : (m n : ℕ) → m < 10 ^ 20 → n < 10 ^ 20 → format_uint m ≡ format_uint n → m ≡ n
unfolding format_uint
format_uint_inj m n h k e =
    sym (value-format_digits 20 m "" h) ∙ ap (value 0) e ∙ value-format_digits 20 n "" k

-- Texts with the same first part have the same rest.
pub append_inj : (p s t : String) → p +s s ≡ p +s t → s ≡ t
append_inj String.[] s t e = sym (append.nil s) ∙ e ∙ append.nil t
append_inj (String.◌∷◌ c p) s t e =
    let conses : String.◌∷◌ c (p +s s) ≡ String.◌∷◌ c (p +s t) =
      sym (append.cons c p s) ∙ e ∙ append.cons c p t in
    append_inj p s t (cc conses)

-- Texts whose first characters differ are different.
pub append_apart :
    (c d : Char) (p q s t : String) → String.◌∷◌ c p +s s ≡ String.◌∷◌ d q +s t → code c ≡ code d
append_apart c d p q s t e =
    let conses : String.◌∷◌ c (p +s s) ≡ String.◌∷◌ d (q +s t) =
      sym (append.cons c p s) ∙ e ∙ append.cons d q t in
    cc conses
