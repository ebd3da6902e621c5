-- ===== src/Text/Order.antt =====
-- The order of Go's strings is a strict linear order: what `sort.SliceStable` with a comparison of
-- strings relies on.
use Prim.Native.Char.{Char, code}
use Prim.Native.Nat.{Ordering, compare as compare_ℕ}
use Prim.Native.String.{String, then as and_then, compare}
use Prim.Native.String.compare
use text.Mathlib.Text.{is_lt}
use text.Mathlib.TextEquality.{Char-path}
use native.Mathlib.Omega.{compare-lt, compare-eq, compare-gt}
use dmq_lib.Prelude.{
  ℕ, ◌≡◌, refl, sym, ap, ◌∙◌, Bool, true, false, ltb, if◌then◌else◌, ◌==◌, ==_iff, nat_eq, arith,
}
use dmq_lib.Text.{str_ltb}

-- The comparison of two first characters decides, or leaves it to the rest.
abbrev decided : ℕ → ℕ → Bool → Bool
decided m n rest = if ltb m n then true else if m == n then rest else false

then-decided :
    (m n : ℕ) (o r : Ordering) → compare_ℕ m n ≡ o → is_lt (and_then o r) ≡ decided m n (is_lt r)
then-decided m n Ordering.lt r e = ground (arith, compare-lt m n e)
then-decided m n Ordering.eq r e = ground (arith, compare-eq m n e, ==_iff m n)
then-decided m n Ordering.gt r e = ground (arith, compare-gt m n e, ==_iff m n)

str_ltb-nil : (s : String) → str_ltb s String.[] ≡ false
unfolding str_ltb
str_ltb-nil String.[] = ap is_lt compare.nil-nil
str_ltb-nil (String.◌∷◌ c s) = ap is_lt (compare.cons-nil c s)

str_ltb-nil-cons : (d : Char) (t : String) → str_ltb String.[] (String.◌∷◌ d t) ≡ true
unfolding str_ltb
str_ltb-nil-cons d t = ap is_lt (compare.nil-cons d t)

str_ltb-cons :
    (c d : Char) (s t : String)
    → str_ltb (String.◌∷◌ c s) (String.◌∷◌ d t) ≡ decided (code c) (code d) (str_ltb s t)
unfolding str_ltb
str_ltb-cons c d s t =
    ap is_lt (compare.cons-cons c d s t)
    ∙ then-decided (code c) (code d) (compare_ℕ (code c) (code d)) (compare s t) refl

pub str_ltb_asym : (s t : String) → str_ltb s t ≡ true → str_ltb t s ≡ false
str_ltb_asym String.[] t h = str_ltb-nil t
str_ltb_asym (String.◌∷◌ c s) String.[] h = ground (arith, str_ltb-nil (String.◌∷◌ c s))
str_ltb_asym (String.◌∷◌ c s) (String.◌∷◌ d t) h = ground (
  arith,
  str_ltb-cons c d s t,
  str_ltb-cons d c t s,
  ==_iff (code c) (code d),
  ==_iff (code d) (code c),
  str_ltb_asym s t,
)

pub str_ltb_trans : (s t u : String) → str_ltb s t ≡ true → str_ltb t u ≡ true → str_ltb s u ≡ true
str_ltb_trans s t String.[] h k = ground (arith, str_ltb-nil t)
str_ltb_trans String.[] t (String.◌∷◌ e u) h k = str_ltb-nil-cons e u
str_ltb_trans (String.◌∷◌ c s) String.[] u h k = ground (arith, str_ltb-nil (String.◌∷◌ c s))
str_ltb_trans (String.◌∷◌ c s) (String.◌∷◌ d t) (String.◌∷◌ e u) h k = ground (
  arith,
  str_ltb-cons c d s t,
  str_ltb-cons d e t u,
  str_ltb-cons c e s u,
  ==_iff (code c) (code d),
  ==_iff (code d) (code e),
  ==_iff (code c) (code e),
  str_ltb_trans s t u,
)

-- The first characters of two texts of which neither is less have one code, and so for the rest.
same_parts :
    (m n : ℕ) (r q : Bool)
    → decided m n r ≡ false
    → decided n m q ≡ false
    → (m ≡ n) × (r ≡ false) × (q ≡ false)
same_parts m n r q h k = ground (arith, ==_iff m n, ==_iff n m)

-- Texts of which neither is less are equal.
pub str_ltb_total : (s t : String) → str_ltb s t ≡ false → str_ltb t s ≡ false → s ≡ t
str_ltb_total String.[] String.[] h k = refl
str_ltb_total String.[] (String.◌∷◌ d t) h k = ground (arith, str_ltb-nil-cons d t)
str_ltb_total (String.◌∷◌ c s) String.[] h k = ground (arith, str_ltb-nil-cons c s)
str_ltb_total (String.◌∷◌ c s) (String.◌∷◌ d t) h k =
    let parts =
      same_parts (code c) (code d) (str_ltb s t) (str_ltb t s) (sym (str_ltb-cons c d s t) ∙ h)
        (sym (str_ltb-cons d c t s) ∙ k) in
    let rest = str_ltb_total s t parts.1 parts.2 in
    let first = Char-path c d parts.0 in λ i. String.◌∷◌ (first i) (rest i)
