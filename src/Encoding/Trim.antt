-- ===== src/Encoding/Trim.antt =====
-- What `strings.TrimSpace` takes off a text in ASCII.
use mathlib.Core.List.{reverse, reverse-append, reverse-cons, reverse-reverse}
use dmq_lib.Prelude.{
  ℕ, zero, suc, ◌<◌, ◌≡◌, ◌≢◌, refl, sym, ap, ◌∙◌, true, List, [], ◌∷◌, ◌++◌, nat_eq, length,
  length-append, arith, All, All-append, Bytes,
}
use dmq_lib.Encoding.{is_ascii_space, space_width, space_width_back, drop, trim, trim_space}
use dmq_lib.Encoding.RoundTrip.{IsGraphic}

abbrev pub AreSpaces : Bytes → Type 0
AreSpaces = All (λ c. is_ascii_space c ≡ true)

-- The width of what a text begins with, where that is ASCII.
record IsWidth (width : Bytes → ℕ) : Type 0 where
  space : (c : ℕ) (cs : Bytes) → is_ascii_space c ≡ true → width (c ∷ cs) ≡ 1
  graphic : (c : ℕ) (cs : Bytes) → IsGraphic c → width (c ∷ cs) ≡ 0

front_space : (c : ℕ) (cs : Bytes) → is_ascii_space c ≡ true → space_width (c ∷ cs) ≡ 1
unfolding space_width
front_space c [] h = rw h refl
front_space c (d ∷ []) h = rw h refl
front_space c (d ∷ e ∷ cs) h = rw h refl

front_graphic : (c : ℕ) (cs : Bytes) → IsGraphic c → space_width (c ∷ cs) ≡ 0
unfolding space_width
front_graphic c [] h = ground arith
front_graphic c (d ∷ []) h = ground arith
front_graphic c (d ∷ e ∷ cs) h = ground arith

back_space : (c : ℕ) (cs : Bytes) → is_ascii_space c ≡ true → space_width_back (c ∷ cs) ≡ 1
unfolding space_width_back
back_space c [] h = rw h refl
back_space c (d ∷ []) h = rw h refl
back_space c (d ∷ e ∷ cs) h = rw h refl

back_graphic : (c : ℕ) (cs : Bytes) → IsGraphic c → space_width_back (c ∷ cs) ≡ 0
unfolding space_width_back
back_graphic c [] h = ground arith
back_graphic c (d ∷ []) h = ground arith
back_graphic c (d ∷ e ∷ cs) h = ground arith

space_width-IsWidth : IsWidth space_width
space_width-IsWidth = record { space = front_space; graphic = front_graphic }

module _ (width : Bytes → ℕ) (law : IsWidth width) where
  trim_spaces :
      (fuel c : ℕ) (spaces cs : Bytes)
      → AreSpaces spaces
      → IsGraphic c
      → length spaces < fuel
      → trim width fuel (spaces ++ c ∷ cs) ≡ c ∷ cs
  unfolding trim drop
  trim_spaces zero c spaces cs hs hc h = elim h [ ]
  trim_spaces (suc fuel) c [] cs hs hc h = rw (trim, law.graphic c cs hc) refl
  trim_spaces (suc fuel) c (s ∷ spaces) cs hs hc h =
      rw (trim, law.space s (spaces ++ c ∷ cs) hs.0)
        (trim_spaces fuel c spaces cs hs.1 hc (omega arith))

All-reverse {ℓ κ} : {A : Type ℓ} (P : A → Type κ) (xs : List A) → All P xs → All P (reverse xs)
All-reverse P [] h = h
All-reverse P (x ∷ xs) (hx, hs) =
    rw (reverse-cons x xs) (All-append P (reverse xs) (x ∷ []) (All-reverse P xs hs) (hx, tt))

length-reverse {ℓ} : {A : Type ℓ} (xs : List A) → length (reverse xs) ≡ length xs
length-reverse [] = refl
length-reverse (x ∷ xs) =
    rw (reverse-cons x xs) (omega (arith, length-append (reverse xs) (x ∷ []), length-reverse xs))

back-IsWidth : IsWidth space_width_back
back-IsWidth = record { space = back_space; graphic = back_graphic }

-- The same where the text is known by its front only.
trim_front :
    (width : Bytes → ℕ)
    → IsWidth width
    → (fuel : ℕ) (spaces text : Bytes) → AreSpaces spaces
    → All IsGraphic text
    → text ≢ []
    → fuel ≡ length (spaces ++ text)
    → trim width fuel (spaces ++ text) ≡ text
trim_front width law fuel spaces [] hs ht h e = absurd (h refl)
trim_front width law fuel spaces (c ∷ cs) hs ht h e =
    trim_spaces width law fuel c spaces cs hs ht.0 (omega (arith, e, length-append spaces (c ∷ cs)))

-- White space before and after a text, which is neither empty nor has any in it, is taken off.
pub trim_space_lem :
    (before after text : Bytes)
    → AreSpaces before
    → AreSpaces after
    → All IsGraphic text
    → text ≢ []
    → trim_space (before ++ (text ++ after)) ≡ text
unfolding trim_space
trim_space_lem before after [] hb ha ht h = absurd (h refl)
trim_space_lem before after (c ∷ cs) hb ha ht h =
    let text : Bytes = c ∷ cs in
    let left : trim space_width (length (before ++ (text ++ after))) (before ++ (text ++ after))
        ≡ text ++ after =
      trim_spaces space_width space_width-IsWidth _ c before (cs ++ after) hb ht.0
        (omega (arith, length-append before (text ++ after))) in
    let right : trim space_width_back (length (reverse after ++ reverse text))
          (reverse after ++ reverse text)
        ≡ reverse text =
      trim_front space_width_back back-IsWidth _ (reverse after) (reverse text)
        (All-reverse _ after ha) (All-reverse _ text ht)
        (λ e. h (sym (reverse-reverse text) ∙ ap reverse e)) refl in
    rw (left, ← length-reverse (text ++ after), reverse-append text after, right)
      (reverse-reverse text)
