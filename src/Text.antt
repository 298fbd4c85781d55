-- ===== src/Text.antt =====
-- JavaScript strings as lists of UTF-16 code units, and the string methods that the source calls.
use Prim.Native.Char.{code}
use Prim.Native.String.{String}
use mathlib.Core.Option.{some-injective}
use nestjs_modular_monolith.Common.{
  ℕ, zero, suc, ◌<◌, ◌≤◌, ◌≡◌, refl, ap, subst, inl, inr, Bool-cases, Bool, true, false, ◌&&◌, ◌||◌,
  Option, none, some, List, [], ◌∷◌, arith, leb, ◌==◌, if◌then◌else◌, length, take, keep, All,
}

abbrev pub Text : Type 0
Text = List ℕ

-- A literal, one unit for each character (no literal of the source has a character of two units).
abbrev pub literal : String → Text
literal String.[] = []
literal (String.◌∷◌ c s) = code c ∷ literal s

abbrev pub text_eq : Text → Text → Bool
text_eq [] [] = true
text_eq (a ∷ s) (b ∷ t) = a == b && text_eq s t
text_eq _ _ = false

-- The white space and line terminators of ECMAScript, which `trim` removes.
abbrev pub is_white : ℕ → Bool
is_white c =
    leb 9 c && leb c 13
    || c == 32
    || c == 160
    || c == 0x1680
    || leb 0x2000 c && leb c 0x200a
    || c == 0x2028
    || c == 0x2029
    || c == 0x202f
    || c == 0x205f
    || c == 0x3000
    || c == 0xfeff

pub trim_start : Text → Text
trim_start [] = []
trim_start (c ∷ s) = if is_white c then trim_start s else c ∷ s

abbrev is_empty : Text → Bool
is_empty [] = true
is_empty _ = false

pub trim_end : Text → Text
trim_end [] = []
trim_end (c ∷ s) = let rest = trim_end s in if is_white c && is_empty rest then [] else c ∷ rest

unfoldable pub trim : Text → Text
unfolding trim_start trim_end
trim s = trim_end (trim_start s)

-- One more unit at the front of the first part.
abbrev grow : ℕ → List Text → List Text
grow c [] = (c ∷ []) ∷ []
grow c (part ∷ parts) = (c ∷ part) ∷ parts

-- `s.split(/[…]/)` at the units that pass the test: at least one part.
unfoldable pub split : (ℕ → Bool) → Text → List Text
split p [] = [] ∷ []
split p (c ∷ s) = let parts = split p s in if p c then [] ∷ parts else grow c parts

-- `parts.pop()`
unfoldable pub last : List Text → Option Text
last [] = none
last (part ∷ []) = some part
last (part ∷ parts) = last parts

module _ {κ} (P : ℕ → Type κ) where
  trim_start-All : (s : Text) → All P s → All P (trim_start s)
  unfolding trim_start
  trim_start-All [] h = tt
  trim_start-All (c ∷ s) h = ground (arith, trim_start-All s h.1)

  trim_end-All : (s : Text) → All P s → All P (trim_end s)
  unfolding trim_end
  trim_end-All [] h = tt
  trim_end-All (c ∷ s) h = ground (arith, trim_end-All s h.1)

  -- What holds of every unit of a text holds of every unit of the trimmed text.
  pub trim-All : (s : Text) → All P s → All P (trim s)
  unfolding trim
  trim-All s h = trim_end-All (trim_start s) (trim_start-All s h)

  pub take-All : (n : ℕ) (s : Text) → All P s → All P (take n s)
  take-All zero s h = tt
  take-All (suc n) [] h = tt
  take-All (suc n) (c ∷ s) h = (h.0, take-All n s h.1)

  pub last-All :
      (parts : List Text) {part : Text} → All (All P) parts → last parts ≡ some part → All P part
  unfolding last
  last-All [] h e = cc
  last-All (q ∷ []) h e = subst (All P) (some-injective q _ e) h.0
  last-All (q ∷ r ∷ parts) h e = last-All (r ∷ parts) h.1 e

-- No part of a split text holds a separator.
pub split-All : (p : ℕ → Bool) (s : Text) → All (All (λ c. p c ≡ false)) (split p s)
unfolding split
split-All p [] = (tt, tt)
split-All p (c ∷ s) = elim (Bool-cases (p c)) [
  | inl hit ↦ rw hit (tt, split-All p s)
  | inr miss ↦ rw miss (grow-All (split p s) miss (split-All p s))
]
  where
    grow-All :
        (parts : List Text)
        → p c ≡ false
        → All (All (λ c. p c ≡ false)) parts
        → All (All (λ c. p c ≡ false)) (grow c parts)
    grow-All [] miss h = ((miss, tt), tt)
    grow-All (part ∷ parts) miss h = ((miss, h.0), h.1)

-- Every unit that `keep` lets through passes the test, and keeps what held of it.
pub keep-All {κ} :
    (P : ℕ → Type κ) (p : ℕ → Bool) (s : Text) → All P s → All (λ c. P c × (p c ≡ true)) (keep p s)
keep-All P p [] h = tt
keep-All P p (c ∷ s) h = ground (arith, keep-All P p s h.1)

-- A cut that leaves less than was asked for cuts nothing.
pub take_short : (n : ℕ) (s : Text) → length (take n s) < n → take n s ≡ s
take_short zero s h = elim h [ ]
take_short (suc n) [] h = refl
take_short (suc n) (c ∷ s) h = ap (λ t. c ∷ t) (take_short n s (omega arith))

pub text_eq_refl : (s : Text) → text_eq s s ≡ true
text_eq_refl [] = refl
text_eq_refl (c ∷ s) = ground (arith, text_eq_refl s)

pub eq_of_text_eq : (s t : Text) → text_eq s t ≡ true → s ≡ t
eq_of_text_eq [] [] e = refl
eq_of_text_eq [] (d ∷ t) e = cc
eq_of_text_eq (c ∷ s) [] e = cc
eq_of_text_eq (c ∷ s) (d ∷ t) e = ground (arith, eq_of_text_eq s t)

-- A text with no separator is one part.
pub split_none : (p : ℕ → Bool) (s : Text) → All (λ c. p c ≡ false) s → split p s ≡ s ∷ []
unfolding split
split_none p [] h = refl
split_none p (c ∷ s) h = rw (h.0, split_none p s h.1)

-- A filter that every unit passes changes nothing.
pub keep_full : (p : ℕ → Bool) (s : Text) → All (λ c. p c ≡ true) s → keep p s ≡ s
keep_full p [] h = refl
keep_full p (c ∷ s) h = rw (h.0, keep_full p s h.1)

pub take_all : (n : ℕ) (s : Text) → length s ≤ n → take n s ≡ s
take_all zero [] h = refl
take_all zero (c ∷ s) h = elim h [ ]
take_all (suc n) [] h = refl
take_all (suc n) (c ∷ s) h = ap (λ t. c ∷ t) (take_all n s (omega arith))

pub text_eq_comm : (s t : Text) → text_eq s t ≡ text_eq t s
text_eq_comm [] [] = refl
text_eq_comm [] (c ∷ t) = refl
text_eq_comm (c ∷ s) [] = refl
text_eq_comm (c ∷ s) (d ∷ t) = ground (arith, text_eq_comm s t)

trim_end_none : (s : Text) → All (λ c. is_white c ≡ false) s → trim_end s ≡ s
unfolding trim_end
trim_end_none [] h = refl
trim_end_none (c ∷ s) h = rw (h.0, trim_end_none s h.1) refl

trim_start_none : (s : Text) → All (λ c. is_white c ≡ false) s → trim_start s ≡ s
unfolding trim_start
trim_start_none [] h = refl
trim_start_none (c ∷ s) h = rw h.0 refl

-- A text without white space is trimmed.
pub trim_none : (s : Text) → All (λ c. is_white c ≡ false) s → trim s ≡ s
unfolding trim
trim_none s h = rw (trim_start_none s h, trim_end_none s h) refl
