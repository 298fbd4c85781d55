-- ===== src/Upload/StoredFile/Filename.antt =====
-- What `sanitiseFilename` lets through.
use nestjs_modular_monolith.Common.{
  ℕ, suc, zero, ◌≤◌, ◌<◌, ◌≡◌, ◌≢◌, refl, sym, ap, ◌∙◌, subst, inl, inr, Bool, true, false, ◌||◌,
  Bool-cases, Option, none, some, List, [], ◌∷◌, arith, if◌then◌else◌, length, take, All, All-map,
  length-take-le,
}
use nestjs_modular_monolith.Errors.{Thrown, ok, throw}
use nestjs_modular_monolith.Text.{
  Text, literal, text_eq, text_eq_refl, trim, split, last, trim-All, take-All, last-All, split-All,
  keep-All, take_short, take_all, eq_of_text_eq, split_none, keep_full,
}
use nestjs_modular_monolith.Upload.StoredFile.{
  is_separator, is_safe_character, strip_unsafe_characters, or_file, accept_name, sanitise_filename,
}

-- One unit of a stored name: no separator, no control character, no quote.
abbrev pub IsSafeUnit : ℕ → Type 0
IsSafeUnit c = (c ≢ 47) × (c ≢ 92) × (32 ≤ c) × (c ≢ 127) × (c ≢ 34)

pub record IsSafeName (name : Text) : Type 0 where
  pub units : All IsSafeUnit name
  pub some_unit : 0 < length name
  pub bounded : length name ≤ 255
  pub not_dot : name ≢ literal "."
  pub not_dots : name ≢ literal ".."

or_file-All :
    (found : Option Text) (parts : List Text)
    → All (All (λ c. is_separator c ≡ false)) parts
    → last parts ≡ found
    → All (λ c. is_separator c ≡ false) (or_file found)
or_file-All none parts h e = (refl, (refl, (refl, (refl, tt))))
or_file-All (some base) parts h e = last-All (λ c. is_separator c ≡ false) parts h e

cleaned-All :
    (raw : Text)
    → All IsSafeUnit (trim (strip_unsafe_characters (or_file (last (split is_separator raw)))))
unfolding strip_unsafe_characters
cleaned-All raw = trim-All IsSafeUnit _ (
    All-map (λ c h. ground arith) _
      (keep-All (λ c. is_separator c ≡ false) is_safe_character _
        (or_file-All _ (split is_separator raw) (split-All is_separator raw) refl)))

-- A cut to `n` units is a shorter text only if that text was there before.
cut_ne :
    (n : ℕ) (cleaned other : Text)
    → length other < n
    → text_eq cleaned other ≡ false
    → take n cleaned ≢ other
cut_ne n cleaned other h e q =
    let same : cleaned ≡ other = sym (take_short n cleaned (rw q h)) ∙ q in
    cc (text_eq_refl other, subst (λ t. text_eq t other ≡ false) same e)

length-cut :
    (n : ℕ) (cleaned : Text) → 0 < n → text_eq cleaned [] ≡ false → 0 < length (take n cleaned)
length-cut zero cleaned h e = elim h [ ]
length-cut (suc n) [] h e = cc
length-cut (suc n) (c ∷ s) h e = omega arith

-- A text that is none of the three refused ones.
cut-IsSafeName :
    (cleaned : Text)
    → All IsSafeUnit cleaned
    → text_eq cleaned (literal "") ≡ false
    → text_eq cleaned (literal ".") ≡ false
    → text_eq cleaned (literal "..") ≡ false
    → IsSafeName (take 255 cleaned)
cut-IsSafeName cleaned h e f g = record {
  units = take-All IsSafeUnit 255 cleaned h;
  some_unit = length-cut 255 cleaned (omega arith) e;
  bounded = length-take-le 255 cleaned;
  not_dot = cut_ne 255 cleaned (literal ".") (omega arith) f;
  not_dots = cut_ne 255 cleaned (literal "..") (omega arith) g;
}

none_refused :
    (a b c : Bool) (x : Thrown) (cut name : Text)
    → (if a || b || c then throw x else ok cut) ≡ ok name
    → (a ≡ false) × (b ≡ false) × (c ≡ false) × (cut ≡ name)
none_refused a b c x cut name e = ground arith

accepted_name :
    (cleaned name : Text)
    → accept_name cleaned ≡ ok name
    → (text_eq cleaned (literal "") ≡ false)
      × (text_eq cleaned (literal ".") ≡ false)
      × (text_eq cleaned (literal "..") ≡ false)
      × (take 255 cleaned ≡ name)
unfolding accept_name
accepted_name cleaned name e = none_refused _ _ _ _ (take 255 cleaned) name e

-- Whatever a client sends, a name that passes is free of separators, control characters and quotes,
-- holds between 1 and 255 units, and is neither `.` nor `..`.
pub sanitise_filename-IsSafeName :
    (raw name : Text) → sanitise_filename raw ≡ ok name → IsSafeName name
unfolding sanitise_filename
sanitise_filename-IsSafeName raw name e =
    let (a, b, c, q) = accepted_name _ name e in
    subst IsSafeName q (cut-IsSafeName _ (cleaned-All raw) a b c)

IsSafeUnit-split : (c : ℕ) → IsSafeUnit c → is_separator c ≡ false
IsSafeUnit-split c h = ground arith

IsSafeUnit-keep : (c : ℕ) → IsSafeUnit c → is_safe_character c ≡ true
IsSafeUnit-keep c h = ground arith

text_eq-ne : (s t : Text) → s ≢ t → text_eq s t ≡ false
text_eq-ne s t h = elim (Bool-cases (text_eq s t)) [
  | inl e ↦ absurd (h (eq_of_text_eq s t e))
  | inr e ↦ e
]

accept_name_fixes : (name : Text) → IsSafeName name → accept_name name ≡ ok name
unfolding accept_name
accept_name_fixes name h = rw (
  text_eq-ne name [] (λ e. omega (arith, ap length e)),
  text_eq-ne name (literal ".") h.not_dot,
  text_eq-ne name (literal "..") h.not_dots,
  take_all 255 name h.bounded,
)

-- A name that is safe and trimmed is stored as it is.
pub sanitise_filename_fixes :
    (name : Text) → IsSafeName name → trim name ≡ name → sanitise_filename name ≡ ok name
unfolding sanitise_filename strip_unsafe_characters last
sanitise_filename_fixes name h e =
    rw
      (
        split_none is_separator name (All-map IsSafeUnit-split name h.units),
        keep_full is_safe_character name (All-map IsSafeUnit-keep name h.units),
        e,
      )
      (accept_name_fixes name h)
