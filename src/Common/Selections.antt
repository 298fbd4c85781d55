-- ===== src/Common/Selections.antt =====
-- Selections of a list by tests, and of its rearrangements.
use mathlib.Core.Path.{◌≡◌, refl, sym, subst}
use mathlib.Core.Logic.{inl, inr}
use mathlib.Core.Bool.{Bool, true, false, ◌&&◌}
use mathlib.Core.List.{List, [], ◌∷◌, Permᴰ, Memᴰ}
use mathlib.Core.List.Permᴰ
use nestjs_modular_monolith.Common.Tests.{Bool-cases}
use nestjs_modular_monolith.Common.Lists.{keep, any, All}

module _ {ℓ} {A : Type ℓ} where
  -- Tests that agree on every entry select the same.
  pub keep-ext : (p q : A → Bool) (xs : List A) → All (λ x. p x ≡ q x) xs → keep p xs ≡ keep q xs
  keep-ext p q [] h = refl
  keep-ext p q (x ∷ xs) h = rw (h.0, keep-ext p q xs h.1) refl

  pub keep-keep : (p q : A → Bool) (xs : List A) → keep p (keep q xs) ≡ keep (λ x. q x && p x) xs
  keep-keep p q [] = refl
  keep-keep p q (x ∷ xs) = elim (Bool-cases (q x)) [
    | inl hit ↦ rw (hit, keep-keep p q xs) refl
    | inr miss ↦ rw (miss, keep-keep p q xs) refl
  ]

  pub keep_nothing : (p : A → Bool) (xs : List A) → All (λ x. p x ≡ false) xs → keep p xs ≡ []
  keep_nothing p [] h = refl
  keep_nothing p (x ∷ xs) h = rw (h.0, keep_nothing p xs h.1) refl

  pub All_every {κ} : (P : A → Type κ) → ((x : A) → P x) → (xs : List A) → All P xs
  All_every P f [] = tt
  All_every P f (x ∷ xs) = (f x, All_every P f xs)

  keep_both :
      (p : A → Bool) {a b a' b' : A} (l : List A)
      → a ≡ b'
      → b ≡ a'
      → Permᴰ (keep p (a ∷ b ∷ l)) (keep p (a' ∷ b' ∷ l))
  keep_both p {a} {b} {a'} {b'} l e f = elim (Bool-cases (p a)) [
    | inl hit ↦ elim (Bool-cases (p b)) [
      | inl hit' ↦ rw (sym e, sym f, hit, hit') (Permᴰ.swap refl refl)
      | inr miss' ↦ rw (sym e, sym f, hit, miss') (Permᴰ.refl _)
    ]
    | inr miss ↦ elim (Bool-cases (p b)) [
      | inl hit' ↦ rw (sym e, sym f, miss, hit') (Permᴰ.refl _)
      | inr miss' ↦ rw (sym e, sym f, miss, miss') (Permᴰ.refl _)
    ]
  ]

  keep_head :
      (p : A → Bool) {a b : A} (l l' : List A)
      → a ≡ b
      → Permᴰ (keep p l) (keep p l')
      → Permᴰ (keep p (a ∷ l)) (keep p (b ∷ l'))
  keep_head p {a} {b} l l' e h = elim (Bool-cases (p a)) [
    | inl hit ↦ rw (sym e, hit) (Permᴰ.cons refl h)
    | inr miss ↦ rw (sym e, miss) h
  ]

  -- A rearrangement of a list has a rearrangement of its selection.
  pub keep-perm : (p : A → Bool) {xs ys : List A} → Permᴰ xs ys → Permᴰ (keep p xs) (keep p ys)
  keep-perm p Permᴰ.nil = Permᴰ.nil
  keep-perm p (Permᴰ.cons {l₁} {l₂} e h) = keep_head p l₁ l₂ e (keep-perm p h)
  keep-perm p (Permᴰ.swap {l} e f) = keep_both p l e f
  keep-perm p (Permᴰ.trans g h) = Permᴰ.trans (keep-perm p g) (keep-perm p h)

  pub keep_whole : (p : A → Bool) (xs : List A) → All (λ x. p x ≡ true) xs → keep p xs ≡ xs
  keep_whole p [] h = refl
  keep_whole p (x ∷ xs) h = rw (h.0, keep_whole p xs h.1) refl

  pub any-mem : (p : A → Bool) (xs : List A) {x : A} → Memᴰ x xs → p x ≡ true → any p xs ≡ true
  any-mem p [] m h = elim m [ ]
  any-mem p (y ∷ ys) (Memᴰ.head e) h = rw (sym e, h) refl
  any-mem p (y ∷ ys) (Memᴰ.tail m) h = elim (Bool-cases (p y)) [
    | inl hit ↦ rw hit refl
    | inr miss ↦ rw (miss, any-mem p ys m h) refl
  ]

  pub perm_to : {xs ys zs : List A} → Permᴰ xs ys → ys ≡ zs → Permᴰ xs zs
  perm_to {xs} p e = subst (λ l. Permᴰ xs l) e p
