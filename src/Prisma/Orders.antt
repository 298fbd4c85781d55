-- ===== src/Prisma/Orders.antt =====
-- Lists in a strict order are decided by their members.
use mathlib.Core.List.{Permᴰ}
use nestjs_modular_monolith.Common.{
  ◌≡◌, refl, sym, subst, ap₂, ◌∙◌, Bool, true, false, List, [], ◌∷◌, ◌++◌, Memᴰ, All, All-mem,
}
use nestjs_modular_monolith.Prisma.{IsSorted}
use nestjs_modular_monolith.Prisma.Rows.{All-self, All-perm}

module _ {Row : Type 0} where
  -- A rearrangement has the same members.
  pub mem-perm : {t u : List Row} (r : Row) → Permᴰ t u → Memᴰ r t → Memᴰ r u
  mem-perm {t} {u} r p m = All-mem (λ x. Memᴰ x u) t (All-perm (λ x. Memᴰ x u) p (All-self u)) m

  -- The end of a sorted list is sorted, and what stands before comes first.
  pub IsSorted-after :
      (le : Row → Row → Bool) (a : List Row) (e : Row) (b : List Row)
      → IsSorted le (a ++ e ∷ b)
      → IsSorted le b × All (λ x. le e x ≡ true) b × All (λ x. le x e ≡ true) a
  IsSorted-after le [] e b h = (h.1, h.0, tt)
  IsSorted-after le (x ∷ a) e b h =
      let (sorted, later, earlier) = IsSorted-after le a e b h.1 in
      (sorted, later, (All-mem (λ z. le x z ≡ true) (a ++ e ∷ b) h.0 (mem_middle a), earlier))
    where
      mem_middle : (a : List Row) → Memᴰ e (a ++ e ∷ b)
      mem_middle [] = Memᴰ.head refl
      mem_middle (x ∷ a) = Memᴰ.tail (mem_middle a)

  pub mem_right : (a b : List Row) {r : Row} → Memᴰ r b → Memᴰ r (a ++ b)
  mem_right [] b m = m
  mem_right (x ∷ a) b m = Memᴰ.tail (mem_right a b m)

  module _ (lt : Row → Row → Bool) (irrefl : (a : Row) → lt a a ≡ false)
      (trans : (a b c : Row) → lt a b ≡ true → lt b c ≡ true → lt a c ≡ true) where
    clash : {A : Type 0} (a b : Row) → lt a b ≡ true → a ≡ b → A
    clash a b h e = elim (never (sym (irrefl a) ∙ subst (λ z. lt a z ≡ true) (sym e) h)) [ ]
      where
        never : false ≡ true → ⊥
        never e = cc

    same_head :
        (x y : Row) (xs ys : List Row)
        → All (λ z. lt x z ≡ true) xs
        → All (λ z. lt y z ≡ true) ys
        → Memᴰ x (y ∷ ys)
        → Memᴰ y (x ∷ xs)
        → x ≡ y
    same_head x y xs ys h k (Memᴰ.head e) n = e
    same_head x y xs ys h k (Memᴰ.tail m) (Memᴰ.head e) = sym e
    same_head x y xs ys h k (Memᴰ.tail m) (Memᴰ.tail n) =
        clash x x (trans x y x (All-mem _ xs h n) (All-mem _ ys k m)) refl

    -- A member of the rest of one list is one of the rest of the other.
    rest_mem :
        (x y z : Row) (xs ys : List Row)
        → x ≡ y
        → All (λ r. lt x r ≡ true) xs
        → Memᴰ z xs
        → Memᴰ z (y ∷ ys)
        → Memᴰ z ys
    rest_mem x y z xs ys e h m (Memᴰ.head f) =
        clash x z (All-mem (λ r. lt x r ≡ true) xs h m) (e ∙ sym f)
    rest_mem x y z xs ys e h m (Memᴰ.tail n) = n

    -- Two lists in a strict order with the same members are the same.
    pub eq_of_mem :
        (xs ys : List Row)
        → IsSorted lt xs
        → IsSorted lt ys
        → ((z : Row) → Memᴰ z xs → Memᴰ z ys)
        → ((z : Row) → Memᴰ z ys → Memᴰ z xs)
        → xs ≡ ys
    eq_of_mem [] [] h k f g = refl
    eq_of_mem [] (y ∷ ys) h k f g = elim (g y (Memᴰ.head refl)) [ ]
    eq_of_mem (x ∷ xs) [] h k f g = elim (f x (Memᴰ.head refl)) [ ]
    eq_of_mem (x ∷ xs) (y ∷ ys) h k f g =
        let same = same_head x y xs ys h.0 k.0 (f x (Memᴰ.head refl)) (g y (Memᴰ.head refl)) in
        ap₂ (λ z zs. z ∷ zs) same
          (eq_of_mem xs ys h.1 k.1 (λ z m. rest_mem x y z xs ys same h.0 m (f z (Memᴰ.tail m)))
            (λ z m. rest_mem y x z ys xs (sym same) k.0 m (g z (Memᴰ.tail m))))
