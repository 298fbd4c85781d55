-- ===== src/Prisma/ListClient.antt =====
-- A client over plain lists: it shows that the client's laws can hold, and runs the examples.
use mathlib.Core.List.{Permᴰ}
use mathlib.Core.List.Permᴰ
use nestjs_modular_monolith.Common.{
  ◌≡◌, refl, sym, subst, inl, inr, Bool, false, not, ◌||◌, Option, none, some, List, [], ◌∷◌, ◌++◌,
  Memᴰ, if◌then◌else◌, Bool-cases, count, any, keep, patch, All, All-map, true, arith,
}
use nestjs_modular_monolith.Errors.{ok, throw, plain_error}
use nestjs_modular_monolith.Prisma.{PrismaClient, Finds, settle, IsSorted}

module _ {Row : Type 0} where
  abbrev find : (Row → Bool) → List Row → Option Row
  find w [] = none
  find w (x ∷ xs) = if w x then some x else find w xs

  find-miss : (w : Row → Bool) (x : Row) (xs : List Row) → w x ≡ false → find w (x ∷ xs) ≡ find w xs
  find-miss w x xs miss = rw miss

  -- A row found further on, or none, where the head does not pass.
  find_further :
      (w : Row → Bool) (x : Row) (xs : List Row) (found : Option Row)
      → w x ≡ false
      → Finds w xs found
      → Finds w (x ∷ xs) found
  find_further w x xs found miss (inl (e, h)) = inl (e, (miss, h))
  find_further w x xs found miss (inr (r, e, m, h)) = inr (r, e, Memᴰ.tail m, h)

  pub find-Finds : (w : Row → Bool) (t : List Row) → Finds w t (find w t)
  find-Finds w [] = inl (refl, tt)
  find-Finds w (x ∷ xs) = elim (Bool-cases (w x)) [
    | inl hit ↦ inr (x, rw hit refl, Memᴰ.head refl, hit)
    | inr miss ↦
        subst (Finds w (x ∷ xs)) (sym (find-miss w x xs miss))
          (find_further w x xs (find w xs) miss (find-Finds w xs))
  ]

  abbrev insert : (Row → Row → Bool) → Row → List Row → List Row
  insert le x [] = x ∷ []
  insert le x (y ∷ ys) = if le x y then x ∷ y ∷ ys else y ∷ insert le x ys

  abbrev sort : (Row → Row → Bool) → List Row → List Row
  sort le [] = []
  sort le (x ∷ xs) = insert le x (sort le xs)

  insert-perm : (le : Row → Row → Bool) (x : Row) (ys : List Row) → Permᴰ (insert le x ys) (x ∷ ys)
  insert-perm le x [] = Permᴰ.refl _
  insert-perm le x (y ∷ ys) = elim (Bool-cases (le x y)) [
    | inl first ↦ rw first (Permᴰ.refl _)
    | inr later ↦
        rw later (Permᴰ.trans (Permᴰ.cons refl (insert-perm le x ys)) (Permᴰ.swap refl refl))
  ]

  pub sort-perm : (le : Row → Row → Bool) (t : List Row) → Permᴰ (sort le t) t
  sort-perm le [] = Permᴰ.nil
  sort-perm le (x ∷ xs) =
      Permᴰ.trans (insert-perm le x (sort le xs)) (Permᴰ.cons refl (sort-perm le xs))

  module _ (le : Row → Row → Bool) (total : (a b : Row) → le a b || le b a ≡ true)
      (trans : (a b c : Row) → le a b ≡ true → le b c ≡ true → le a c ≡ true) where
    insert-All :
        (P : Row → Type 0) (x : Row) (ys : List Row) → P x → All P ys → All P (insert le x ys)
    insert-All P x [] h k = (h, tt)
    insert-All P x (y ∷ ys) h k = elim (Bool-cases (le x y)) [
      | inl first ↦ rw first (h, k)
      | inr later ↦ rw later (k.0, insert-All P x ys h k.1)
    ]

    insert-IsSorted : (x : Row) (ys : List Row) → IsSorted le ys → IsSorted le (insert le x ys)
    insert-IsSorted x [] h = (tt, tt)
    insert-IsSorted x (y ∷ ys) h = elim (Bool-cases (le x y)) [
      | inl first ↦ rw first ((first, All-map (λ z e. trans x y z first e) ys h.0), (h.0, h.1))
      | inr later ↦ rw later (
        insert-All (λ z. le y z ≡ true) x ys (ground (arith, total x y, later)) h.0,
        insert-IsSorted x ys h.1,
      )
    ]

    pub sort-IsSorted : (t : List Row) → IsSorted le (sort le t)
    sort-IsSorted [] = tt
    sort-IsSorted (x ∷ xs) = insert-IsSorted x (sort le xs) (sort-IsSorted xs)

abbrev pub list_client : PrismaClient
list_client = record {
  find_first = find;
  find_first-Finds = find-Finds;
  order_by = sort;
  order_by-perm = sort-perm;
  order_by-IsSorted = sort-IsSorted;
  create = λ clash r t. if any (clash r) t then (throw plain_error, t) else (ok tt, t ++ r ∷ []);
  create-eq = λ clash r t. refl;
  create_many = λ clash r t. if any (clash r) t then (t, 0) else (t ++ r ∷ [], 1);
  create_many-eq = λ clash r t. refl;
  update = λ w f t. if any w t then (ok tt, patch w f t) else (throw plain_error, t);
  update-eq = λ w f t. refl;
  upsert = λ clash met w f r t.
      if any w t
      then (ok tt, patch w f t)
      else (if any (clash r) t || not (met r)
          then (throw plain_error, t)
          else (ok tt, t ++ r ∷ []));
  upsert-eq = λ clash met w f r t. refl;
  update_many = λ w f t. (patch w f t, count w t);
  update_many-eq = λ w f t. refl;
  delete_many = λ w t. (keep (λ r. not (w r)) t, count w t);
  delete_many-eq = λ w t. refl;
  count_rows = count;
  count_rows-eq = λ w t. refl;
  transaction = λ m s. settle s (m s);
  transaction-eq = λ m s. refl;
}
