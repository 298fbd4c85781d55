-- ===== src/Prisma/Rows.antt =====
-- Facts about tables as lists of rows: membership and uniqueness under updates, filters and sorting.
use mathlib.Core.List.{Permᴰ}
use nestjs_modular_monolith.Common.{
  ℕ, zero, suc, ◌≡◌, refl, sym, ◌∙◌, subst, ap, fun_ext, ◌⊎◌, inl, inr, Bool, true, false,
  Bool-cases, List, [], ◌∷◌, ◌++◌, Memᴰ, arith, take, count, length, any, keep, patch, map, All,
  All-map, All-mem,
}

module _ {Row : Type 0} where
  -- No two rows collide on a unique index.
  abbrev pub IsUnique : (Row → Row → Bool) → List Row → Type 0
  IsUnique clash [] = Unit
  IsUnique clash (r ∷ t) = (any (clash r) t ≡ false) × IsUnique clash t

  pub All-perm : (P : Row → Type 0) {t u : List Row} → Permᴰ t u → All P u → All P t
  All-perm P Permᴰ.nil h = tt
  All-perm P (Permᴰ.cons e p) h = (subst P (sym e) h.0, All-perm P p h.1)
  All-perm P (Permᴰ.swap e f) h = (subst P (sym e) h.1.0, (subst P (sym f) h.0, h.1.1))
  All-perm P (Permᴰ.trans p q) h = All-perm P p (All-perm P q h)

  pub All-take : (P : Row → Type 0) (n : ℕ) (t : List Row) → All P t → All P (take n t)
  All-take P zero t h = tt
  All-take P (suc n) [] h = tt
  All-take P (suc n) (r ∷ t) h = (h.0, All-take P n t h.1)

  -- A query answers rows of the table that pass its test.
  pub All-keep :
      (P : Row → Type 0) (w : Row → Bool) (t : List Row)
      → All P t
      → All (λ r. P r × (w r ≡ true)) (keep w t)
  All-keep P w [] h = tt
  All-keep P w (r ∷ t) h = elim (Bool-cases (w r)) [
    | inl hit ↦ rw hit ((h.0, hit), All-keep P w t h.1)
    | inr miss ↦ rw miss (All-keep P w t h.1)
  ]

  pub All-self : (t : List Row) → All (λ r. Memᴰ r t) t
  All-self [] = tt
  All-self (r ∷ t) = (Memᴰ.head refl, All-map (λ x m. Memᴰ.tail m) t (All-self t))

  pub any-false : (w : Row → Bool) (t : List Row) → any w t ≡ false → All (λ r. w r ≡ false) t
  any-false w [] h = tt
  any-false w (r ∷ t) h = (ground arith, any-false w t (ground arith))

  pub any_of_All : (w : Row → Bool) (t : List Row) → All (λ r. w r ≡ false) t → any w t ≡ false
  any_of_All w [] h = refl
  any_of_All w (r ∷ t) h = rw h.0 (any_of_All w t h.1)

  pub mem-keep :
      (w : Row → Bool) (t : List Row) {r : Row} → Memᴰ r t → w r ≡ true → Memᴰ r (keep w t)
  mem-keep w [] m h = elim m [ ]
  mem-keep w (x ∷ t) (Memᴰ.head e) h = rw (subst (λ y. w y ≡ true) e h) (Memᴰ.head e)
  mem-keep w (x ∷ t) (Memᴰ.tail m) h = elim (Bool-cases (w x)) [
    | inl hit ↦ rw hit (Memᴰ.tail (mem-keep w t m h))
    | inr miss ↦ rw miss (mem-keep w t m h)
  ]

  pub mem-patch :
      (w : Row → Bool) (f : Row → Row) (t : List Row) {r : Row}
      → Memᴰ r t
      → w r ≡ false
      → Memᴰ r (patch w f t)
  mem-patch w f [] m h = elim m [ ]
  mem-patch w f (x ∷ t) (Memᴰ.head e) h = rw (subst (λ y. w y ≡ false) e h) (Memᴰ.head e)
  mem-patch w f (x ∷ t) (Memᴰ.tail m) h = Memᴰ.tail (mem-patch w f t m h)

  pub mem-patch_hit :
      (w : Row → Bool) (f : Row → Row) (t : List Row) {r : Row}
      → Memᴰ r t
      → w r ≡ true
      → Memᴰ (f r) (patch w f t)
  mem-patch_hit w f [] m h = elim m [ ]
  mem-patch_hit w f (x ∷ t) (Memᴰ.head e) h = rw (subst (λ y. w y ≡ true) e h) (Memᴰ.head (ap f e))
  mem-patch_hit w f (x ∷ t) (Memᴰ.tail m) h = Memᴰ.tail (mem-patch_hit w f t m h)

  -- A row that an update met or passed over is still there, changed or not.
  pub mem-patch_either :
      (w : Row → Bool) (f : Row → Row) (t : List Row) {r : Row}
      → Memᴰ r t
      → Memᴰ r (patch w f t) ⊎ Memᴰ (f r) (patch w f t)
  mem-patch_either w f t {r} m = elim (Bool-cases (w r)) [
    | inl hit ↦ inr (mem-patch_hit w f t m hit)
    | inr miss ↦ inl (mem-patch w f t m miss)
  ]

  -- An update that meets no row changes nothing.
  pub patch_none : (w : Row → Bool) (f : Row → Row) (t : List Row) → count w t ≡ 0 → patch w f t ≡ t
  patch_none w f [] h = refl
  patch_none w f (r ∷ t) h = ground (arith, patch_none w f t)

  -- Two rows of a table are one row, or do not collide.
  pub unique_apart :
      (clash : Row → Row → Bool)
      → ((a b : Row) → clash a b ≡ clash b a)
      → (t : List Row) {a b : Row} → IsUnique clash t
      → Memᴰ a t
      → Memᴰ b t
      → (a ≡ b) ⊎ (clash a b ≡ false)
  unique_apart clash swap [] u m n = elim m [ ]
  unique_apart clash swap (x ∷ t) u (Memᴰ.head e) (Memᴰ.head f) = inl (e ∙ sym f)
  unique_apart clash swap (x ∷ t) {b} u (Memᴰ.head e) (Memᴰ.tail n) = inr (
      subst (λ y. clash y b ≡ false) (sym e)
        (All-mem (λ y. clash x y ≡ false) t (any-false (clash x) t u.0) n))
  unique_apart clash swap (x ∷ t) {a} {b} u (Memᴰ.tail m) (Memᴰ.head f) = inr (
      swap a b
      ∙ subst (λ y. clash y a ≡ false) (sym f)
          (All-mem (λ y. clash x y ≡ false) t (any-false (clash x) t u.0) m))
  unique_apart clash swap (x ∷ t) u (Memᴰ.tail m) (Memᴰ.tail n) = unique_apart clash swap t u.1 m n

  any-perm : (w : Row → Bool) {t u : List Row} → Permᴰ t u → any w u ≡ false → any w t ≡ false
  any-perm w {t} {u} p h = any_of_All w t (All-perm (λ r. w r ≡ false) p (any-false w u h))

  any-keep : (w v : Row → Bool) (t : List Row) → any w t ≡ false → any w (keep v t) ≡ false
  any-keep w v [] h = refl
  any-keep w v (r ∷ t) h = ground (arith, any-keep w v t)

  any-take : (w : Row → Bool) (n : ℕ) (t : List Row) → any w t ≡ false → any w (take n t) ≡ false
  any-take w zero t h = refl
  any-take w (suc n) [] h = refl
  any-take w (suc n) (r ∷ t) h = ground (arith, any-take w n t)

  pub IsUnique-keep :
      (clash : Row → Row → Bool) (v : Row → Bool) (t : List Row)
      → IsUnique clash t
      → IsUnique clash (keep v t)
  IsUnique-keep clash v [] u = tt
  IsUnique-keep clash v (r ∷ t) u = elim (Bool-cases (v r)) [
    | inl hit ↦ rw hit (any-keep (clash r) v t u.0, IsUnique-keep clash v t u.1)
    | inr miss ↦ rw miss (IsUnique-keep clash v t u.1)
  ]

  pub IsUnique-take :
      (clash : Row → Row → Bool) (n : ℕ) (t : List Row)
      → IsUnique clash t
      → IsUnique clash (take n t)
  IsUnique-take clash zero t u = tt
  IsUnique-take clash (suc n) [] u = tt
  IsUnique-take clash (suc n) (r ∷ t) u = (any-take (clash r) n t u.0, IsUnique-take clash n t u.1)

  pub IsUnique-perm :
      (clash : Row → Row → Bool)
      → ((a b : Row) → clash a b ≡ clash b a)
      → {t u : List Row} → Permᴰ t u
      → IsUnique clash u
      → IsUnique clash t
  IsUnique-perm clash swap Permᴰ.nil h = tt
  IsUnique-perm clash swap (Permᴰ.cons {l₁ = t} e p) h = (
    subst (λ y. any (clash y) t ≡ false) (sym e) (any-perm _ p h.0),
    IsUnique-perm clash swap p h.1,
  )
  IsUnique-perm clash swap (Permᴰ.swap {a} {b} {a'} {b'} {l} e f) h = (
    subst (λ y. any (clash y) (b ∷ l) ≡ false) (sym e)
        (subst (λ z. any (clash b') (z ∷ l) ≡ false) (sym f) (ground (arith, swap a' b'))),
    (subst (λ y. any (clash y) l ≡ false) (sym f) (ground arith), h.1.1),
  )
  IsUnique-perm clash swap (Permᴰ.trans p q) h =
      IsUnique-perm clash swap p (IsUnique-perm clash swap q h)

  -- `createMany` and `create` keep a table unique.
  pub IsUnique-snoc :
      (clash : Row → Row → Bool)
      → ((a b : Row) → clash a b ≡ clash b a)
      → (r : Row) (t : List Row) → any (clash r) t ≡ false
      → IsUnique clash t
      → IsUnique clash (t ++ r ∷ [])
  IsUnique-snoc clash swap r [] h u = (refl, tt)
  IsUnique-snoc clash swap r (x ∷ t) h u = (
    any_snoc (clash x) t (ground arith) (ground (arith, swap x r)),
    IsUnique-snoc clash swap r t (ground arith) u.1,
  )
    where
      any_snoc :
          (w : Row → Bool) (t : List Row)
          → any w t ≡ false
          → w r ≡ false
          → any w (t ++ r ∷ []) ≡ false
      any_snoc w [] h e = rw e
      any_snoc w (y ∷ t) h e = ground (arith, any_snoc w t)

  pub length-perm : {t u : List Row} → Permᴰ t u → length t ≡ length u
  length-perm Permᴰ.nil = refl
  length-perm (Permᴰ.cons e p) = ap suc (length-perm p)
  length-perm (Permᴰ.swap e f) = refl
  length-perm (Permᴰ.trans p q) = length-perm p ∙ length-perm q

  -- A change of the rows that no index sees.
  pub All-image :
      (P : Row → Type 0) (f : Row → Row) (t : List Row) → All (λ r. P (f r)) t → All P (map f t)
  All-image P f [] h = tt
  All-image P f (r ∷ t) h = (h.0, All-image P f t h.1)

  any-image :
      (clash : Row → Row → Bool) (f : Row → Row) (r : Row) (t : List Row)
      → ((a b : Row) → clash (f a) (f b) ≡ clash a b)
      → any (clash (f r)) (map f t) ≡ any (clash r) t
  any-image clash f r [] h = refl
  any-image clash f r (x ∷ t) h = ground (arith, h r x, any-image clash f r t h)

  pub IsUnique-image :
      (clash : Row → Row → Bool) (f : Row → Row) (t : List Row)
      → ((a b : Row) → clash (f a) (f b) ≡ clash a b)
      → IsUnique clash t
      → IsUnique clash (map f t)
  IsUnique-image clash f [] h u = tt
  IsUnique-image clash f (r ∷ t) h u =
      (any-image clash f r t h ∙ u.0, IsUnique-image clash f t h u.1)

  count_none : (w : Row → Bool) (t : List Row) → All (λ r. w r ≡ false) t → count w t ≡ 0
  count_none w [] h = refl
  count_none w (r ∷ t) h = ground (arith, h.0, count_none w t h.1)

  -- A query that fixes a unique key meets one row.
  pub count_one :
      (clash : Row → Row → Bool) (w : Row → Bool)
      → ((a b : Row) → w a ≡ true → w b ≡ true → clash a b ≡ true)
      → (t : List Row) {a : Row} → IsUnique clash t
      → Memᴰ a t
      → w a ≡ true
      → count w t ≡ 1
  count_one clash w key [] u m h = elim m [ ]
  count_one clash w key (x ∷ t) u (Memᴰ.head e) h =
      let hit : w x ≡ true = subst (λ y. w y ≡ true) e h in
      let rest : count w t ≡ 0 =
        count_none w t
          (All-map (λ r apart. ground (arith, key x r hit)) t (any-false (clash x) t u.0)) in
      rw (hit, rest) refl
  count_one clash w key (x ∷ t) {a} u (Memᴰ.tail m) h =
      let apart : clash x a ≡ false =
        All-mem (λ y. clash x y ≡ false) t (any-false (clash x) t u.0) m in
      let miss : w x ≡ false = ground (arith, λ (p : w x ≡ true). key x a p h) in
      rw (miss, count_one clash w key t u.1 m h) refl

  any-patch :
      (clash : Row → Row → Bool) (w : Row → Bool) (f : Row → Row) (r : Row) (t : List Row)
      → ((a b : Row) → clash a (f b) ≡ clash a b)
      → any (clash r) (patch w f t) ≡ any (clash r) t
  any-patch clash w f r [] h = refl
  any-patch clash w f r (x ∷ t) h = ground (arith, h r x, any-patch clash w f r t h)

  pub IsUnique-patch :
      (clash : Row → Row → Bool) (w : Row → Bool) (f : Row → Row) (t : List Row)
      → ((a b : Row) → clash a (f b) ≡ clash a b)
      → ((a b : Row) → clash (f a) b ≡ clash a b)
      → IsUnique clash t
      → IsUnique clash (patch w f t)
  IsUnique-patch clash w f [] h g u = tt
  IsUnique-patch clash w f (r ∷ t) h g u = elim (Bool-cases (w r)) [
    | inl hit ↦ rw hit (
      any-patch clash w f (f r) t h ∙ ap (λ (c : Row → Bool). any c t) (fun_ext (λ b. g r b)) ∙ u.0,
      IsUnique-patch clash w f t h g u.1,
    )
    | inr miss ↦ rw miss (any-patch clash w f r t h ∙ u.0, IsUnique-patch clash w f t h g u.1)
  ]

  -- What an update keeps of each row that it meets, it keeps of all.
  pub All-patch :
      (P : Row → Type 0) (w : Row → Bool) (f : Row → Row)
      → ((r : Row) → w r ≡ true → P r → P (f r))
      → (t : List Row) → All P t
      → All P (patch w f t)
  All-patch P w f keeps [] h = tt
  All-patch P w f keeps (r ∷ t) h = elim (Bool-cases (w r)) [
    | inl hit ↦ rw hit (keeps r hit h.0, All-patch P w f keeps t h.1)
    | inr miss ↦ rw miss (h.0, All-patch P w f keeps t h.1)
  ]
