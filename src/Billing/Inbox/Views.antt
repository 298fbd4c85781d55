-- ===== src/Billing/Inbox/Views.antt =====
-- The abstract view of the inbox: the state of one event of one provider.
use nestjs_modular_monolith.Common.{
  ℕ, ◌≡◌, refl, sym, inl, inr, Bool, true, false, ◌&&◌, Bool-cases, &&-eq-true, Option, none, some,
  List, [], ◌∷◌, ◌++◌, arith, if◌then◌else◌, patch, any, count, All,
}
use nestjs_modular_monolith.Prisma.Rows.{IsUnique}
use nestjs_modular_monolith.Text.{Text, text_eq, text_eq_comm, eq_of_text_eq}
use nestjs_modular_monolith.Billing.Inbox.{InboxEvent, is_event, same_inbox_event}

-- `claimed` has the token, and the time of the claim.
pub data InboxState : Type 0 where
  absent failed processed : InboxState
  claimed : Option ℕ → Option ℕ → InboxState

abbrev pub state : Option ℕ → Option ℕ → Option ℕ → Option ℕ → InboxState
state (some _) failed_at token at = processed
state none (some _) token at = failed
state none none token at = claimed token at

abbrev pub classify : InboxEvent → InboxState
classify r = state r.processed_at r.failed_at r.processing_token r.processing_at

abbrev pub state_of : Text → Text → List InboxEvent → InboxState
state_of provider event_id [] = absent
state_of provider event_id (r ∷ rows) =
    if is_event provider event_id r then classify r else state_of provider event_id rows

-- A row is processed, failed or claimed; only a claimed row has a token, and it has the time too.
abbrev pub is_consistent : Option ℕ → Option ℕ → Option ℕ → Option ℕ → Bool
is_consistent (some _) none none none = true
is_consistent none (some _) none none = true
is_consistent none none (some _) (some _) = true
is_consistent _ _ _ _ = false

abbrev pub IsConsistentRow : InboxEvent → Type 0
IsConsistentRow r =
    is_consistent r.processed_at r.failed_at r.processing_token r.processing_at ≡ true

abbrev pub IsConsistent : List InboxEvent → Type 0
IsConsistent rows = IsUnique same_inbox_event rows × All IsConsistentRow rows

abbrev pub is_absent : InboxState → Bool
is_absent absent = true
is_absent _ = false

module _ (p e : Text) where
  pub no_event :
      (rows : List InboxEvent) → any (is_event p e) rows ≡ false → state_of p e rows ≡ absent
  no_event [] h = refl
  no_event (r ∷ rows) h = ground (arith, no_event rows)

  state-present : (a b c d : Option ℕ) → is_absent (state a b c d) ≡ false
  state-present (some a) b c d = refl
  state-present none (some b) c d = refl
  state-present none none c d = refl

  pub some_event :
      (rows : List InboxEvent)
      → any (is_event p e) rows ≡ true
      → is_absent (state_of p e rows) ≡ false
  some_event [] h = cc
  some_event (r ∷ rows) h = elim (Bool-cases (is_event p e r)) [
    | inl hit ↦ rw hit (state-present r.processed_at r.failed_at r.processing_token r.processing_at)
    | inr miss ↦ rw miss (some_event rows (rw miss at h))
  ]

  pub state_of-snoc_new :
      (rows : List InboxEvent) (r : InboxEvent)
      → any (is_event p e) rows ≡ false
      → is_event p e r ≡ true
      → state_of p e (rows ++ r ∷ []) ≡ classify r
  state_of-snoc_new [] r h hit = rw hit refl
  state_of-snoc_new (x ∷ rows) r h hit = elim (Bool-cases (is_event p e x)) [
    | inl here ↦ cc
    | inr miss ↦ rw miss (state_of-snoc_new rows r (rw miss at h) hit)
  ]

  pub state_of-snoc_other :
      (rows : List InboxEvent) (r : InboxEvent)
      → is_event p e r ≡ false
      → state_of p e (rows ++ r ∷ []) ≡ state_of p e rows
  state_of-snoc_other [] r miss = rw miss refl
  state_of-snoc_other (x ∷ rows) r miss = elim (Bool-cases (is_event p e x)) [
    | inl here ↦ rw here refl
    | inr there ↦ rw there (state_of-snoc_other rows r miss)
  ]

  -- Whether a row of the event is one of another.
  keys_apart :
      (r : InboxEvent) (q f : Text)
      → is_event p e r ≡ true
      → is_event q f r ≡ text_eq q p && text_eq f e
  keys_apart r q f here =
      let (hp, he) = &&-eq-true (text_eq r.provider p) (text_eq r.provider_event_id e) here in
      rw
        (
          eq_of_text_eq r.provider p hp,
          eq_of_text_eq r.provider_event_id e he,
          text_eq_comm p q,
          text_eq_comm e f,
        )
        refl

  -- An update of an event in certain states takes it to the target, and leaves the others.
  pub state_of-update :
      (q f : Text) (c : InboxEvent → Bool) (change : InboxEvent → InboxEvent)
      (d : InboxState → Bool) (target : InboxState)
      → d absent ≡ false
      → ((r : InboxEvent) → is_event p e (change r) ≡ is_event p e r)
      → ((r : InboxEvent) → IsConsistentRow r → c r ≡ d (classify r))
      → ((r : InboxEvent) → d (classify r) ≡ true → classify (change r) ≡ target)
      → (rows : List InboxEvent) → All IsConsistentRow rows
      → state_of p e (patch (λ r. is_event q f r && c r) change rows) ≡ (
          if (text_eq q p && text_eq f e) && d (state_of p e rows)
          then target
          else state_of p e rows)
  state_of-update q f c change d target empty keeps same hits [] h =
      elim (Bool-cases (text_eq q p && text_eq f e)) [
        | inl about ↦ rw (about, empty) refl
        | inr apart ↦ rw apart refl
      ]
  state_of-update q f c change d target empty keeps same hits (r ∷ rows) h =
      let rest = state_of-update q f c change d target empty keeps same hits rows h.1 in
      elim (Bool-cases (is_event p e r)) [
        | inl here ↦
            let about = keys_apart r q f here in
            let due = same r h.0 in
            elim (Bool-cases ((text_eq q p && text_eq f e) && d (classify r))) [
              | inl hit ↦ rw (about, due, here, hit, keeps r, here) (hits r (ground arith))
              | inr miss ↦ rw (about, due, here, miss, here) refl
            ]
        | inr there ↦ elim (Bool-cases (is_event q f r && c r)) [
          | inl hit ↦ rw (hit, keeps r, there) rest
          | inr miss ↦ rw (miss, there) rest
        ]
      ]

  -- What the unique index compares, of an event.
  same_key :
      (r x : InboxEvent)
      → is_event p e r ≡ true
      → is_event p e x ≡ is_event x.provider x.provider_event_id r
  same_key r x here =
      let (hp, he) = &&-eq-true (text_eq r.provider p) (text_eq r.provider_event_id e) here in
      rw
        (
          sym (eq_of_text_eq r.provider p hp),
          sym (eq_of_text_eq r.provider_event_id e he),
          text_eq_comm x.provider r.provider,
          text_eq_comm x.provider_event_id r.provider_event_id,
        )
        refl

  pub others_apart :
      (r : InboxEvent) (rows : List InboxEvent)
      → is_event p e r ≡ true
      → any (same_inbox_event r) rows ≡ false
      → any (is_event p e) rows ≡ false
  others_apart r [] here h = refl
  others_apart r (x ∷ rows) here h = ground (arith, same_key r x here, others_apart r rows here)

  count_none :
      (c : InboxEvent → Bool) (rows : List InboxEvent)
      → any (is_event p e) rows ≡ false
      → count (λ r. is_event p e r && c r) rows ≡ 0
  count_none c [] h = refl
  count_none c (x ∷ rows) h = ground (arith, count_none c rows)

  -- A query for the event that also asks for its state meets one row, or none.
  pub count-state_of :
      (c : InboxEvent → Bool) (d : InboxState → Bool)
      → d absent ≡ false
      → ((r : InboxEvent) → c r ≡ d (classify r))
      → (rows : List InboxEvent) → IsUnique same_inbox_event rows
      → count (λ r. is_event p e r && c r) rows ≡ (if d (state_of p e rows) then 1 else 0)
  count-state_of c d empty same [] u = rw empty refl
  count-state_of c d empty same (r ∷ rows) u = elim (Bool-cases (is_event p e r)) [
    | inl here ↦
        let rest = count_none c rows (others_apart r rows here u.0) in rw (here, same r, rest) refl
    | inr there ↦ rw there (count-state_of c d empty same rows u.1)
  ]
