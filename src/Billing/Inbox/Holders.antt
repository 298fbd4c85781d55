-- ===== src/Billing/Inbox/Holders.antt =====
-- `findClaimed` finds an event exactly where the state machine says that the token holds it.
use nestjs_modular_monolith.Common.{
  ℕ, ◌≡◌, refl, sym, ◌∙◌, subst, inl, inr, Bool, true, false, not, ◌&&◌, Bool-cases, List, [], ◌∷◌,
  Memᴰ, arith, is_null, All, All-mem,
}
use nestjs_modular_monolith.Prisma.{PrismaClient}
use nestjs_modular_monolith.Prisma.Rows.{IsUnique, any-false}
use nestjs_modular_monolith.Text.{Text}
use nestjs_modular_monolith.Billing.Inbox.{
  InboxEvent, is_event, same_inbox_event, is_claimed_by, find_claimed,
}
use nestjs_modular_monolith.Billing.Inbox.Views.{
  classify, state_of, IsConsistent, IsConsistentRow, others_apart,
}
use nestjs_modular_monolith.Billing.Inbox.Machine.{is_held, held_open}

module _ (p e : Text) where
  mem-state_of :
      (rows : List InboxEvent) {r : InboxEvent}
      → IsUnique same_inbox_event rows
      → Memᴰ r rows
      → is_event p e r ≡ true
      → state_of p e rows ≡ classify r
  mem-state_of [] u m here = elim m [ ]
  mem-state_of (x ∷ rows) u (Memᴰ.head same) here =
      rw (subst (λ y. is_event p e y ≡ true) same here) (rw same refl)
  mem-state_of (x ∷ rows) {r} u (Memᴰ.tail m) here = elim (Bool-cases (is_event p e x)) [
    | inl hit ↦
        let apart = any-false (is_event p e) rows (others_apart p e x rows hit u.0) in
        absurd (clash (sym here ∙ All-mem (λ y. is_event p e y ≡ false) rows apart m))
    | inr miss ↦ rw miss (mem-state_of rows u.1 m here)
  ]
    where
      clash : true ≡ false → ⊥
      clash h = cc

  held_row :
      (token : ℕ) (r : InboxEvent)
      → IsConsistentRow r
      → is_event p e r ≡ true
      → is_claimed_by p e token r ≡ is_held token (classify r)
  held_row token r h here =
      rw (here, held_open token r.processed_at r.failed_at r.processing_token r.processing_at h)
        refl

  held_nowhere :
      (token : ℕ) (rows : List InboxEvent)
      → All IsConsistentRow rows
      → All (λ r. is_claimed_by p e token r ≡ false) rows
      → is_held token (state_of p e rows) ≡ false
  held_nowhere token [] h none_held = refl
  held_nowhere token (r ∷ rows) h none_held = elim (Bool-cases (is_event p e r)) [
    | inl here ↦ rw here (sym (held_row token r h.0 here) ∙ none_held.0)
    | inr there ↦ rw there (held_nowhere token rows h.1 none_held.1)
  ]

  first_true : (a b : Bool) → a && b ≡ true → a ≡ true
  first_true a b h = ground arith

  pub find_claimed-is_held :
      (prisma : PrismaClient) (token : ℕ) (rows : List InboxEvent)
      → IsConsistent rows
      → is_null (find_claimed prisma p e token rows) ≡ not (is_held token (state_of p e rows))
  unfolding find_claimed
  find_claimed-is_held prisma token rows h =
      elim (prisma.find_first-Finds (is_claimed_by p e token) rows) [
        | inl (missed, apart) ↦ rw (missed, held_nowhere token rows h.1 apart) refl
        | inr (r, found, m, hit) ↦
            let here = first_true (is_event p e r) _ hit in
            let row = held_row token r (All-mem IsConsistentRow rows h.1 m) here in
            rw (found, mem-state_of rows h.0 m here, sym row, hit) refl
      ]
