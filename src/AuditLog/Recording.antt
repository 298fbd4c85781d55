-- ===== src/AuditLog/Recording.antt =====
-- That every event is recorded once.
use nestjs_modular_monolith.Common.{
  ℕ, ◌≡◌, refl, sym, subst, ◌∙◌, inl, inr, Bool, true, false, Bool-cases, List, [], ◌∷◌, ◌++◌,
  arith, ◌==◌, ==_refl, if◌then◌else◌, any, count, count-append,
}
use nestjs_modular_monolith.Errors.{ok}
use nestjs_modular_monolith.Prisma.{PrismaClient}
use nestjs_modular_monolith.Prisma.Rows.{IsUnique}
use nestjs_modular_monolith.Contracts.Events.{IntegrationEvent}
use nestjs_modular_monolith.AuditLog.{
  AuditEntry, same_entry, handle, record_entry, record_if_absent, create_audit_entry, entry_input,
}

abbrev pub is_of : ℕ → AuditEntry → Bool
is_of event_id r = event_id == r.id

count_missing :
    (i : ℕ) (rows : List AuditEntry) → any (is_of i) rows ≡ false → count (is_of i) rows ≡ 0
count_missing i [] h = refl
count_missing i (r ∷ rows) h = ground (arith, count_missing i rows)

count_unique :
    (i : ℕ) (rows : List AuditEntry)
    → IsUnique same_entry rows
    → any (is_of i) rows ≡ true
    → count (is_of i) rows ≡ 1
count_unique i [] u h = cc
count_unique i (r ∷ rows) u h = elim (Bool-cases (is_of i r)) [
  | inl hit ↦
      let same : i ≡ r.id = ground arith in
      let others = count_missing i rows (subst (λ j. any (is_of j) rows ≡ false) (sym same) u.0) in
      rw hit (omega (arith, others))
  | inr miss ↦ rw miss (count_unique i rows u.1 (rw miss at h))
]

any-snoc :
    (i : ℕ) (rows : List AuditEntry) (r : AuditEntry)
    → is_of i r ≡ true
    → any (is_of i) (rows ++ r ∷ []) ≡ true
any-snoc i [] r h = rw h refl
any-snoc i (x ∷ rows) r h = ground (arith, any-snoc i rows r h)

module _ (prisma : PrismaClient) (parses : IntegrationEvent → Bool) where
  -- What delivering an event does to the log.
  handle-eq :
      (e : IntegrationEvent) (new_id now : ℕ) (rows : List AuditEntry)
      → parses e ≡ true
      → handle prisma parses e new_id now rows ≡ (
        ok tt,
        if any (is_of e.event_id) rows
            then rows
            else rows ++ create_audit_entry (entry_input e) new_id now ∷ [],
      )
  unfolding handle record_entry record_if_absent create_audit_entry entry_input
  handle-eq e new_id now rows good =
      let created =
        prisma.create_many-eq same_entry (create_audit_entry (entry_input e) new_id now) rows in
      elim (Bool-cases (any (is_of e.event_id) rows)) [
        | inl known ↦ rw (good, created, known) refl
        | inr new ↦ rw (good, created, new) refl
      ]

  -- An event is recorded once, however often it is delivered: after a delivery of an event that fits its
  -- contract, the log has one entry under the identifier of the event, and a later delivery changes
  -- nothing, in a log with one row for each identifier.
  pub handle-handle_audit :
      (e : IntegrationEvent) (new_id later_id now later : ℕ) (rows : List AuditEntry)
      → parses e ≡ true
      → IsUnique same_entry rows
      → (count (is_of e.event_id) (handle prisma parses e new_id now rows).1 ≡ 1)
        × (handle prisma parses e later_id later (handle prisma parses e new_id now rows).1
            ≡ handle prisma parses e new_id now rows)
  unfolding create_audit_entry entry_input
  handle-handle_audit e new_id later_id now later rows good u =
      let first = handle-eq e new_id now rows good in
      let entry = create_audit_entry (entry_input e) new_id now in
      elim (Bool-cases (any (is_of e.event_id) rows)) [
        | inl known ↦
            let second = handle-eq e later_id later rows good in
            rw (first, known) (count_unique e.event_id rows u known, second ∙ (rw known refl))
        | inr new ↦
            let second = handle-eq e later_id later (rows ++ entry ∷ []) good in
            let present = any-snoc e.event_id rows entry (==_refl e.event_id) in
            let counted =
              count-append (is_of e.event_id) rows (entry ∷ [])
              ∙ (rw (count_missing e.event_id rows new, ==_refl e.event_id) (omega arith)) in
            rw (first, new) (counted, second ∙ (rw present refl))
      ]
