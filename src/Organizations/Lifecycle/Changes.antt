-- ===== src/Organizations/Lifecycle/Changes.antt =====
-- Archiving and restoring: what changes, and what a repeated command does.
use nestjs_modular_monolith.Common.{
  ℕ, ◌≡◌, refl, sym, ap, ap₂, ℕ_discrete, ◌∙◌, inl, inr, Bool, true, false, not, ◌&&◌, Bool-cases,
  Option, none, some, List, [], ◌∷◌, ◌++◌, Memᴰ, arith, ◌==◌, if◌then◌else◌, is_null, patch, any,
  All, All-mem, All-map,
}
use nestjs_modular_monolith.Errors.{Result, ok, throw, plain_error}
use nestjs_modular_monolith.Text.{text_eq_comm}
use nestjs_modular_monolith.Prisma.{PrismaClient, settle}
use nestjs_modular_monolith.Prisma.Rows.{
  IsUnique, unique_apart, All-self, count_one, IsUnique-patch, mem-patch_hit,
}
use nestjs_modular_monolith.Contracts.Events.{
  IntegrationEventName, organization_archived, organization_restored, IntegrationEvent, Moment,
  create_integration_event,
}
use nestjs_modular_monolith.Contracts.Publisher.{same_event, publish_one, to_row}
use nestjs_modular_monolith.Organizations.Entities.{Organization, Tables}
use nestjs_modular_monolith.Organizations.Repository.{
  same_organization, find_membership_including_archived, is_in_other_state,
  find_by_id_including_archived, set_archived_at,
}
use nestjs_modular_monolith.Organizations.Lifecycle.{
  LifecycleInput, is_already_in_state, check_owner, require_owner, write_state, change_state,
  lifecycle_event, archive, restore,
}

same_organization_comm : (a b : Organization) → same_organization a b ≡ same_organization b a
same_organization_comm a b = ground (arith, text_eq_comm a.slug b.slug)

-- The row that a query by identifier finds.
pub find-organization :
    (prisma : PrismaClient) (id : ℕ) (organizations : List Organization) (o : Organization)
    → IsUnique same_organization organizations
    → Memᴰ o organizations
    → o.id ≡ id
    → find_by_id_including_archived prisma id organizations ≡ some o
unfolding find_by_id_including_archived
find-organization prisma id organizations o u m e =
    elim (prisma.find_first-Finds (λ (r : Organization). r.id == id) organizations) [
      | inl (_, none_match) ↦ absurd (
          ground (
            arith,
            All-mem (λ (r : Organization). (r.id == id) ≡ false) organizations none_match m,
          ))
      | inr (r, found, n, hit) ↦
          elim (unique_apart same_organization same_organization_comm organizations u n m) [
            | inl same ↦ found ∙ ap some same
            | inr apart ↦ absurd (ground arith)
          ]
    ]

abbrev pub set_archived : Option ℕ → Organization → Organization
set_archived archived_at r = record r { archived_at = archived_at }

-- The tables after a change that its event announces.
abbrev pub changed_tables : ℕ → Option ℕ → IntegrationEvent → Tables → Tables
changed_tables id archived_at event w = record w {
  organizations =
      patch (is_in_other_state id archived_at) (set_archived archived_at) w.organizations;
  outbox = w.outbox ++ to_row event ∷ [];
}

to_other :
    (id : ℕ) (archived_at : Option ℕ) (o : Organization)
    → o.id ≡ id
    → is_already_in_state o.archived_at archived_at ≡ false
    → is_in_other_state id archived_at o ≡ true
to_other id archived_at o e other = go archived_at o.archived_at other
  where
    go :
        (requested current : Option ℕ)
        → is_already_in_state current requested ≡ false
        → o.id == id && (if is_null requested then not (is_null current) else is_null current)
          ≡ true
    go none none h = ground arith
    go none (some _) h = ground arith
    go (some _) none h = ground arith
    go (some _) (some _) h = ground arith

pub only_organization :
    (id : ℕ) (organizations : List Organization) (o : Organization)
    → IsUnique same_organization organizations
    → Memᴰ o organizations
    → o.id ≡ id
    → All (λ r. r.id ≡ id → r ≡ o) organizations
only_organization id organizations o u m e = All-map one organizations (All-self organizations)
  where
    one : (r : Organization) → Memᴰ r organizations → r.id ≡ id → r ≡ o
    one r n f = elim (unique_apart same_organization same_organization_comm organizations u n m) [
      | inl same ↦ same
      | inr distinct ↦ absurd (ground arith)
    ]

restored :
    (id now : ℕ) (organizations : List Organization)
    → All (λ r. r.id ≡ id → r.archived_at ≡ none) organizations
    → patch
        (is_in_other_state id none)
        (set_archived none)
        (patch (is_in_other_state id (some now)) (set_archived (some now)) organizations)
      ≡ organizations
restored id now [] h = refl
restored id now (r ∷ organizations) h = elim (ℕ_discrete r.id id) [
  | yes same ↦
      rw
        (
          to_other id (some now) r same (rw (h.0 same) refl),
          to_other id none (set_archived (some now) r) same refl,
        )
        (ap₂ ◌∷◌ (ap (λ a. set_archived a r) (sym (h.0 same))) (restored id now organizations h.1))
  | no apart ↦ ground (arith, restored id now organizations h.1)
]

module _ (prisma : PrismaClient) (parses : IntegrationEvent → Bool) where
  write_state_lem :
      (input : LifecycleInput) (archived_at : Option ℕ) (event : IntegrationEvent) (w : Tables)
      (o : Organization)
      → IsUnique same_organization w.organizations
      → Memᴰ o w.organizations
      → o.id ≡ input.organization_id
      → any (same_event event) w.outbox ≡ false
      → settle w (write_state prisma parses input archived_at event (some o) w) ≡ (
          if is_already_in_state o.archived_at archived_at
          then (ok tt, w)
          else if parses event
          then (ok tt, changed_tables input.organization_id archived_at event w)
          else (throw plain_error, w))
  unfolding set_archived_at
  write_state_lem input archived_at event w o u m e fresh =
      elim (Bool-cases (is_already_in_state o.archived_at archived_at)) [
        | inl same ↦ rw same refl
        | inr other ↦
            rw
              (
                other,
                prisma.update_many-eq (is_in_other_state input.organization_id archived_at)
                    (set_archived archived_at) w.organizations,
                count_one same_organization (is_in_other_state input.organization_id archived_at)
                    (λ a b p q. ground arith) w.organizations u m
                    (to_other input.organization_id archived_at o e other),
                publish_one prisma parses event w.outbox fresh,
              )
              (elim (Bool-cases (parses event)) [ inl good ↦ rw good refl | inr bad ↦ rw bad refl ])
      ]

  -- What `changeState` does for an owner, on every branch. The organization exists, the table is
  -- unique on its indexes and the identifier of the event is new. It answers and changes nothing if
  -- the organization is in the requested state already. Otherwise it sets `archived_at` and appends one
  -- event, unless the contract refuses the event: then it throws and changes nothing.
  pub change_state_lem :
      (input : LifecycleInput) (archived_at : Option ℕ) (name : IntegrationEventName) (m : Moment)
      (w : Tables) (o : Organization)
      → require_owner prisma parses input w ≡ (ok tt, w)
      → IsUnique same_organization w.organizations
      → Memᴰ o w.organizations
      → o.id ≡ input.organization_id
      → any (same_event (lifecycle_event name input m)) w.outbox ≡ false
      → change_state prisma parses input archived_at name m w ≡ (
          if is_already_in_state o.archived_at archived_at
          then (ok tt, w)
          else if parses (lifecycle_event name input m)
          then (
            ok tt,
            changed_tables input.organization_id archived_at (lifecycle_event name input m) w,
          )
          else (throw plain_error, w))
  unfolding change_state
  change_state_lem input archived_at name m w o allowed u n e fresh =
      rw
        (
          allowed,
          prisma.transaction-eq
              (λ v.
                write_state prisma parses input archived_at (lifecycle_event name input m)
                  (find_by_id_including_archived prisma input.organization_id v.organizations) v)
              w,
          find-organization prisma input.organization_id w.organizations o u n e,
        )
        (write_state_lem input archived_at (lifecycle_event name input m) w o u n e fresh)

  -- The organization that a command left is in the requested state.
  settled :
      (input : LifecycleInput) (archived_at : Option ℕ) (name : IntegrationEventName) (m : Moment)
      (w : Tables) (o : Organization)
      → require_owner prisma parses input w ≡ (ok tt, w)
      → IsUnique same_organization w.organizations
      → Memᴰ o w.organizations
      → o.id ≡ input.organization_id
      → is_already_in_state o.archived_at archived_at ≡ true
      → change_state prisma parses input archived_at name m w ≡ (ok tt, w)
  unfolding change_state
  settled input archived_at name m w o allowed u n e already =
      rw
        (
          allowed,
          prisma.transaction-eq
              (λ v.
                write_state prisma parses input archived_at (lifecycle_event name input m)
                  (find_by_id_including_archived prisma input.organization_id v.organizations) v)
              w,
          find-organization prisma input.organization_id w.organizations o u n e,
          already,
        )
        refl

  IsUnique-after :
      (id : ℕ) (archived_at : Option ℕ) (organizations : List Organization)
      → IsUnique same_organization organizations
      → IsUnique same_organization
          (patch (is_in_other_state id archived_at) (set_archived archived_at) organizations)
  IsUnique-after id archived_at organizations =
      IsUnique-patch same_organization (is_in_other_state id archived_at) (set_archived archived_at)
        organizations (λ a b. refl) (λ a b. refl)

  owner_after :
      (input : LifecycleInput) (w v : Tables)
      → w.members ≡ v.members
      → require_owner prisma parses input w ≡ (ok tt, w)
      → require_owner prisma parses input v ≡ (ok tt, v)
  unfolding require_owner
  owner_after input w v same allowed =
      ap (λ r. (r, v))
        (ap
            (λ t.
              check_owner
                (find_membership_including_archived prisma input.organization_id input.actor_id t))
            (sym same)
          ∙ ap (λ (p : Result (Unit {0}) × Tables). p.0) allowed)

  written :
      (input : LifecycleInput) (archived_at : Option ℕ) (name : IntegrationEventName) (m : Moment)
      (w : Tables) (o : Organization)
      → require_owner prisma parses input w ≡ (ok tt, w)
      → IsUnique same_organization w.organizations
      → Memᴰ o w.organizations
      → o.id ≡ input.organization_id
      → any (same_event (lifecycle_event name input m)) w.outbox ≡ false
      → is_already_in_state o.archived_at archived_at ≡ false
      → parses (lifecycle_event name input m) ≡ true
      → change_state prisma parses input archived_at name m w
        ≡ (ok tt, changed_tables input.organization_id archived_at (lifecycle_event name input m) w)
  written input archived_at name m w o allowed u n e fresh other good =
      change_state_lem input archived_at name m w o allowed u n e fresh ∙ rw (other, good) refl

  -- An owner who archives a live organization and restores it has it back as it was, and both events
  -- are in the outbox in this order. Each has a new identifier and a contract that accepts it.
  pub restore-archive :
      (input : LifecycleInput) (m n : Moment) (w : Tables) (o : Organization)
      → require_owner prisma parses input w ≡ (ok tt, w)
      → IsUnique same_organization w.organizations
      → Memᴰ o w.organizations
      → o.id ≡ input.organization_id
      → o.archived_at ≡ none
      → parses (lifecycle_event organization_archived input m) ≡ true
      → parses (lifecycle_event organization_restored input n) ≡ true
      → any (same_event (lifecycle_event organization_archived input m)) w.outbox ≡ false
      → any
          (same_event (lifecycle_event organization_restored input n))
          (w.outbox ++ lifecycle_event organization_archived input m ∷ [])
        ≡ false
      → restore prisma parses input n (archive prisma parses input m w).1 ≡ (
        ok tt,
        record w {
          outbox =
              (w.outbox ++ lifecycle_event organization_archived input m ∷ [])
              ++ lifecycle_event organization_restored input n ∷ [];
        },
      )
  unfolding archive restore create_integration_event
  restore-archive input m n w o allowed u mem e live good1 good2 fresh1 fresh2 =
      let v =
        changed_tables input.organization_id (some m.now)
          (lifecycle_event organization_archived input m) w in
      let there : Memᴰ (set_archived (some m.now) o) v.organizations =
        mem-patch_hit (is_in_other_state input.organization_id (some m.now))
          (set_archived (some m.now)) w.organizations mem
          (to_other input.organization_id (some m.now) o e (rw live refl)) in
      ap
        (λ (p : Result (Unit {0}) × Tables).
          change_state prisma parses input none organization_restored n p.1)
        (written input (some m.now) organization_archived m w o allowed u mem e fresh1
          (rw live refl) good1)
      ∙ written input none organization_restored n v (set_archived (some m.now) o)
          (owner_after input w v refl allowed)
          (IsUnique-after input.organization_id (some m.now) w.organizations u) there e fresh2 refl
          good2
      ∙ ap
          (λ (t : List Organization). (
            ok tt,
            record v {
              organizations = t;
              outbox = v.outbox ++ lifecycle_event organization_restored input n ∷ [];
            },
          ))
          (restored input.organization_id m.now w.organizations (
            All-map (λ r same f. ap (λ (x : Organization). x.archived_at) (same f) ∙ live)
              w.organizations (only_organization input.organization_id w.organizations o u mem e)))

  -- A command that changed the state, repeated by the same owner with any other time, settles: it
  -- changes nothing, and no second event is written.
  pub change_state_repeat :
      (input : LifecycleInput) (requested again : Option ℕ) (name : IntegrationEventName)
      (m n : Moment) (w : Tables) (o : Organization)
      → require_owner prisma parses input w ≡ (ok tt, w)
      → IsUnique same_organization w.organizations
      → Memᴰ o w.organizations
      → o.id ≡ input.organization_id
      → is_already_in_state o.archived_at requested ≡ false
      → is_already_in_state requested again ≡ true
      → parses (lifecycle_event name input m) ≡ true
      → any (same_event (lifecycle_event name input m)) w.outbox ≡ false
      → change_state prisma parses input again name n
          (change_state prisma parses input requested name m w).1
        ≡ (ok tt, (change_state prisma parses input requested name m w).1)
  change_state_repeat input requested again name m n w o allowed u mem e other same good fresh =
      let v = changed_tables input.organization_id requested (lifecycle_event name input m) w in
      let there : Memᴰ (set_archived requested o) v.organizations =
        mem-patch_hit (is_in_other_state input.organization_id requested) (set_archived requested)
          w.organizations mem (to_other input.organization_id requested o e other) in
      let first = written input requested name m w o allowed u mem e fresh other good in
      rw first (
        settled input again name n v (set_archived requested o) (owner_after input w v refl allowed)
          (IsUnique-after input.organization_id requested w.organizations u) there e same)
