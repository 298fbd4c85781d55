-- ===== src/Users/Profiles.antt =====
-- What is stored of profiles, and that each user gets one.
use mathlib.Core.Option.{some-injective}
use nestjs_modular_monolith.Common.{
  ℕ, ◌≤◌, ◌≡◌, refl, sym, ◌∙◌, subst, inl, inr, ◌⊎◌, false, not, ◌||◌, Bool-cases, Option-cases,
  Option, none, some, List, [], ◌∷◌, ◌++◌, arith, ltb, ◌==◌, if◌then◌else◌, length, any, keep,
  patch, All, All-append, All-mem,
}
use nestjs_modular_monolith.Errors.{Result, ok, throw, Thrown, plain_error}
use nestjs_modular_monolith.Prisma.{PrismaClient}
use nestjs_modular_monolith.Prisma.Rows.{All-patch}
use nestjs_modular_monolith.Text.{Text, trim, text_eq}
use nestjs_modular_monolith.Users.{
  UserProfile, Tables, EnsureUserProfileInput, UpdateUserProfileInput, display_name_of,
  contains_control_character, create, rename, change_avatar, same_file, is_of_user, same_profile,
  set_saved, row_of, has_user, find_identity, find_by_user_id, save, delete_by_user_id, ensure,
  update, name_or_default, save_and_view, update_avatar, renamed_if, exists_usable_for_owner,
}

cases : {A : Type 0} (r : Result A) → ((a : A) × (r ≡ ok a)) ⊎ ((e : Thrown) × (r ≡ throw e))
cases (ok a) = inl (a, refl)
cases (throw e) = inr (e, refl)

abbrev pub IsDisplayName : Text → Type 0
IsDisplayName name =
    (2 ≤ length name) × (length name ≤ 80) × (contains_control_character name ≡ false)

abbrev pub AllNamed : Tables → Type 0
AllNamed w = All (λ (r : UserProfile). IsDisplayName r.display_name) w.profiles

ok_injective : {A : Type 0} {a b : A} → Path (Result A) (ok a) (ok b) → a ≡ b
ok_injective h = cc

refused : {A : Type 0} {a : A} {e : Thrown} → Path (Result A) (throw e) (ok a) → ⊥
refused h = cc

display_name_of-IsDisplayName :
    (raw : Text) {name : Text} → display_name_of raw ≡ ok name → IsDisplayName name
unfolding display_name_of
display_name_of-IsDisplayName raw {name} h =
    elim (Bool-cases (ltb (length (trim raw)) 2 || ltb 80 (length (trim raw)))) [
      | inl long ↦ absurd (refused (rw long at h))
      | inr fits ↦ elim (Bool-cases (contains_control_character (trim raw))) [
        | inl bad ↦ absurd (refused (rw (fits, bad) at h))
        | inr clean ↦
            subst IsDisplayName (ok_injective (rw (fits, clean) at h))
              (ground arith, ground arith, clean)
      ]
    ]

create-IsDisplayName :
    (user_id : ℕ) (raw : Text) (id now : ℕ) {p : UserProfile}
    → create user_id raw id now ≡ ok p
    → IsDisplayName p.display_name
unfolding create
create-IsDisplayName user_id raw id now {p} h = elim (cases (display_name_of raw)) [
  | inl (name, named) ↦
      subst (λ (q : UserProfile). IsDisplayName q.display_name) (ok_injective (rw named at h))
        (display_name_of-IsDisplayName raw named)
  | inr (e, failed) ↦ absurd (refused (rw failed at h))
]

rename-IsDisplayName :
    (raw : Text) (now : ℕ) (p : UserProfile) {q : UserProfile}
    → IsDisplayName p.display_name
    → rename raw now p ≡ ok q
    → IsDisplayName q.display_name
unfolding rename
rename-IsDisplayName raw now p {q} old h = elim (cases (display_name_of raw)) [
  | inr (e, failed) ↦ absurd (refused (rw failed at h))
  | inl (name, named) ↦ elim (Bool-cases (text_eq name p.display_name)) [
    | inl same ↦
        subst (λ (q : UserProfile). IsDisplayName q.display_name)
          (ok_injective (rw (named, same) at h)) old
    | inr other ↦
        subst (λ (q : UserProfile). IsDisplayName q.display_name)
          (ok_injective (rw (named, other) at h)) (display_name_of-IsDisplayName raw named)
  ]
]

change_avatar-IsDisplayName :
    (file_id : Option ℕ) (now : ℕ) (p : UserProfile)
    → IsDisplayName p.display_name
    → IsDisplayName (change_avatar file_id now p).display_name
unfolding change_avatar
change_avatar-IsDisplayName file_id now p h =
    elim (Bool-cases (same_file file_id p.avatar_file_id)) [
      | inl same ↦ rw same h
      | inr other ↦ rw other h
    ]

module _ (prisma : PrismaClient) where
  pub save-eq :
      (p : UserProfile) (w : Tables)
      → save prisma p w ≡ (
          if any (is_of_user p.user_id) w.profiles
          then (
            ok tt,
            record w { profiles = patch (is_of_user p.user_id) (set_saved p) w.profiles },
          )
          else if any (same_profile (row_of p)) w.profiles || not (has_user w.identities (row_of p))
          then (throw plain_error, w)
          else (ok tt, record w { profiles = w.profiles ++ row_of p ∷ [] }))
  unfolding save
  save-eq p w =
      let written =
        prisma.upsert-eq same_profile (has_user w.identities) (is_of_user p.user_id) (set_saved p)
          (row_of p) w.profiles in
      elim (Bool-cases (any (is_of_user p.user_id) w.profiles)) [
        | inl known ↦ rw (written, known) refl
        | inr new ↦
            elim (Bool-cases (
              any (same_profile (row_of p)) w.profiles || not (has_user w.identities (row_of p)))) [
                | inl bad ↦ rw (written, new, bad) refl
                | inr good ↦ rw (written, new, good) refl
              ]
      ]

  save-AllNamed :
      (p : UserProfile) (w : Tables)
      → IsDisplayName p.display_name
      → AllNamed w
      → AllNamed (save prisma p w).1
  save-AllNamed p w named h = elim (Bool-cases (any (is_of_user p.user_id) w.profiles)) [
    | inl known ↦
        rw (save-eq p w, known)
          (All-patch (λ (r : UserProfile). IsDisplayName r.display_name) (is_of_user p.user_id)
            (set_saved p) (λ r _ _. named) w.profiles h)
    | inr new ↦
        elim (Bool-cases
          (any (same_profile (row_of p)) w.profiles || not (has_user w.identities (row_of p)))) [
            | inl bad ↦ rw (save-eq p w, new, bad) h
            | inr good ↦
                rw (save-eq p w, new, good)
                  (All-append (λ (r : UserProfile). IsDisplayName r.display_name) w.profiles _ h
                    (named, tt))
          ]
  ]

  found-IsDisplayName :
      (user_id : ℕ) (w : Tables) {p : UserProfile}
      → AllNamed w
      → find_by_user_id prisma user_id w ≡ some p
      → IsDisplayName p.display_name
  unfolding find_by_user_id
  found-IsDisplayName user_id w {p} h e =
      elim (prisma.find_first-Finds (is_of_user user_id) w.profiles) [
        | inl (missed, _) ↦ absurd (nothing (sym missed ∙ e))
        | inr (r, found, m, _) ↦
            subst (λ (q : UserProfile). IsDisplayName q.display_name)
              (some-injective r p (sym found ∙ e))
              (All-mem (λ (q : UserProfile). IsDisplayName q.display_name) w.profiles h m)
      ]
    where
      nothing : {q : UserProfile} → Path (Option UserProfile) none (some q) → ⊥
      nothing x = cc

  ensure-AllNamed :
      (input : EnsureUserProfileInput) (id now : ℕ) (w : Tables)
      → AllNamed w
      → AllNamed (ensure prisma input id now w).1
  unfolding ensure
  ensure-AllNamed input id now w h =
      let raw = name_or_default prisma input.display_name input.email in
      elim (Option-cases (find_by_user_id prisma input.user_id w)) [
        | inr (p, known) ↦ rw known h
        | inl new ↦ elim (cases (create input.user_id raw id now)) [
          | inr (e, failed) ↦ rw (new, failed) h
          | inl (p, made) ↦
              let kept = save-AllNamed p w (create-IsDisplayName input.user_id raw id now made) h in
              elim (cases (save prisma p w).0) [
                | inl (_, done) ↦ rw (new, made, done) kept
                | inr (e, failed) ↦ rw (new, made, failed) kept
              ]
        ]
      ]

  view-AllNamed :
      (user_id : ℕ) (p : UserProfile) (w : Tables)
      → IsDisplayName p.display_name
      → AllNamed w
      → AllNamed (save_and_view prisma user_id p w).1
  view-AllNamed user_id p w named h =
      let kept = save-AllNamed p w named h in
      elim (cases (save prisma p w).0) [
        | inr (e, failed) ↦ rw failed kept
        | inl (_, done) ↦ elim (Option-cases (find_identity prisma user_id (save prisma p w).1)) [
          | inl missing ↦ rw (done, missing) kept
          | inr (i, found) ↦ rw (done, found) kept
        ]
      ]

  avatar-AllNamed :
      (input : UpdateUserProfileInput) (now : ℕ) (avatar : Option (Option ℕ)) (p : UserProfile)
      (w : Tables)
      → IsDisplayName p.display_name
      → AllNamed w
      → AllNamed (update_avatar prisma input now avatar p w).1
  avatar-AllNamed input now none p w named h = view-AllNamed input.target_user_id p w named h
  avatar-AllNamed input now (some none) p w named h =
      view-AllNamed input.target_user_id _ w (change_avatar-IsDisplayName none now p named) h
  avatar-AllNamed input now (some (some file_id)) p w named h =
      elim (Bool-cases (exists_usable_for_owner prisma file_id input.caller_id w)) [
        | inl usable ↦ rw usable (
            view-AllNamed input.target_user_id _ w
              (change_avatar-IsDisplayName (some file_id) now p named) h)
        | inr unusable ↦ rw unusable h
      ]

  renamed_if-IsDisplayName :
      (name : Option Text) (now : ℕ) (p : UserProfile) {q : UserProfile}
      → IsDisplayName p.display_name
      → renamed_if prisma name now p ≡ ok q
      → IsDisplayName q.display_name
  renamed_if-IsDisplayName none now p h e =
      subst (λ (q : UserProfile). IsDisplayName q.display_name) (ok_injective e) h
  renamed_if-IsDisplayName (some name) now p h e = rename-IsDisplayName name now p h e

  update-AllNamed :
      (input : UpdateUserProfileInput) (now : ℕ) (w : Tables)
      → AllNamed w
      → AllNamed (update prisma input now w).1
  unfolding update
  update-AllNamed input now w h = elim (Bool-cases (input.caller_id == input.target_user_id)) [
    | inr other ↦ rw other h
    | inl own ↦ elim (Option-cases (find_by_user_id prisma input.target_user_id w)) [
      | inl missing ↦ rw (own, missing) h
      | inr (p, found) ↦ elim (cases (renamed_if prisma input.display_name now p)) [
        | inr (e, failed) ↦ rw (own, found, failed) h
        | inl (q, changed) ↦
            let named =
              renamed_if-IsDisplayName input.display_name now p
                (found-IsDisplayName input.target_user_id w h found) changed in
            rw (own, found, changed) (avatar-AllNamed input now input.avatar_file_id q w named h)
      ]
    ]
  ]

  delete-AllNamed :
      (user_id : ℕ) (w : Tables) → AllNamed w → AllNamed (delete_by_user_id prisma user_id w).1
  unfolding delete_by_user_id
  delete-AllNamed user_id w h =
      rw (prisma.delete_many-eq (is_of_user user_id) w.profiles) (kept w.profiles h)
    where
      kept :
          (rows : List UserProfile)
          → All (λ (r : UserProfile). IsDisplayName r.display_name) rows
          → All
              (λ (r : UserProfile). IsDisplayName r.display_name)
              (keep (λ r. not (is_of_user user_id r)) rows)
      kept [] h = tt
      kept (r ∷ rows) h = elim (Bool-cases (is_of_user user_id r)) [
        | inl gone ↦ rw gone (kept rows h.1)
        | inr stays ↦ rw stays (h.0, kept rows h.1)
      ]

  -- Every stored display name has between 2 and 80 units and no control character: registration, an
  -- update and a deletion, however they end, keep it so of a table where it is so.
  pub profiles-AllNamed :
      (w : Tables) (registered : EnsureUserProfileInput) (changed : UpdateUserProfileInput)
      (user_id id now : ℕ)
      → AllNamed w
      → AllNamed (ensure prisma registered id now w).1
        × AllNamed (update prisma changed now w).1
        × AllNamed (delete_by_user_id prisma user_id w).1
  profiles-AllNamed w registered changed user_id id now h = (
    ensure-AllNamed registered id now w h,
    update-AllNamed changed now w h,
    delete-AllNamed user_id w h,
  )
