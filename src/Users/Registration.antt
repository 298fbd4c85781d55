-- ===== src/Users/Registration.antt =====
-- That a registration makes one profile.
use nestjs_modular_monolith.Common.{
  ℕ, ◌≤◌, ◌≡◌, refl, sym, ◌∙◌, inl, inr, true, false, ◌||◌, Bool-cases, none, some, List, [], ◌∷◌,
  ◌++◌, arith, leb, ltb, ◌==◌, ==_refl, length, take, any, All, All-append, All-map, All-mem,
  length-take, length-append,
}
use nestjs_modular_monolith.Errors.{ok}
use nestjs_modular_monolith.Prisma.{PrismaClient}
use nestjs_modular_monolith.Prisma.Rows.{any_of_All, any-false}
use nestjs_modular_monolith.Text.{Text, literal, trim_none, is_white, split, take-All}
use nestjs_modular_monolith.Users.{
  UserProfile, Tables, display_name_of, is_control, create, is_of_user, same_profile, has_user,
  find_by_user_id, ensure, default_display_name, local_part, user_profile_created,
}
use nestjs_modular_monolith.Users.Profiles.{save-eq}

-- No white space and no control character, as in the local part of an address.
abbrev pub IsPlain : ℕ → Type 0
IsPlain c = (is_white c ≡ false) × (is_control c ≡ false)

abbrev pub local_part_of : Text → Text
local_part_of email = local_part (split (λ c. c == 64) email)

plain_accepted :
    (name : Text)
    → 2 ≤ length name
    → length name ≤ 80
    → All IsPlain name
    → display_name_of name ≡ ok name
unfolding display_name_of
plain_accepted name long short plain =
    let trimmed = trim_none name (All-map (λ c h. h.0) name plain) in
    let clean : any is_control name ≡ false =
      any_of_All is_control name (All-map (λ c h. h.1) name plain) in
    let fits : ltb (length name) 2 || ltb 80 (length name) ≡ false = ground arith in
    rw (trimmed, fits, clean) refl

default_display_name_lem :
    (email : Text)
    → 1 ≤ length (local_part_of email)
    → All IsPlain (local_part_of email)
    → display_name_of (default_display_name email) ≡ ok (default_display_name email)
unfolding default_display_name
default_display_name_lem email some_unit plain =
    let part = local_part_of email in
    elim (Bool-cases (leb 2 (length part))) [
      | inl long ↦ rw long (
          plain_accepted (take 80 part) (ground (arith, length-take 80 part))
            (ground (arith, length-take 80 part)) (take-All IsPlain 80 part plain))
      | inr short ↦ rw short (
          plain_accepted (part ++ literal "-user")
            (ground (arith, length-append part (literal "-user")))
            (ground (arith, length-append part (literal "-user")))
            (All-append IsPlain part (literal "-user") plain
              ((refl, refl), ((refl, refl), ((refl, refl), ((refl, refl), ((refl, refl), tt)))))))
    ]

module _ (prisma : PrismaClient) where
  found_nothing :
      (user_id : ℕ) (w : Tables)
      → any (is_of_user user_id) w.profiles ≡ false
      → find_by_user_id prisma user_id w ≡ none
  unfolding find_by_user_id
  found_nothing user_id w h = elim (prisma.find_first-Finds (is_of_user user_id) w.profiles) [
    | inl (missed, _) ↦ missed
    | inr (r, found, m, hit) ↦
        let apart = any-false (is_of_user user_id) w.profiles h in
        absurd (clash (sym (All-mem (λ q. is_of_user user_id q ≡ false) w.profiles apart m) ∙ hit))
  ]
    where
      clash : false ≡ true → ⊥
      clash e = cc

  found_something :
      (user_id : ℕ) (w : Tables)
      → any (is_of_user user_id) w.profiles ≡ true
      → (p : UserProfile) × (find_by_user_id prisma user_id w ≡ some p)
  unfolding find_by_user_id
  found_something user_id w h = elim (prisma.find_first-Finds (is_of_user user_id) w.profiles) [
    | inl (missed, apart) ↦
        absurd (clash (sym (any_of_All (is_of_user user_id) w.profiles apart) ∙ h))
    | inr (r, found, m, hit) ↦ (r, found)
  ]
    where
      clash : false ≡ true → ⊥
      clash e = cc

  any-last :
      (user_id : ℕ) (rows : List UserProfile) (p : UserProfile)
      → is_of_user user_id p ≡ true
      → any (is_of_user user_id) (rows ++ p ∷ []) ≡ true
  any-last user_id [] p h = rw h refl
  any-last user_id (r ∷ rows) p h = ground (arith, any-last user_id rows p h)

  abbrev pub new_profile : ℕ → Text → ℕ → ℕ → UserProfile
  new_profile user_id name id now = record {
    id = id;
    user_id = user_id;
    display_name = name;
    avatar_file_id = none;
    created_at = now;
    updated_at = now;
    events = [];
  }

  -- Whoever registers with an ordinary address gets a profile, once: where the user exists and has no
  -- profile yet, the identifier is new, and the local part of the address is not empty and has neither
  -- white space nor control characters, a row with the default name is appended; and the same event
  -- delivered again at any time changes nothing.
  pub ensure-ensure :
      (user_id : ℕ) (email : Text) (id now new_id later : ℕ) (w : Tables)
      → 1 ≤ length (local_part_of email)
      → All IsPlain (local_part_of email)
      → any (is_of_user user_id) w.profiles ≡ false
      → any (same_profile (new_profile user_id (default_display_name email) id now)) w.profiles
        ≡ false
      → has_user w.identities (new_profile user_id (default_display_name email) id now) ≡ true
      → (ensure prisma (record { user_id = user_id; email = email; display_name = none }) id now w
          ≡ (
            ok true,
            record w {
              profiles = w.profiles ++ new_profile user_id (default_display_name email) id now ∷ [];
            },
          ))
        × (ensure prisma
              (record { user_id = user_id; email = email; display_name = none })
              new_id
              later
              (ensure prisma
                (record { user_id = user_id; email = email; display_name = none })
                id
                now
                w).1
            ≡ (
              ok false,
              (ensure prisma
                  (record { user_id = user_id; email = email; display_name = none })
                  id
                  now
                  w).1,
            ))
  unfolding ensure create
  ensure-ensure user_id email id now new_id later w some_unit plain missing fresh known =
      let name = default_display_name email in
      let row = new_profile user_id name id now in
      let after : Tables = record w { profiles = w.profiles ++ row ∷ [] } in
      let made = save-eq prisma (record row { events = user_profile_created id user_id ∷ [] }) w in
      let first : ensure prisma (record { user_id = user_id; email = email; display_name = none })
            id now w
          ≡ (ok true, after) =
        rw
          (
            found_nothing user_id w missing,
            default_display_name_lem email some_unit plain,
            made,
            missing,
            fresh,
            known,
          )
          refl in
      let (p, again) =
        found_something user_id after (any-last user_id w.profiles row (==_refl user_id)) in
      rw first (refl, rw again refl)
