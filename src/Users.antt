-- ===== src/Users.antt =====
-- src/modules/users: domain/display-name.vo.ts, domain/user-profile.entity.ts, the repository, and the use
-- cases that make, read, change and delete a profile.
pub mod Profiles
pub mod Registration
pub mod Listeners
pub mod Examples
use nestjs_modular_monolith.Common.{
  ℕ, Bool, true, false, not, ◌&&◌, ◌||◌, Option, none, some, List, [], ◌∷◌, ◌++◌, leb, ltb, ◌==◌,
  if◌then◌else◌, length, take, any,
}
use nestjs_modular_monolith.Errors.{
  Result, ok, throw, M, continue, forbidden_code, user_profile_not_found, user_not_found,
  upload_not_found, display_name_invalid,
}
use nestjs_modular_monolith.Errors.DomainErrors
use nestjs_modular_monolith.Prisma.{PrismaClient}
use nestjs_modular_monolith.Text.{Text, text_eq, literal, trim, split}
use nestjs_modular_monolith.Upload.StoredFile.{StoredFile, StoredFileStatus, confirmed}

abbrev pub is_control : ℕ → Bool
is_control c = ltb c 32 || c == 127

-- A code point is a control character where its unit is.
abbrev pub contains_control_character : Text → Bool
contains_control_character = any is_control

-- `DisplayName.of`, with the value that it holds.
unfoldable pub display_name_of : Text → Result Text
display_name_of raw =
    let trimmed = trim raw in
    if ltb (length trimmed) 2 || ltb 80 (length trimmed)
    then throw (DomainErrors.validation display_name_invalid)
    else if contains_control_character trimmed
    then throw (DomainErrors.validation display_name_invalid)
    else ok trimmed

pub data UserProfileEvent : Type 0 where
  user_profile_created : (profile_id user_id : ℕ) → UserProfileEvent
  user_profile_renamed : (profile_id : ℕ) (previous current : Text) → UserProfileEvent
  user_avatar_changed : (profile_id : ℕ) (file_id : Option ℕ) → UserProfileEvent

pub record UserProfile : Type 0 where
  pub id : ℕ
  pub user_id : ℕ
  pub display_name : Text
  pub avatar_file_id : Option ℕ
  pub created_at : ℕ
  pub updated_at : ℕ
  pub events : List UserProfileEvent

abbrev pub created : ℕ → ℕ → ℕ → Result Text → Result UserProfile
created user_id id now (throw e) = throw e
created user_id id now (ok name) = ok (record {
  id = id;
  user_id = user_id;
  display_name = name;
  avatar_file_id = none;
  created_at = now;
  updated_at = now;
  events = user_profile_created id user_id ∷ [];
})

unfoldable pub create : ℕ → Text → ℕ → ℕ → Result UserProfile
create user_id display_name id now = created user_id id now (display_name_of display_name)

abbrev pub renamed : ℕ → UserProfile → Result Text → Result UserProfile
renamed now p (throw e) = throw e
renamed now p (ok next) =
    if text_eq next p.display_name
    then ok p
    else ok (record p {
      display_name = next;
      updated_at = now;
      events = p.events ++ user_profile_renamed p.id p.display_name next ∷ [];
    })

unfoldable pub rename : Text → ℕ → UserProfile → Result UserProfile
rename display_name now p = renamed now p (display_name_of display_name)

abbrev pub same_file : Option ℕ → Option ℕ → Bool
same_file none none = true
same_file (some a) (some b) = a == b
same_file _ _ = false

unfoldable pub change_avatar : Option ℕ → ℕ → UserProfile → UserProfile
change_avatar file_id now p = if same_file file_id p.avatar_file_id then p else record p {
  avatar_file_id = file_id;
  updated_at = now;
  events = p.events ++ user_avatar_changed p.id file_id ∷ [];
}

pub record UserIdentity : Type 0 where
  pub user_id : ℕ
  pub email : Text
  pub email_verified : Bool
  pub role : Text

-- The tables; a row of profiles is an aggregate without events.
pub record Tables : Type 0 where
  pub profiles : List UserProfile
  pub identities : List UserIdentity
  pub files : List StoredFile

abbrev pub is_of_user : ℕ → UserProfile → Bool
is_of_user user_id r = r.user_id == user_id

-- The primary key, and the unique index on the user.
abbrev pub same_profile : UserProfile → UserProfile → Bool
same_profile a b = a.id == b.id || a.user_id == b.user_id

abbrev pub set_saved : UserProfile → UserProfile → UserProfile
set_saved p r = record r {
  display_name = p.display_name;
  avatar_file_id = p.avatar_file_id;
  updated_at = p.updated_at;
}

abbrev pub row_of : UserProfile → UserProfile
row_of p = record p { events = [] }

abbrev pub has_user : List UserIdentity → UserProfile → Bool
has_user identities r = any (λ (i : UserIdentity). i.user_id == r.user_id) identities

-- The view of a profile; its dates are milliseconds.
pub record UserProfileView : Type 0 where
  pub id : ℕ
  pub user_id : ℕ
  pub email : Text
  pub email_verified : Bool
  pub role : Text
  pub display_name : Text
  pub avatar_file_id : Option ℕ
  pub created_at : ℕ
  pub updated_at : ℕ

unfoldable pub to_user_profile_view : UserProfile → UserIdentity → UserProfileView
to_user_profile_view p i = record {
  id = p.id;
  user_id = p.user_id;
  email = i.email;
  email_verified = i.email_verified;
  role = i.role;
  display_name = p.display_name;
  avatar_file_id = p.avatar_file_id;
  created_at = p.created_at;
  updated_at = p.updated_at;
}

-- `email.split('@')[0]`
abbrev pub local_part : List Text → Text
local_part [] = literal "user"
local_part (part ∷ parts) = part

unfoldable pub default_display_name : Text → Text
default_display_name email =
    let part = local_part (split (λ c. c == 64) email) in
    if leb 2 (length part) then take 80 part else part ++ literal "-user"

pub record EnsureUserProfileInput : Type 0 where
  pub user_id : ℕ
  pub email : Text
  pub display_name : Option Text

-- A member that is undefined is none; a null avatar is some none.
pub record UpdateUserProfileInput : Type 0 where
  pub caller_id : ℕ
  pub target_user_id : ℕ
  pub display_name : Option Text
  pub avatar_file_id : Option (Option ℕ)

module _ (prisma : PrismaClient) where
  open prisma use {find_first, upsert, delete_many, count_rows}

  unfoldable pub find_by_user_id : ℕ → Tables → Option UserProfile
  find_by_user_id user_id w = find_first (is_of_user user_id) w.profiles

  unfoldable pub find_identity : ℕ → Tables → Option UserIdentity
  find_identity user_id w = find_first (λ (i : UserIdentity). i.user_id == user_id) w.identities

  abbrev pub saved : Tables → Result (Unit {0}) × List UserProfile → Result (Unit {0}) × Tables
  saved w (r, rows) = (r, record w { profiles = rows })

  -- A new row's user exists, by the foreign key.
  unfoldable pub save : UserProfile → M Tables (Unit {0})
  save p w = saved w (
      upsert same_profile (has_user w.identities) (is_of_user p.user_id) (set_saved p) (row_of p)
        w.profiles)

  -- `deleteByUserId`, which is all that DeleteUserProfileUseCase does.
  unfoldable pub delete_by_user_id : ℕ → Tables → Bool × Tables
  delete_by_user_id user_id w =
      let (left, n) = delete_many (is_of_user user_id) w.profiles in
      (ltb 0 n, record w { profiles = left })

  abbrev pub is_confirmed : StoredFileStatus → Bool
  is_confirmed confirmed = true
  is_confirmed _ = false

  -- `existsUsableForOwner`
  unfoldable pub exists_usable_for_owner : ℕ → ℕ → Tables → Bool
  exists_usable_for_owner file_id owner_id w = ltb 0 (
      count_rows
        (λ (f : StoredFile). f.id == file_id && f.owner_id == owner_id && is_confirmed f.status)
        w.files)

  -- `input.displayName ?? defaultDisplayName(input.email)`
  abbrev pub name_or_default : Option Text → Text → Text
  name_or_default none email = default_display_name email
  name_or_default (some name) email = name

  abbrev pub save_created : Result UserProfile → M Tables Bool
  save_created (throw e) w = (throw e, w)
  save_created (ok p) w = continue (save p w) (λ _ v. (ok true, v))

  abbrev pub ensure_missing : EnsureUserProfileInput → ℕ → ℕ → Option UserProfile → M Tables Bool
  ensure_missing input id now (some existing) w = (ok false, w)
  ensure_missing input id now none w =
      save_created (create input.user_id (name_or_default input.display_name input.email) id now) w

  -- `EnsureUserProfileUseCase.execute`; `id` is what `newId()` answers.
  unfoldable pub ensure : EnsureUserProfileInput → ℕ → ℕ → M Tables Bool
  ensure input id now w = ensure_missing input id now (find_by_user_id input.user_id w) w

  abbrev pub view_of : UserProfile → Option UserIdentity → M Tables UserProfileView
  view_of p none w = (throw (DomainErrors.not_found user_not_found), w)
  view_of p (some i) w = (ok (to_user_profile_view p i), w)

  abbrev pub save_and_view : ℕ → UserProfile → M Tables UserProfileView
  save_and_view user_id p w = continue (save p w) (λ _ v. view_of p (find_identity user_id v) v)

  abbrev pub update_avatar :
      UpdateUserProfileInput → ℕ → Option (Option ℕ) → UserProfile → M Tables UserProfileView
  update_avatar input now none p w = save_and_view input.target_user_id p w
  update_avatar input now (some none) p w =
      save_and_view input.target_user_id (change_avatar none now p) w
  update_avatar input now (some (some file_id)) p w =
      if exists_usable_for_owner file_id input.caller_id w
      then save_and_view input.target_user_id (change_avatar (some file_id) now p) w
      else (throw (DomainErrors.not_found upload_not_found), w)

  abbrev pub renamed_if : Option Text → ℕ → UserProfile → Result UserProfile
  renamed_if none now p = ok p
  renamed_if (some name) now p = rename name now p

  abbrev pub update_found :
      UpdateUserProfileInput → ℕ → Option UserProfile → M Tables UserProfileView
  update_found input now none w = (throw (DomainErrors.not_found user_profile_not_found), w)
  update_found input now (some p) w =
      continue (renamed_if input.display_name now p, w)
        (update_avatar input now input.avatar_file_id)

  -- `UpdateUserProfileUseCase.execute`, at one time of the clock.
  unfoldable pub update : UpdateUserProfileInput → ℕ → M Tables UserProfileView
  update input now w =
      if not (input.caller_id == input.target_user_id)
      then (throw (DomainErrors.forbidden forbidden_code), w)
      else update_found input now (find_by_user_id input.target_user_id w) w

  abbrev pub view_found : Option UserProfile → Option UserIdentity → Result UserProfileView
  view_found (some p) (some i) = ok (to_user_profile_view p i)
  view_found _ _ = throw (DomainErrors.not_found user_profile_not_found)

  -- `GetUserProfileUseCase.execute`
  unfoldable pub get_user_profile : ℕ → Tables → Result UserProfileView
  get_user_profile user_id w = view_found (find_by_user_id user_id w) (find_identity user_id w)
