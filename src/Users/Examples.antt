-- ===== src/Users/Examples.antt =====
-- The theorems on users at a concrete table.
use nestjs_modular_monolith.Common.{
  ◌≤◌, ◌≡◌, refl, true, false, none, some, [], ◌∷◌, ◌++◌, arith, length, All,
}
use nestjs_modular_monolith.Errors.{ok}
use nestjs_modular_monolith.Prisma.ListClient.{list_client}
use nestjs_modular_monolith.Text.{Text, literal, split}
use nestjs_modular_monolith.Users.{
  UserProfile, UserIdentity, Tables, EnsureUserProfileInput, UpdateUserProfileInput, ensure, update,
  delete_by_user_id, default_display_name,
}
use nestjs_modular_monolith.Users.Profiles.{AllNamed, profiles-AllNamed}
use nestjs_modular_monolith.Users.Registration.{IsPlain, local_part_of, new_profile, ensure-ensure}

abbrev email : Text
email = literal "ann@b.c"

abbrev identity : UserIdentity
identity = record { user_id = 3; email = email; email_verified = true; role = literal "user" }

abbrev named : UserProfile
named = new_profile list_client 3 (literal "Ann") 1 1000

abbrev tables : Tables
tables = record { profiles = named ∷ []; identities = identity ∷ []; files = [] }

abbrev registered : EnsureUserProfileInput
registered = record { user_id = 3; email = email; display_name = none }

abbrev changed : UpdateUserProfileInput
changed = record {
  caller_id = 3;
  target_user_id = 3;
  display_name = some (literal "Bea");
  avatar_file_id = some none;
}

profiles-AllNamed_example :
    AllNamed (ensure list_client registered 2 2000 tables).1
    × AllNamed (update list_client changed 2000 tables).1
    × AllNamed (delete_by_user_id list_client 3 tables).1
profiles-AllNamed_example =
    profiles-AllNamed list_client tables registered changed 3 2 2000
      ((omega arith, omega arith, refl), tt)

abbrev empty_tables : Tables
empty_tables = record { profiles = []; identities = identity ∷ []; files = [] }

local-IsPlain : All IsPlain (local_part_of email)
unfolding split
local-IsPlain = ((refl, refl), ((refl, refl), ((refl, refl), tt)))

some_unit : 1 ≤ length (local_part_of email)
unfolding split
some_unit = omega arith

ensure-ensure_example :
    (ensure list_client registered 1 1000 empty_tables ≡ (
      ok true,
      record empty_tables {
        profiles = [] ++ new_profile list_client 3 (default_display_name email) 1 1000 ∷ [];
      },
    ))
    × (ensure list_client registered 2 2000 (ensure list_client registered 1 1000 empty_tables).1
        ≡ (ok false, (ensure list_client registered 1 1000 empty_tables).1))
ensure-ensure_example =
    ensure-ensure list_client 3 email 1 1000 2 2000 empty_tables some_unit local-IsPlain refl refl
      refl
