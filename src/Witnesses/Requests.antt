-- ===== src/Witnesses/Requests.antt =====
-- The theorems on accounts, tokens and guards, applied.
use mycelium_consciousness.Prelude.Integers.{natural_of}
use mycelium_consciousness.Prelude.{
  ℕ, Text, codes, false, List, [], ◌∷◌, none, some, ◌≡◌, refl, text_eq, int_of, lower, length, ◌≤◌,
}
use mycelium_consciousness.Effects.{ok}
use mycelium_consciousness.Subscriptions.{clone}
use mycelium_consciousness.Models.{User, CloneProfile}
use mycelium_consciousness.Database.{get_backup, commit, distinct, distinct_texts, intact}
use mycelium_consciousness.Auth.{create_access_token, decode_access_token}
use mycelium_consciousness.Deps.{own_profile, own_backup}
use mycelium_consciousness.Deps.Guards.{own_backup_lem}
use mycelium_consciousness.Memories.{restore_own_backup}
use mycelium_consciousness.Memories.Restore.{Restores, restore_own_backup-Restores}
use mycelium_consciousness.Witnesses.Samples.Stores.{bucket_laws}
use mycelium_consciousness.Accounts.{
  LoginRequest, RegisterRequest, register, by_email, main, seed_admin, seed_rows,
}
use mycelium_consciousness.Accounts.Register.{Registers, register-Registers}
use mycelium_consciousness.Accounts.SeedAdmin.{IsSeeded, main-IsSeeded}
use mycelium_consciousness.Profiles.{update_profile, ProfileUpdateRequest}
use mycelium_consciousness.Profiles.Access.{IsAllowed, update_profile-IsAllowed}
use mycelium_consciousness.Witnesses.Samples.Formats.{hasher, hasher_laws, jwt, read_claims}
use mycelium_consciousness.Witnesses.Samples.Tables.{services, tables, world, password, backup}

-- Tokens that are issued in the first second and live for an hour.
abbrev alice_token : Text
alice_token = jwt.encode (record { sub = some (codes "1"); role = []; iat = 0; exp = 3600 })

own_backup_lem_example :
    (p : CloneProfile) × (own_profile jwt 5 (some alice_token) tables ≡ ok p)
    × ((backup 3 7 32).clone_id ≡ p.id)
    × (get_backup 3 tables ≡ some (backup 3 7 32))
unfolding own_backup decode_access_token read_claims int_of natural_of
own_backup_lem_example = own_backup_lem jwt 5 (some alice_token) tables 3 (backup 3 7 32) refl

abbrev request : LoginRequest
request = record { email = codes "Alice@Example.org"; password = password }

abbrev issued : Text
issued = create_access_token jwt 60 5 1 clone

-- A login at an instant of this century, and a request a minute later.
abbrev today : ℕ
today = 63900000000000000

abbrev token_today : Text
token_today = create_access_token jwt 60 today 1 clone

abbrev newcomer : RegisterRequest
newcomer = record {
  email = codes "New@Example.org";
  password = password;
  designation = codes "New";
}

register-Registers_example : Registers 3 newcomer (world false) (register 3 newcomer (world false))
register-Registers_example = register-Registers 3 newcomer (world false)

abbrev command : List Text
command = codes "seed-admin" ∷ codes "alice@example.org" ∷ codes "hunter2hunter2" ∷ []

main-IsSeeded_example :
    (program email password : Text) × (command ≡ program ∷ email ∷ password ∷ [])
    × (8 ≤ length password)
    × ((user : User) × IsSeeded hasher 4 email password
          (main {s = services false} 4 command (world false)).1.db
          user)
unfolding main seed_admin commit seed_rows by_email text_eq lower intact distinct distinct_texts
main-IsSeeded_example = main-IsSeeded 4 command (world false) hasher_laws refl

abbrev renaming : ProfileUpdateRequest
renaming = record { designation = some (codes "Alice-2"); status = none }

update_profile-IsAllowed_example :
    IsAllowed 5
      (some alice_token)
      7
      renaming
      (world false)
      (update_profile 5 (some alice_token) 7 renaming (world false))
update_profile-IsAllowed_example =
    update_profile-IsAllowed 5 (some alice_token) 7 renaming (world false)

restore_own_backup-Restores_example :
    Restores bucket_laws 5
      (some alice_token)
      3
      (world false)
      (restore_own_backup 5 (some alice_token) 3 (world false))
restore_own_backup-Restores_example =
    restore_own_backup-Restores bucket_laws 5 (some alice_token) 3 (world false)
