-- ===== src/Witnesses/Writes.antt =====
-- The theorems on memories and on the administration of accounts, applied.
use mycelium_consciousness.Prelude.Integers.{natural_of}
use mycelium_consciousness.Auth.{decode_access_token}
use mycelium_consciousness.Prelude.{
  Text, codes, false, List, [], ◌∷◌, Option, some, ◌≡◌, ◌≢◌, refl, int_of, text_eq,
}
use mycelium_consciousness.Services.{aware}
use mycelium_consciousness.Models.{CloneProfile, MemoryBackup, active_status}
use mycelium_consciousness.Database.{get_profile, commit, distinct, distinct_texts, intact}
use mycelium_consciousness.Rollup.{backups_of, latest_first}
use mycelium_consciousness.Deps.{get_current_user, current_admin}
use mycelium_consciousness.Admin.{deactivate_user, admin_user, load_user, update_user_row}
use mycelium_consciousness.Admin.Accounts.{deactivated_refused}
use mycelium_consciousness.Memories.{MemoryWriteRequest, record_memory, resurrection_source}
use mycelium_consciousness.Memories.Write.{Records, record_memory-Records}
use mycelium_consciousness.Memories.{copy_backup}
use mycelium_consciousness.Memories.Copy.{Copies, copy_backup-Copies}
use mycelium_consciousness.Witnesses.Samples.Stores.{bucket_laws}
use mycelium_consciousness.Memories.Resurrect.{resurrection_source-ok}
use mycelium_consciousness.Witnesses.Samples.Formats.{jwt, read_claims}
use mycelium_consciousness.Witnesses.Samples.Tables.{
  tables, world, laws, profile, fallen, alice, boss, backup,
}

abbrev thought : MemoryWriteRequest
thought = record { content = codes " I think. "; captured_at = some (aware 9) }

abbrev trimmed : MemoryWriteRequest
trimmed = record { content = codes "I think."; captured_at = some (aware 9) }

record_memory-Records_example :
    Records
      (laws false)
      3
      9
      profile
      trimmed
      (world false)
      (record_memory 3 9 profile trimmed (world false))
record_memory-Records_example = record_memory-Records (laws false) 3 9 profile trimmed (world false)

resurrection_source-ok_example :
    (fallen.id ≢ profile.id)
    × ((source : CloneProfile) × (get_profile 8 tables ≡ some source)
        × (source.status ≢ active_status)
        × ((rest : List MemoryBackup) × (latest_first (backups_of source.id tables.backups)
              ≡ backup 2 8 31 ∷ rest)))
unfolding resurrection_source text_eq
resurrection_source-ok_example = resurrection_source-ok 8 profile tables refl

abbrev boss_credentials : Option Text
boss_credentials =
    some (jwt.encode (record { sub = some (codes "2"); role = []; iat = 0; exp = 3600 }))

-- After the account of the clone is deactivated, the administrator is still authenticated.
deactivated_refused_example : boss.id ≢ alice.id
unfolding deactivate_user get_current_user admin_user current_admin decode_access_token read_claims
    int_of load_user commit update_user_row intact distinct distinct_texts text_eq natural_of
deactivated_refused_example =
    deactivated_refused 5 boss_credentials 1 (world false) 6 boss_credentials boss refl refl

copy_backup-Copies_example :
    Copies bucket_laws 9 profile
      (backup 2 8 31)
      (world false)
      (copy_backup 9 profile (backup 2 8 31) (world false))
copy_backup-Copies_example = copy_backup-Copies bucket_laws 9 profile (backup 2 8 31) (world false)
