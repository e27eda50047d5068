-- ===== src/Witnesses/Deployment.antt =====
-- The theorems on the migrations, the processes of the worker and the start of the API, applied.
use mycelium_consciousness.Prelude.{
  Text, codes, false, List, [], ◌∷◌, none, some, ◌≡◌, refl, text_eq,
}
use mycelium_consciousness.Effects.{ok}
use mycelium_consciousness.Api.{lifespan}
use mycelium_consciousness.Api.Start.{Starts, lifespan-Starts}
use mycelium_consciousness.Migrations.{
  Catalog, migrate, has_type, referenced, relation_taken, type_used,
}
use mycelium_consciousness.Migrations.Initial.{upgrade}
use mycelium_consciousness.Migrations.Agreement.{IsFresh, declared_in, upgrade-declared}
use mycelium_consciousness.Worker.{
  Process, Task, flush_due_streams, reset_db_pool, close_db_pool, serve, serve_world,
}
use mycelium_consciousness.Worker.Lifecycle.{serve_lifetime}
use mycelium_consciousness.Witnesses.Samples.Stores.{bucket_setup}
use mycelium_consciousness.Witnesses.Samples.Tables.{services, world}

abbrev catalog : Catalog
catalog = record {
  types = [];
  tables =
      record {
        name = codes "alembic_version";
        columns = [];
        primary_key = [];
        foreign_keys = [];
        uniques = [];
        indexes = [];
      }
      ∷ [];
}

catalog-IsFresh : IsFresh catalog
unfolding has_type type_used relation_taken text_eq referenced
catalog-IsFresh = record {
  no_role = refl;
  no_tier = refl;
  role_unused = refl;
  tier_unused = refl;
  no_users = refl;
  no_profiles = refl;
  no_buffers = refl;
  no_backups = refl;
  no_email_index = refl;
  no_designation_index = refl;
  no_period_index = refl;
  users_free = refl;
  profiles_free = refl;
  buffers_free = refl;
  backups_free = refl;
}

upgrade-declared_example : migrate upgrade catalog ≡ ok (declared_in catalog)
upgrade-declared_example = upgrade-declared catalog catalog-IsFresh

-- A process that has inherited connections of its parent's loop.
abbrev forked : Process (services false)
forked = record { world = world false; pool = some 0; loop = none; loops = 1 }

abbrev tasks : List Task
tasks = flush_due_streams ∷ Task.force_rollup 2000000 7 ∷ []

serve_lifetime_example :
    let p1 = (reset_db_pool forked).1 in
    let (rs, p2) = serve none tasks p1 in
    let p3 = (close_db_pool p2).1 in
    (rs ≡ (serve_world none tasks p1.world).0)
    × (p2.world ≡ (serve_world none tasks p1.world).1)
    × (p2.loops ≡ p1.loops)
    × (p3.pool ≡ none)
    × (p3.loop ≡ none)
    × (p3.world ≡ p2.world)
serve_lifetime_example = serve_lifetime none tasks forked

abbrev signing_key : Text
signing_key = codes "0123456789abcdef0123456789abcdef"

lifespan-Starts_example :
    Starts bucket_setup false signing_key (world false) (lifespan false signing_key (world false))
lifespan-Starts_example = lifespan-Starts bucket_setup false signing_key (world false)
