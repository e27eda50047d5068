-- ===== src/Witnesses/Samples/Strict.antt =====
-- A redis that refuses to trim where there is nothing to trim.
use mycelium_consciousness.Prelude.{
  Text, Bool, false, not, [], ◌∷◌, all, if◌then◌else◌, Bool-cases, inl, inr, refl,
}
use mycelium_consciousness.Effects.{Result, ok, err, redis_error}
use mycelium_consciousness.Services.{Services, Redis}
use mycelium_consciousness.Services.Ids.{before}
use mycelium_consciousness.Services.Laws.{RedisLaws, TrimFailsCleanly}
use mycelium_consciousness.Database.{World}
use mycelium_consciousness.Streams.{stream_key}
use mycelium_consciousness.Witnesses.Samples.Stores.{
  Stored, entries_from, trim, put, redis, redis_laws,
}
use mycelium_consciousness.Witnesses.Samples.Tables.{services, world, streams}

abbrev idle : Text → Stored → Bool
idle minid xs = all (λ e. not (before e.0 minid)) (entries_from 1 xs)

abbrev xtrim : (k minid : Text) → (Text → Stored) → Result (Unit {0}) × (Text → Stored)
xtrim k minid s =
    if idle minid (s k) then (err redis_error, s) else (ok tt, put k (trim minid 1 (s k)) s)

abbrev strict : Redis
strict = record (redis false (stream_key 7 ∷ [])) { xtrim = xtrim }

abbrev base : RedisLaws (redis false (stream_key 7 ∷ []))
base = redis_laws false (stream_key 7 ∷ [])

pub strict_laws : RedisLaws strict
strict_laws = record {
  increasing = base.increasing;
  xrange_reads = base.xrange_reads;
  xrange_ok = base.xrange_ok;
  xlen_reads = base.xlen_reads;
  xlen_ok = base.xlen_ok;
  scan_reads = base.scan_reads;
  xadd_ok = base.xadd_ok;
  xadd_others = base.xadd_others;
  xtrim_ok = λ k minid s e. elim (Bool-cases (idle minid (s k))) [
    | inl h ↦ let bad = rw h at e in cc
    | inr h ↦ rw h (base.xtrim_ok k minid s refl)
  ];
  xtrim_others = λ k j minid s ne. elim (Bool-cases (idle minid (s k))) [
    | inl h ↦ rw h refl
    | inr h ↦ rw h (base.xtrim_others k j minid s ne)
  ];
}

pub strict_clean : TrimFailsCleanly strict
strict_clean = record {
  unchanged = λ k minid s e. elim (Bool-cases (idle minid (s k))) [
    | inl h ↦ rw h refl
    | inr h ↦ let bad = rw h at e in cc
  ];
}

abbrev pub strict_services : Services
strict_services = record (services false) { redis = strict }

abbrev pub strict_world : World strict_services
strict_world = record {
  db = (world false).db;
  outages = [];
  redis = streams;
  bucket = (world false).bucket;
  uuid_calls = 0;
  flush_tasks = [];
  refusals = [];
}
