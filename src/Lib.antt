-- ===== src/Lib.antt =====
-- The memories of clones: an API takes them in, Redis streams hold them, workers flush them into
-- a buffer row per clone and roll the buffers up into backups in an S3 bucket.
--
-- Parts, and the files that model them. Coroutines are functions of the world (`Effects.antt`:
-- exceptions are values, and what was written before one stays written).
-- `Prelude`: lists, texts as code points, numbers in texts, tests on numbers.
-- `Services`: Redis, S3, msgpack, gzip, ISO 8601, argon2, PyJWT and uuid4 are parameters, records
-- of operations on a state of their own. `Services/Laws.antt` has what the code relies on, as
-- hypotheses; `Witnesses/Samples` has instances that keep all of it.
-- `Codec`: shared/src/shared/backup_codec.py.
-- `Subscriptions`: shared/src/shared/subscriptions.py and roles.py.
-- `Models`, `Database`: shared/src/shared/db/models.py. Tables are lists of rows, `intact` is their
-- unique and foreign keys, and `commit` applies the collected statements whole or fails: by a lost
-- connection, which the world foretells (`outages`), or by a broken constraint. That the database
-- checks its constraints is assumed here, not proved.
-- `Streams`: shared/src/shared/streams.py.
-- `Flush`: services/celery/src/celery_worker/flush.py. `flush_one_stream` is cut where another
-- task may run, after the read: `flush_entries` is the rest. `Flush/Segments` cuts it once more,
-- after the commit, which gives up the row lock.
-- `Storage`: shared/src/shared/object_storage.py.
-- `Rollup`: services/celery/src/celery_worker/pipeline.py. `archive` is `rollup_clone` from the
-- loaded buffer up to its first commit, and `prune_stale_backups` up to the second.
-- `Auth`: shared/src/shared/auth.py and services/api/src/api/security.py.
-- `Deps`: services/api/src/api/deps.py.
-- `Accounts`: services/api/src/api/routers/auth.py and services/api/src/api/seed_admin.py.
-- `Profiles`, `Memories`, `Admin`: services/api/src/api/routers/profiles.py, memories.py and
-- admin.py, with the validators of services/api/src/api/schemas.py and the tasks behind them, which
-- the broker may refuse (`refusals`).
-- `Home`: services/api/src/api/routers/home.py.
-- `Settings`: shared/src/shared/settings.py, behind what pydantic parses.
-- `Schemas`: services/api/src/api/schemas.py, the bodies of requests and what their validation says.
-- `Api`: services/api/src/api/main.py. A request names its endpoint, `handle` runs its guards and
-- its body, `respond` answers an exception. `Api/Frames` says which part of the world each
-- endpoint can change.
-- `Worker`: services/celery/src/celery_worker/app.py and tasks/memory.py. Its state is the loop of
-- the process and `pool`, the loop that the pooled connections belong to, if there may be any.
-- `System`: the API and the workers together. `Reach` is a run of requests, flushes and rollups in
-- any order, each run to its end. In `Runs` of `System/Interleaved` the segments of flushes take
-- turns with each other and with requests and rollups, and a worker may stop between segments.
-- `Migrations`: shared/migrations/versions/0001_initial_schema.py, statements on a catalog of
-- tables, beside the schema that shared/src/shared/db/models.py declares.
-- `LoadTests`: loadtests/profiles.py, provision.py, locustfile.py, collect_docker_stats.py and
-- make_report.py, and tools/load_generator.py. What is random, what `docker` prints and what
-- requests come to are parameters; times are whole numbers, and floats exact fractions, but those
-- of container sizes are binary64 (`LoadTests/Binary64`, whose fuel is the range of exponents).
-- `LoadTests/Locust/Start` runs provisioning and the users against the API of this program.
-- `Witnesses`: each theorem at concrete data.
--
-- The API and the workers share the tables, the streams and the bucket, all in `World`. An
-- interleaving inside two tasks is written as the sequence of their steps, as in
-- `System/Interleaved`, `Flush/Races`, `Flush/Reverts` and `Rollup/Races`. Loops run over lists;
-- beside the floats only the range of `LoadTests.steps` has fuel, a unit for each number from
-- `start` to `stop`, and no step is less than 1. Numbers are unbounded, as in Python; times are
-- counts of microseconds, and in `LoadTests` of the unit that its files name.
--
-- Not modelled: HTTP and the parsing of JSON, reading the environment, the engine of SQLAlchemy
-- and env.py of Alembic, the configuration of Celery beside the schedule, clients as singletons,
-- logging, how long argon2 takes, files and the parsing of arguments, and of
-- loadtests/make_report.py all but the table of the steps (text and plots, by pandas and
-- matplotlib). `lower` leaves out the form of a final sigma; `int` of what the program prints
-- reads decimal digits, that of a token's subject all that Python's does. Reads of the database do
-- not fail. A query without an order gives the rows as the table lists them.
pub mod Prelude
pub mod Effects
pub mod Services
pub mod Codec
pub mod Subscriptions
pub mod Models
pub mod Database
pub mod Streams
pub mod Flush
pub mod Storage
pub mod Rollup
pub mod Auth
pub mod Deps
pub mod Accounts
pub mod Profiles
pub mod Memories
pub mod Admin
pub mod Settings
pub mod Home
pub mod Schemas
pub mod Api
pub mod System
pub mod Worker
pub mod Migrations
pub mod LoadTests
pub mod Witnesses
