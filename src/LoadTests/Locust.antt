-- ===== src/LoadTests/Locust.antt =====
-- loadtests/locustfile.py: a virtual user. Which account it takes, what it writes and when it acts is
-- chosen at random, so these are parameters. `post` is Locust's client for the login.
pub mod Start
pub mod Acts
use mycelium_consciousness.Prelude.{ℕ, Text, List, [], ◌∷◌, Option, none, some, ◌==◌, if◌then◌else◌}
use mycelium_consciousness.Effects.{Result, ok, err, Exec, lift, key_error, ◌>>=◌}
use mycelium_consciousness.Accounts.{LoginRequest}
use mycelium_consciousness.Memories.{MemoryWriteRequest}
use mycelium_consciousness.Api.{
  Public, log_in, health_check, Body, token, Response, Request, public, for_clone, write_me,
  read_profile_me, backups_me, status_me,
}

-- `response.json()["access_token"]`; a body without it is a KeyError.
abbrev pub access_token : Body → Result Text
access_token (token t) = ok t.access_token
access_token b = err key_error

abbrev pub bearer : Response → Result (Option Text)
bearer response = elim (access_token response.body) [ ok t ↦ ok (some t) | err e ↦ err e ]

module _ {W : Type 0} (post : Public → Exec W Response) where
  -- `on_start`: the token of the header, or `none` for a user that stops.
  pub on_start : LoginRequest → Exec W (Option Text)
  on_start account = do
    response ← post (log_in account)
    lift (if response.status_code == 200 then bearer response else ok none)

-- What a user does.
data Act : Type 0 where
  write_memory : (content : Text) → Act
  read_profile list_backups stream_status health : Act

-- The weights of `@task`, by which Locust chooses.
abbrev weight : Act → ℕ
weight (write_memory content) = 10
weight read_profile = 3
weight list_backups = 2
weight stream_status = 1
weight health = 1

-- The request of an act; the default of the limit is the API's.
unfoldable request_of : (header : Option Text) → Act → Request
request_of header (write_memory content) =
    for_clone header (write_me (record { content = content; captured_at = none }))
request_of header read_profile = for_clone header read_profile_me
request_of header list_backups = for_clone header (backups_me 50)
request_of header stream_status = for_clone header status_me
request_of header health = public health_check
