-- ===== src/LoadTests/Locust/Acts.antt =====
-- What the API answers to the acts of a user of a load test.
use mycelium_consciousness.Prelude.{
  Text, Bool, true, List, [], ◌∷◌, Option, some, ◌≡◌, refl, All, any, find, Bool-cases, inl, inr,
}
use mycelium_consciousness.Effects.{ok}
use mycelium_consciousness.Services.{Services}
use mycelium_consciousness.Models.{User, CloneProfile}
use mycelium_consciousness.Database.{World}
use mycelium_consciousness.Deps.{current_clone, own_profile, get_own_profile, owned_by}
use mycelium_consciousness.Profiles.{read_own_profile}
use mycelium_consciousness.Memories.{list_own_backups, valid_limit}
use mycelium_consciousness.Api.{Context, handle, handle_public, handle_clone, respond}
use mycelium_consciousness.LoadTests.Locust.{Act, read_profile, list_backups, health, request_of}

find_of_any :
    (p : CloneProfile → Bool) (ps : List CloneProfile)
    → any p ps ≡ true
    → (q : CloneProfile) × (find p ps ≡ some q)
find_of_any p [] h = cc
find_of_any p (q ∷ ps) h = elim (Bool-cases (p q)) [
  | inl here ↦ (q, rw here refl)
  | inr there ↦ let (r, e) = find_of_any p ps (rw there at h) in (r, rw there e)
]

-- The acts that Redis has no part in.
abbrev table_acts : List Act
table_acts = read_profile ∷ list_backups ∷ health ∷ []

module _ {s : Services} (c : Context s) (header : Option Text) (w : World s) where
  abbrev pub Served : Type 0
  Served = All (λ act. (handle c (request_of header act) w).0.status_code ≡ 200) table_acts

  own_profile-Served :
      (profile : CloneProfile) → own_profile s.jwt c.now header w.db ≡ ok profile → Served
  unfolding handle handle_public handle_clone respond request_of read_own_profile list_own_backups
      valid_limit
  own_profile-Served profile own = rw own (refl, (refl, (refl, tt)))

  -- A clone that has a profile is answered.
  pub current_clone-Served :
      (user : User)
      → current_clone s.jwt c.now header w.db ≡ ok user
      → any (owned_by user.id) w.db.profiles ≡ true
      → Served
  unfolding own_profile get_own_profile
  current_clone-Served user known has =
      let (profile, found) = find_of_any (owned_by user.id) w.db.profiles has in
      own_profile-Served profile (rw (known, found) refl)
