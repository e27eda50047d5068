-- ===== src/Profiles/Access.antt =====
-- Who may read and change a profile.
use mycelium_consciousness.Prelude.{
  ℕ, Text, Bool, true, false, ◌&&◌, ◌==◌, ==→eq, ap, none, ◌||◌, List, [], ◌∷◌, Option, some, ◌≡◌,
  ◌↔◌, ◌⊎◌, inl, inr, refl, arith, select, length, Bool-cases, ◌∙◌,
}
use mycelium_consciousness.Effects.{ok, err, Result}
use mycelium_consciousness.Effects.Binds.{lift-ends}
use mycelium_consciousness.Services.{Services}
use mycelium_consciousness.Subscriptions.{UserRole, admin, clone}
use mycelium_consciousness.Models.{User, CloneProfile}
use mycelium_consciousness.Database.{Db, World, get_profile}
use mycelium_consciousness.Deps.{owned_by, same_role, get_current_user}
use mycelium_consciousness.Deps.Guards.{IsAuthenticated, get_current_user-IsAuthenticated}
use mycelium_consciousness.Profiles.{
  insert_by_id, by_id, visible_profiles, load_accessible, assert_can_access, update_profile,
  apply_update, current_user, load, ProfileUpdateRequest,
}

-- An administrator may use any profile, and a clone its own.
abbrev accessible : User → CloneProfile → Bool
accessible user p = same_role user.role admin || owned_by user.id p

count-insert_by_id :
    (q : CloneProfile → Bool) (p : CloneProfile) (ps : List CloneProfile)
    → length (select q (insert_by_id p ps)) ≡ length (select q (p ∷ ps))
unfolding insert_by_id
count-insert_by_id q p [] = refl
count-insert_by_id q p (r ∷ ps) = ground (arith, count-insert_by_id q p ps)

count-by_id :
    (q : CloneProfile → Bool) (ps : List CloneProfile)
    → length (select q (by_id ps)) ≡ length (select q ps)
unfolding by_id
count-by_id q [] = refl
count-by_id q (p ∷ ps) = ground (arith, count-insert_by_id q p (by_id ps), count-by_id q ps)

count-owned :
    (q r : CloneProfile → Bool) (ps : List CloneProfile)
    → length (select q (select r ps)) ≡ length (select (λ p. q p && r p) ps)
count-owned q r [] = refl
count-owned q r (p ∷ ps) = ground (arith, count-owned q r ps)

count-all :
    (q : CloneProfile → Bool) (ps : List CloneProfile)
    → length (select q ps) ≡ length (select (λ p. q p && true) ps)
count-all q [] = refl
count-all q (p ∷ ps) = ground (arith, count-all q ps)

-- The listing of a user's profiles has exactly the profiles that the user may use, each as often
-- as the table has it.
visible_profiles-accessible :
    (user : User) (db : Db) (q : CloneProfile → Bool)
    → length (select q (visible_profiles user db))
      ≡ length (select (λ p. q p && accessible user p) db.profiles)
unfolding visible_profiles
visible_profiles-accessible user db q = elim (Bool-cases (same_role user.role admin)) [
  | inl h ↦ rw h (count-by_id q db.profiles ∙ count-all q db.profiles)
  | inr h ↦ rw h (
      count-by_id q (select (owned_by user.id) db.profiles)
      ∙ count-owned q (owned_by user.id) db.profiles)
]

-- A profile is handed out exactly if it has the id that was asked for, and the user is an
-- administrator or the profile's owner.
load_accessible_iff :
    (profile_id : ℕ) (user : User) (db : Db) (p : CloneProfile)
    → (load_accessible profile_id user db ≡ ok p)
      ↔ ((get_profile profile_id db ≡ some p) × (accessible user p ≡ true))
unfolding load_accessible assert_can_access
load_accessible_iff profile_id user db p = (λ h. ground arith, λ (g, a). ground arith)

role_or_owner :
    (role : UserRole) (owner : Option ℕ) (id : ℕ)
    → (same_role role admin || elim owner [ none ↦ false | some u ↦ u == id ]) ≡ true
    → (role ≡ admin) ⊎ (owner ≡ some id)
role_or_owner admin owner id h = inl refl
role_or_owner clone none id h = cc
role_or_owner clone (some u) id h = inr (ap some (==→eq u id h))

module _ {s : Services} (now : ℕ) (credentials : Option Text) (profile_id : ℕ)
    (payload : ProfileUpdateRequest) where
  -- An authenticated user may use the profile of the id.
  abbrev pub MayUse : World s → Type 0
  MayUse w =
      (user : User) × (old : CloneProfile) × IsAuthenticated s.jwt now credentials w.db user
      × (get_profile profile_id w.db ≡ some old)
      × ((user.role ≡ admin) ⊎ (old.user_id ≡ some user.id))

  -- Nothing at all has changed, or the user may use the profile, as whom alone an update succeeds.
  abbrev pub IsAllowed : World s → Result CloneProfile × World s → Type 0
  IsAllowed w (err e, w') = (w' ≡ w) ⊎ MayUse w
  IsAllowed w (ok p, w') = MayUse w

  allowed :
      (w : World s) (user : User) (old : CloneProfile) (r : Result CloneProfile × World s)
      → IsAuthenticated s.jwt now credentials w.db user
      → (get_profile profile_id w.db ≡ some old) × (accessible user old ≡ true)
      → IsAllowed w r
  allowed w user old (ok p, w') authenticated (row, may) =
      (user, old, authenticated, row, role_or_owner user.role old.user_id user.id may)
  allowed w user old (err e, w') authenticated (row, may) =
      inr (user, old, authenticated, row, role_or_owner user.role old.user_id user.id may)

  -- An update of a profile by its id succeeds, and changes anything at all even where it raises,
  -- only for an authenticated user that is an administrator or the owner of that profile.
  pub update_profile-IsAllowed :
      (w : World s) → IsAllowed w (update_profile now credentials profile_id payload w)
  unfolding update_profile current_user load
  update_profile-IsAllowed w =
      lift-ends (IsAllowed w) _ (get_current_user s.jwt now credentials w.db) w (λ e h. inl refl)
        (λ user h.
          lift-ends (IsAllowed w) _ (load_accessible profile_id user w.db) w (λ e h'. inl refl)
            (λ profile h'.
              allowed w user profile (apply_update profile payload w)
                (get_current_user-IsAuthenticated s.jwt now credentials w.db user h)
                ((load_accessible_iff profile_id user w.db profile).0 h')))
