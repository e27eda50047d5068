-- ===== src/Home.antt =====
-- services/api/src/api/routers/home.py
use mycelium_consciousness.Prelude.{ℕ, Text, codes, Option}
use mycelium_consciousness.Effects.{Result, ok, ◌>>?◌}
use mycelium_consciousness.Services.{Jwt}
use mycelium_consciousness.Subscriptions.{UserRole}
use mycelium_consciousness.Database.{Db}
use mycelium_consciousness.Deps.{current_admin, current_clone}

pub record HomeResponse : Type 0 where
  pub message : Text
  pub role : UserRole
  pub email : Text

unfoldable pub clone_home : Jwt → (now : ℕ) → (credentials : Option Text) → Db → Result HomeResponse
clone_home jwt now credentials db = current_clone jwt now credentials db >>? λ user. ok (record {
  message = codes "Clone console. Your memory stream is recording.";
  role = user.role;
  email = user.email;
})

unfoldable pub admin_home : Jwt → (now : ℕ) → (credentials : Option Text) → Db → Result HomeResponse
admin_home jwt now credentials db = current_admin jwt now credentials db >>? λ user. ok (record {
  message = codes "Operator console. Full clone registry access.";
  role = user.role;
  email = user.email;
})
