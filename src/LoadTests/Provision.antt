-- ===== src/LoadTests/Provision.antt =====
-- loadtests/provision.py: the accounts of a load test. `post` is `requests.post` to the host, which
-- may raise, for the account of an index. The pool sends up to four requests at a time; here they
-- go out one after the other, in the order of the given indices.
pub mod Register
pub mod Accounts
use mycelium_consciousness.Prelude.{
  ℕ, zero, suc, Text, codes, List, [], ◌∷◌, ◌++◌, Option, none, some, str_of, ◌==◌, if◌then◌else◌,
}
use mycelium_consciousness.Effects.{Exec, pure, raise, system_exit, ◌>>=◌}
use mycelium_consciousness.Accounts.{RegisterRequest, LoginRequest}
use mycelium_consciousness.Api.{Public, register_account, Response}

abbrev load_password : Text
load_password = codes "load-test-password-1"

-- f"load-{run_id}-{index}"
load_name : (run_id : Text) (index : ℕ) → Text
load_name run_id index = codes "load-" ++ (run_id ++ (codes "-" ++ str_of index))

pub load_account : (run_id : Text) (index : ℕ) → LoginRequest
unfolding load_name
load_account run_id index = record {
  email = load_name run_id index ++ codes "@loadtest.example.com";
  password = load_password;
}

pub load_request : (run_id : Text) (index : ℕ) → RegisterRequest
unfolding load_name load_account
load_request run_id index = record {
  email = (load_account run_id index).email;
  password = load_password;
  designation = load_name run_id index;
}

-- `r for r in results if r`
abbrev pub with_account : Option LoginRequest → List LoginRequest → List LoginRequest
with_account none accounts = accounts
with_account (some a) accounts = a ∷ accounts

pub range : (start count : ℕ) → List ℕ
range start zero = []
range start (suc n) = start ∷ range (suc start) n

module _ {W : Type 0} (post : ℕ → Public → Exec W Response) (run_id : Text) where
  abbrev pub if_created : ℕ → Response → Option LoginRequest
  if_created index response =
      if response.status_code == 201 then some (load_account run_id index) else none

  unfoldable pub register : ℕ → Exec W (Option LoginRequest)
  unfolding load_request load_account
  register index = do
    response ← post index (register_account (load_request run_id index))
    pure (if_created index response)

  -- The accounts of `main`.
  pub register_all : List ℕ → Exec W (List LoginRequest)
  unfolding register
  register_all [] = pure []
  register_all (index ∷ indices) = do
    account ← register index
    accounts ← register_all indices
    pure (with_account account accounts)

  abbrev pub if_any : List LoginRequest → Exec W (List LoginRequest)
  if_any [] = raise (system_exit 1)
  if_any (a ∷ accounts) = pure (a ∷ accounts)

  -- `main`, with what it has written to the file.
  unfoldable pub main : (count : ℕ) → Exec W (List LoginRequest)
  unfolding register_all range
  main count = do accounts ← register_all (range 0 count); if_any accounts
