-- ===== src/Auth/Users.antt =====
-- The table of users (mdrj/storage.py `upsert_user`, `get_user`, `delete_user`, `users_count`), and
-- what the node does with users and sessions (mdrj/node.py `add_user`, `remove_user`,
-- `authenticate`). `lower` is str.lower, and `salt` the random salt of a hash.
use hashgraph.Prelude.{
  ℕ, String, Bool, Option, none, some, string_eq, if◌then◌else◌, ◌==◌, strip, length, Result, ok,
  err,
}
use hashgraph.Dict.{Dict, get, put, remove, has}
use hashgraph.Models.{Time}
use hashgraph.Auth.Passwords.{Bytes, Crypto, AuthError, hash_password, verify_password}
use hashgraph.Auth.Sessions.{Sessions, normalize_role, revoke_user}

pub record UserRow : Type 0 where
  pub password_hash : String
  pub role : String
  pub created_at : Time

abbrev pub UserTable : Type 0
UserTable = Dict String UserRow

-- ON CONFLICT(username) DO UPDATE SET password_hash, role
unfoldable pub written_user : Time → String → String → Option UserRow → UserRow
written_user now password_hash role none = record {
  password_hash = password_hash;
  role = role;
  created_at = now;
}
written_user now password_hash role (some row) = record row {
  password_hash = password_hash;
  role = role;
}

unfoldable pub upsert_user : Time → String → String → String → UserTable → UserTable
unfolding written_user
upsert_user now username password_hash role users =
    put username (written_user now password_hash role (get username users)) users

unfoldable pub get_user : String → UserTable → Option UserRow
get_user username users = get username users

unfoldable pub delete_user : String → UserTable → Bool × UserTable
delete_user username users = (has username users, remove username users)

unfoldable pub users_count : UserTable → ℕ
users_count users = length users

-- What the node keeps: the users of the database, and the sessions in memory.
pub record Accounts : Type 0 where
  pub users : UserTable
  pub sessions : Sessions

pub data AccountError : Type 0 where
  username_required password_required bad_request unauthorized : AccountError
  auth : AuthError → AccountError

module _ (crypto : Crypto) (lower : String → String) where
  -- username.strip().lower()
  unfoldable pub account_name : String → String
  account_name username = lower (strip username)

  -- The user once the password is hashed.
  unfoldable pub with_hash :
      Time → String → String → Accounts → Result AuthError String → Result AccountError Accounts
  unfolding upsert_user
  with_hash now normalized role accounts (err e) = err (auth e)
  with_hash now normalized role accounts (ok password_hash) = ok (record accounts {
    users = upsert_user now normalized password_hash (normalize_role lower role) accounts.users;
  })

  unfoldable pub add_user :
      Bytes → Time → String → String → String → Accounts → Result AccountError Accounts
  unfolding account_name with_hash
  add_user salt now username password role accounts =
      let normalized = account_name username in
      if normalized == ""
      then err username_required
      else with_hash now normalized role accounts (hash_password crypto salt password)

  unfoldable pub remove_user : String → Accounts → Bool × Accounts
  unfolding account_name delete_user
  remove_user username accounts =
      let normalized = account_name username in
      let (removed, users) = delete_user normalized accounts.users in
      (
        removed,
        record {
          users = users;
          sessions =
              if removed then (revoke_user normalized accounts.sessions).1 else accounts.sessions;
        },
      )

  abbrev pub accepted : UserRow → Result AuthError Bool → Result AccountError (Option UserRow)
  accepted row (err e) = err (auth e)
  accepted row (ok valid) = ok (if valid then some row else none)

  unfoldable pub authenticate : String → String → UserTable → Result AccountError (Option UserRow)
  unfolding account_name get_user
  authenticate username password users = elim (get_user (account_name username) users) [
    | none ↦ ok none
    | some row ↦ accepted row (verify_password crypto password row.password_hash)
  ]
