-- ===== src/Auth/Accounts.antt =====
-- The requests on accounts (mdrj/api.py `handle_login`, `handle_logout`, `handle_users_add`,
-- `handle_users_remove` and `_resolve_session`).
pub mod Removal
pub mod Leftover
use hashgraph.Prelude.{
  ℕ, ◌≡◌, String, Bool, true, false, ◌||◌, Option, none, some, List, [], ◌∷◌, string_eq,
  if◌then◌else◌, ◌==◌, strip, Result, ok, err, ◌>>=◌,
}
use hashgraph.Dict.{Dict}
use hashgraph.Models.{Time}
use hashgraph.Auth.Passwords.{Bytes, Crypto}
use hashgraph.Auth.Sessions.{Sessions, SessionRecord, create_session, get_session, revoke}
use hashgraph.Auth.Users.{
  Accounts, AccountError, bad_request, unauthorized, UserRow, add_user, remove_user, authenticate,
}

-- The session of the cookie, and the store, from which an expired session goes.
unfoldable pub resolve_session : Time → Option String → Accounts → Option SessionRecord × Accounts
resolve_session now none accounts = (none, accounts)
resolve_session now (some token) accounts =
    if token == ""
    then (none, accounts)
    else (let (session, sessions) = get_session now token accounts.sessions in
        (session, record accounts { sessions = sessions }))

module _ (crypto : Crypto) (lower : String → String) (later : Time → Time) where
  -- The session of a user whose password is accepted.
  unfoldable pub signed_in :
      String
      → Time
      → String
      → Accounts
      → Result AccountError (Option UserRow)
      → Result AccountError (SessionRecord × Accounts)
  signed_in token now username accounts (err e) = err e
  signed_in token now username accounts (ok none) = err unauthorized
  signed_in token now username accounts (ok (some row)) =
      let (session, sessions) =
        create_session lower later token now username row.role accounts.sessions in
      ok (session, record accounts { sessions = sessions })

  -- The arguments are the new token, the time, and the two texts of the request.
  unfoldable pub handle_login :
      String → Time → String → String → Accounts → Result AccountError (SessionRecord × Accounts)
  unfolding signed_in
  handle_login token now raw_username password accounts =
      let username = strip raw_username in
      if (username == "") || (password == "")
      then err bad_request
      else signed_in token now username accounts
          (authenticate crypto lower username password accounts.users)

  unfoldable pub handle_logout : Option String → Accounts → Accounts
  handle_logout none accounts = accounts
  handle_logout (some token) accounts =
      if token == ""
      then accounts
      else record accounts { sessions = revoke token accounts.sessions }

  unfoldable pub handle_users_add :
      Bytes → Time → String → String → String → Accounts → Result AccountError Accounts
  handle_users_add salt now raw_username password role accounts =
      let username = strip raw_username in
      if (username == "") || (password == "")
      then err bad_request
      else add_user crypto lower salt now username password role accounts

  unfoldable pub handle_users_remove : String → Accounts → Result AccountError (Bool × Accounts)
  handle_users_remove raw_username accounts =
      let username = strip raw_username in
      if username == "" then err bad_request else ok (remove_user crypto lower username accounts)
