-- ===== src/Auth/Accounts/Leftover.antt =====
-- What the removal of a user does to the user's sessions, where the name was typed otherwise.
use hashgraph.Prelude.{
  ok_inj, ◌≡◌, refl, subst, ◌∙◌, String, false, Option, none, some, string_eq, arith, if◌then◌else◌,
  ◌==◌, strip, Result, ok, err, ltb, beq_self,
}
use hashgraph.Dict.{get, has, get-put_self, get-remove}
use hashgraph.Models.{Time}
use hashgraph.Auth.Passwords.{Crypto}
use hashgraph.Auth.Sessions.{SessionRecord, create_session, get_session, revoke_user}
use hashgraph.Auth.Sessions.Owners.{get-revoke_user}
use hashgraph.Auth.Users.{
  Accounts, UserRow, AccountError, account_name, delete_user, remove_user, authenticate,
}
use hashgraph.Auth.Accounts.{resolve_session, signed_in, handle_login}

-- Whether or not there is such a user, the session stays.
still_there :
    (u token : String) (session : SessionRecord) (a : Accounts)
    → get token a.sessions ≡ some session
    → get token (revoke_user u a.sessions).1 ≡ some session
    → get token (if has u a.users then (revoke_user u a.sessions).1 else a.sessions) ≡ some session
still_there u token session a h k = ground arith

resolve_session_found :
    (now : Time) (token : String) (session : SessionRecord) (a : Accounts)
    → (token == "") ≡ false
    → get token a.sessions ≡ some session
    → ltb session.expires_at now ≡ false
    → (resolve_session now (some token) a).0 ≡ some session
unfolding resolve_session get_session
resolve_session_found now token session a l k m = ground arith

module _ (crypto : Crypto) (lower : String → String) (later : Time → Time) where
  -- The session that a sign-in opens, and what it finds.
  abbrev pub IsOpened : String → Time → String → SessionRecord → Accounts → Type 0
  IsOpened token now username session after =
      (get token after.sessions ≡ some session)
      × (session.username ≡ username)
      × (session.expires_at ≡ later now)

  signed_in-IsOpened :
      (token : String) (now : Time) (username : String) (a : Accounts)
      (user : Result AccountError (Option UserRow)) (session : SessionRecord) (after : Accounts)
      → signed_in crypto lower later token now username a user ≡ ok (session, after)
      → IsOpened token now username session after
  unfolding signed_in create_session
  signed_in-IsOpened token now username a (err e) session after h = cc
  signed_in-IsOpened token now username a (ok none) session after h = cc
  signed_in-IsOpened token now username a (ok (some row)) session after h =
      let q = ok_inj h in
      subst (λ (z : SessionRecord × Accounts). IsOpened token now username z.0 z.1) q
        (get-put_self token _ a.sessions, refl, refl)

  login-IsOpened :
      (token : String) (now : Time) (name password : String) (a after : Accounts)
      (session : SessionRecord)
      → handle_login crypto lower later token now name password a ≡ ok (session, after)
      → IsOpened token now (strip name) session after
  unfolding handle_login
  login-IsOpened token now name password a after session h =
      signed_in-IsOpened token now (strip name) a
        (authenticate crypto lower (strip name) password a.users) session after (ground arith)

  -- Where the name that a user signs in with is not in lower case, the session outlives the removal of
  -- the user: it is under the name as typed, and the removal revokes those under the lower-case name.
  pub remove_user_keeps_session :
      (token : String) (now : Time) (name password : String) (a after : Accounts)
      (session : SessionRecord)
      → handle_login crypto lower later token now name password a ≡ ok (session, after)
      → (strip name == account_name crypto lower name) ≡ false
      → (token == "") ≡ false
      → ltb (later now) now ≡ false
      → (get (account_name crypto lower name) (remove_user crypto lower name after).1.users ≡ none)
        × ((resolve_session now (some token) (remove_user crypto lower name after).1).0
            ≡ some session)
  unfolding remove_user delete_user
  remove_user_keeps_session token now name password a after session h k l m =
      let u = account_name crypto lower name in
      let (stored, named, ends) = login-IsOpened token now name password a after session h in
      let kept = get-revoke_user u token session after.sessions stored (rw named k) in
      (
        get-remove u u after.users ∙ rw (beq_self u) refl,
        resolve_session_found now token session _ l (still_there u token session after stored kept)
            (rw ends m),
      )
