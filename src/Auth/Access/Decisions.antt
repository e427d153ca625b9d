-- ===== src/Auth/Access/Decisions.antt =====
-- What the two middlewares decide together.
use hashgraph.Prelude.{
  ◌≡◌, refl, sym, ◌∙◌, String, true, false, ◌||◌, ◌&&◌, not, Option, none, some, string_eq, nat_eq,
  arith, ◌==◌, contains, is_some, ltb,
}
use hashgraph.Models.{Time}
use hashgraph.Auth.Sessions.{SessionRecord}
use hashgraph.Auth.Users.{Accounts, users_count}
use hashgraph.Auth.Accounts.{resolve_session}
use hashgraph.Auth.Access.{
  HttpRequest, is_unset, key_text, handled, auth_public_paths, write_methods, is_read_path,
  hmac_auth_middleware, check_role, check_signature, without_session, with_session,
  session_auth_middleware,
}
use hashgraph.Auth.Access.Roles.{
  resolve_again, resolved_live, by_role, by_found, by_role_handled, by_session, by_session_lem,
  without_session-handled, not_logout, first_three, first_two, skip_middle,
}

module _ (hmac : String → String → String) (now : Time) where
  -- With a session, no users, or a public path, the inner middleware asks for no signature.
  hmac_open :
      (key : Option String) (request : HttpRequest) (session : Option SessionRecord) (a : Accounts)
      → (contains auth_public_paths request.path
          || (is_some (resolve_session now request.cookie a).0
              || users_count (resolve_session now request.cookie a).1.users == 0))
        ≡ true
      → (hmac_auth_middleware hmac now key request session (some a)).0 ≡ handled session
  unfolding hmac_auth_middleware
  hmac_open key request session a h =
      let (found, after) = resolve_session now request.cookie a in
      first_three (is_unset key || not (contains write_methods request.method))
        (contains auth_public_paths request.path) (is_some found || users_count after.users == 0)
        (handled session, some a) (handled session, some a) (handled session, some after)
        (check_signature (hmac (key_text key) request.body) request session, some after)
        (handled session) refl refl refl h

  resolve_session_users :
      (cookie : Option String) (a : Accounts) → (resolve_session now cookie a).1.users ≡ a.users
  unfolding resolve_session
  resolve_session_users none a = refl
  resolve_session_users (some token) a = ground arith

  check_role_lem :
      (key : Option String) (request : HttpRequest) (session : SessionRecord) (a : Accounts)
      → is_some (resolve_session now request.cookie a).0 ≡ true
      → (check_role hmac now key request session (some a)).0 ≡ by_role request session
  unfolding check_role by_role
  check_role_lem key request session a h =
      ground (arith, hmac_open key request (some session) a (ground arith))

  -- A public path, or a table without users, lets every request through.
  passes :
      (key : Option String) (request : HttpRequest) (a : Accounts)
      → (contains auth_public_paths request.path || users_count a.users == 0) ≡ true
      → (hmac_auth_middleware hmac now key request none (some a)).0 ≡ handled none
  passes key request a h = hmac_open key request none a (
      skip_middle (contains auth_public_paths request.path)
        (is_some (resolve_session now request.cookie a).0) _
        (rw (resolve_session_users request.cookie a) h))

  with_session_lem :
      (key : Option String) (request : HttpRequest) (a : Accounts) (found : Option SessionRecord)
      → (resolve_session now request.cookie a).0 ≡ found
      → (with_session hmac now key request found (some (resolve_session now request.cookie a).1)).0
        ≡ by_found request found
  unfolding with_session by_found
  with_session_lem key request a none h = refl
  with_session_lem key request a (some session) h =
      check_role_lem key request session (resolve_session now request.cookie a).1
        (resolve_again now request.cookie session a h)

  -- Neither the key nor the signature is read.
  session_auth_middleware_lem :
      (key : Option String) (request : HttpRequest) (a : Accounts)
      → (session_auth_middleware hmac now key request (some a)).0
        ≡ by_session request (users_count a.users == 0) (resolve_session now request.cookie a).0
  unfolding session_auth_middleware by_session
  session_auth_middleware_lem key request a =
      first_two (contains auth_public_paths request.path) (users_count a.users == 0)
        (hmac_auth_middleware hmac now key request none (some a)) _ (handled none) _
        (passes key request a)
        (with_session_lem key request a (resolve_session now request.cookie a).0 refl)

  -- Whatever key is set and whatever signature and body a request carries, the two middlewares decide
  -- the same about it.
  pub signature_is_not_read :
      (key key' : Option String) (request : HttpRequest) (provided' body' : String) (a : Accounts)
      → (session_auth_middleware hmac now key request (some a)).0
        ≡ (session_auth_middleware hmac now key'
            (record request { provided = provided'; body = body' })
            (some a)).0
  unfolding by_session by_found by_role without_session
  signature_is_not_read key key' request provided' body' a =
      session_auth_middleware_lem key request a
      ∙ sym (
          session_auth_middleware_lem key' (record request { provided = provided'; body = body' })
            a)

  -- With users in the table, a path that is not public is served only with a session that is live at
  -- that instant; one of a role other than admin only reads, and gets only the paths of a viewer.
  pub handled_with_session :
      (key : Option String) (request : HttpRequest) (a : Accounts) (served : Option SessionRecord)
      → (users_count a.users == 0) ≡ false
      → contains auth_public_paths request.path ≡ false
      → (session_auth_middleware hmac now key request (some a)).0 ≡ handled served
      → (session : SessionRecord) × (served ≡ some session)
        × ((resolve_session now request.cookie a).0 ≡ some session)
        × (ltb session.expires_at now ≡ false)
        × ((session.role == "admin"
              || not (contains write_methods request.method)
                && (not (request.method == "GET") || is_read_path request.path))
            ≡ true)
  unfolding by_found
  handled_with_session key request a served h k l =
      go (resolve_session now request.cookie a).0 refl (
        sym (by_session_lem request (users_count a.users == 0) _ h k)
        ∙ sym (session_auth_middleware_lem key request a)
        ∙ l)
    where
      go :
          (found : Option SessionRecord)
          → (resolve_session now request.cookie a).0 ≡ found
          → by_found request found ≡ handled served
          → (session : SessionRecord) × (served ≡ some session)
            × (found ≡ some session)
            × (ltb session.expires_at now ≡ false)
            × ((session.role == "admin"
                  || not (contains write_methods request.method)
                    && (not (request.method == "GET") || is_read_path request.path))
                ≡ true)
      go none q d = elim (without_session-handled request served d) [ ]
      go (some session) q d =
          let (same, role) = by_role_handled request session served (not_logout request.path k) d in
          (session, same, refl, resolved_live now request.cookie session a q, role)
