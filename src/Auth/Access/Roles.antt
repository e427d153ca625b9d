-- ===== src/Auth/Access/Roles.antt =====
-- What a role may do, and the decision on a request without regard to a signature.
use hashgraph.Prelude.{
  ◌≡◌, ◌≢◌, refl, String, Bool, true, false, ◌||◌, ◌&&◌, not, Option, none, some, string_eq, nat_eq,
  arith, if◌then◌else◌, ◌==◌, contains, is_some, ltb,
}
use hashgraph.Models.{Time}
use hashgraph.Auth.Sessions.{SessionRecord, get_session}
use hashgraph.Auth.Users.{Accounts}
use hashgraph.Auth.Accounts.{resolve_session}
use hashgraph.Auth.Access.{
  HttpRequest, Outcome, admin_required, not_permitted, handled, auth_public_paths, write_methods,
  is_read_path, without_session,
}

-- A session that is found is found again at the same instant.
pub resolve_again :
    (now : Time) (cookie : Option String) (session : SessionRecord) (a : Accounts)
    → (resolve_session now cookie a).0 ≡ some session
    → is_some (resolve_session now cookie (resolve_session now cookie a).1).0 ≡ true
unfolding resolve_session get_session
resolve_again now none session a h = cc
resolve_again now (some token) session a h = ground arith

pub resolved_live :
    (now : Time) (cookie : Option String) (session : SessionRecord) (a : Accounts)
    → (resolve_session now cookie a).0 ≡ some session
    → ltb session.expires_at now ≡ false
unfolding resolve_session get_session
resolved_live now none session a h = cc
resolved_live now (some token) session a h = ground arith

-- What a role may do, without regard to a signature.
unfoldable pub by_role : HttpRequest → SessionRecord → Outcome
by_role request session =
    if not (session.role == "admin")
      && (contains write_methods request.method && not (request.path == "/auth/logout"))
    then admin_required
    else if not (session.role == "admin")
        && (request.method == "GET" && not (is_read_path request.path))
    then not_permitted
    else handled (some session)

unfoldable pub by_found : HttpRequest → Option SessionRecord → Outcome
unfolding by_role without_session
by_found request none = without_session request
by_found request (some session) = by_role request session

pub role_cases :
    (admin write logout reading read : Bool) (session : SessionRecord)
    (served : Option SessionRecord)
    → logout ≡ false
    → (if not admin && (write && not logout)
        then admin_required
        else if not admin && (reading && not read)
        then not_permitted
        else handled (some session))
      ≡ handled served
    → (served ≡ some session) × ((admin || not write && (not reading || read)) ≡ true)
role_cases admin write logout reading read session served h k = (ground arith, ground arith)

-- The session and the role of a request that is served.
pub by_role_handled :
    (request : HttpRequest) (session : SessionRecord) (served : Option SessionRecord)
    → (request.path == "/auth/logout") ≡ false
    → by_role request session ≡ handled served
    → (served ≡ some session)
      × ((session.role == "admin"
            || not (contains write_methods request.method)
              && (not (request.method == "GET") || is_read_path request.path))
          ≡ true)
unfolding by_role
by_role_handled request session served h k =
    role_cases (session.role == "admin") (contains write_methods request.method)
      (request.path == "/auth/logout") (request.method == "GET") (is_read_path request.path) session
      served h k

-- The decision by path, users and session.
unfoldable pub by_session : HttpRequest → Bool → Option SessionRecord → Outcome
unfolding by_found
by_session request free found =
    if contains auth_public_paths request.path || free then handled none else by_found request found

pub by_session_lem :
    (request : HttpRequest) (free : Bool) (found : Option SessionRecord)
    → free ≡ false
    → contains auth_public_paths request.path ≡ false
    → by_session request free found ≡ by_found request found
unfolding by_session
by_session_lem request free found h k = rw (by_session, h, k) refl

-- Without a session nothing is served.
pub without_session-handled :
    (request : HttpRequest) (served : Option SessionRecord)
    → without_session request ≢ handled served
unfolding without_session
without_session-handled request served h = ground arith

pub not_logout :
    (path : String) → contains auth_public_paths path ≡ false → (path == "/auth/logout") ≡ false
unfolding contains
not_logout path h =
    ground (arith, string_eq.beq_iff path "/auth/logout", string_eq.beq_iff "/auth/logout" path)

-- The first three of four choices agree.
pub first_three :
    (b c d : Bool) (x y z w : Outcome × Option Accounts) (o : Outcome)
    → x.0 ≡ o
    → y.0 ≡ o
    → z.0 ≡ o
    → (c || d) ≡ true
    → (if b then x else if c then y else if d then z else w).0 ≡ o
first_three true c d x y z w o p q r h = p
first_three false true d x y z w o p q r h = q
first_three false false true x y z w o p q r h = r
first_three false false false x y z w o p q r h = cc

-- The first two of three choices are one.
pub first_two :
    (c d : Bool) (x z : Outcome × Option Accounts) (o p : Outcome)
    → ((c || d) ≡ true → x.0 ≡ o)
    → z.0 ≡ p
    → (if c then x else if d then x else z).0 ≡ (if c || d then o else p)
first_two true d x z o p h k = h refl
first_two false true x z o p h k = h refl
first_two false false x z o p h k = k

-- Of three tests the middle one is not needed.
pub skip_middle : (b c d : Bool) → (b || d) ≡ true → (b || (c || d)) ≡ true
skip_middle b c d h = ground arith
