-- ===== src/Auth/Access.antt =====
-- The two middlewares of the HTTP API (mdrj/api.py `session_auth_middleware` and
-- `hmac_auth_middleware`, composed by `build_app`). A request is served at one instant `now`; `hmac`
-- is the hexadecimal HMAC-SHA256 of the standard library, and a missing header reads as "".
pub mod Roles
pub mod Decisions
use text.Mathlib.Text.{starts_with}
use hashgraph.Prelude.{
  ℕ, ◌≡◌, String, Bool, true, false, ◌||◌, ◌&&◌, not, Option, none, some, List, [], ◌∷◌, string_eq,
  nat_eq, if◌then◌else◌, ◌==◌, contains, is_some, leb,
}
use Prim.Native.String.{find, len}
use hashgraph.Models.{Time}
use hashgraph.Auth.Sessions.{SessionRecord}
use hashgraph.Auth.Users.{Accounts, users_count}
use hashgraph.Auth.Accounts.{resolve_session}

pub record HttpRequest : Type 0 where
  pub method : String
  pub path : String
  pub cookie : Option String
  pub accept : String
  pub provided : String
  pub body : String

-- The handler runs, with the session that the request carries if one was set; or the request is
-- redirected to the login page; or it is refused.
pub data Outcome : Type 0 where
  handled : Option SessionRecord → Outcome
  to_login missing_signature invalid_signature login_required admin_required not_permitted : Outcome

abbrev pub auth_public_paths : List String
auth_public_paths =
    "/auth/login" ∷ "/auth/logout" ∷ "/status" ∷ "/event/batch" ∷ "/gossip/frontier"
    ∷ "/checkpoint/propose" ∷ []

abbrev pub write_methods : List String
write_methods = "POST" ∷ "PUT" ∷ "DELETE" ∷ "PATCH" ∷ []

abbrev pub viewer_read_paths : List String
viewer_read_paths =
    "/dag" ∷ "/dag/frontier" ∷ "/metrics" ∷ "/metrics/prometheus" ∷ "/metrics/history" ∷ "/peers"
    ∷ "/incidents" ∷ "/viz" ∷ "/viz/graph" ∷ "/viz/stream" ∷ "/checkpoint/list"
    ∷ "/checkpoint/verify" ∷ "/auth/me" ∷ "/notifier/status" ∷ "/catalog" ∷ []

-- An application without a node has no sessions.
abbrev pub find_session :
    Time → HttpRequest → Option Accounts → Option SessionRecord × Option Accounts
find_session now request none = (none, none)
find_session now request (some accounts) =
    let (session, after) = resolve_session now request.cookie accounts in (session, some after)

-- node is not None and node.storage.users_count() == 0
abbrev pub is_open : Option Accounts → Bool
is_open none = false
is_open (some accounts) = users_count accounts.users == 0

-- not hmac_key
abbrev pub is_unset : Option String → Bool
is_unset none = true
is_unset (some key) = key == ""

abbrev pub key_text : Option String → String
key_text none = ""
key_text (some key) = key

-- `signed` is the signature that the body should have.
unfoldable pub check_signature : String → HttpRequest → Option SessionRecord → Outcome
check_signature signed request session =
    if request.provided == ""
    then missing_signature
    else if request.provided == signed
    then handled session
    else invalid_signature

-- "text/html" in accept
abbrev pub accepts_html : String → Bool
accepts_html accept = leb (find accept "text/html") (len accept)

abbrev pub is_read_path : String → Bool
is_read_path path =
    contains viewer_read_paths path
    || (starts_with path "/static/" || (path == "/gossip/frontier" || starts_with path "/events/"))

unfoldable pub without_session : HttpRequest → Outcome
without_session request =
    if accepts_html request.accept && request.method == "GET" then to_login else login_required

module _ (hmac : String → String → String) (now : Time) (hmac_key : Option String) where
  -- `session` is what the middleware around it has set on the request.
  unfoldable pub hmac_auth_middleware :
      HttpRequest → Option SessionRecord → Option Accounts → Outcome × Option Accounts
  unfolding check_signature
  hmac_auth_middleware request session node =
      let (found, after) = find_session now request node in
      if is_unset hmac_key || not (contains write_methods request.method)
      then (handled session, node)
      else if contains auth_public_paths request.path
      then (handled session, node)
      else if is_some found || is_open after
      then (handled session, after)
      else (check_signature (hmac (key_text hmac_key) request.body) request session, after)

  -- The decision on a request that has a session.
  unfoldable pub check_role :
      HttpRequest → SessionRecord → Option Accounts → Outcome × Option Accounts
  unfolding hmac_auth_middleware
  check_role request session node =
      if not (session.role == "admin")
        && (contains write_methods request.method && not (request.path == "/auth/logout"))
      then (admin_required, node)
      else if not (session.role == "admin")
          && (request.method == "GET" && not (is_read_path request.path))
      then (not_permitted, node)
      else hmac_auth_middleware request (some session) node

  -- What follows the lookup of the session.
  unfoldable pub with_session :
      HttpRequest → Option SessionRecord → Option Accounts → Outcome × Option Accounts
  unfolding check_role without_session
  with_session request none node = (without_session request, node)
  with_session request (some session) node = check_role request session node

  unfoldable pub session_auth_middleware : HttpRequest → Option Accounts → Outcome × Option Accounts
  unfolding hmac_auth_middleware with_session
  session_auth_middleware request none = hmac_auth_middleware request none none
  session_auth_middleware request (some accounts) =
      let (found, after) = find_session now request (some accounts) in
      if contains auth_public_paths request.path
      then hmac_auth_middleware request none (some accounts)
      else if is_open (some accounts)
      then hmac_auth_middleware request none (some accounts)
      else with_session request found after
