-- ===== src/Auth/Sessions.antt =====
-- mdrj/auth.py `SessionRecord` and `SessionStore`: the sessions in memory, by token.
pub mod Owners
use hashgraph.Prelude.{
  ℕ, ◌+◌, ◌≡◌, refl, String, Bool, true, false, ◌||◌, ◌&&◌, not, Option, none, some, List, [], ◌∷◌,
  arith, string_eq, nat_eq, if◌then◌else◌, ◌==◌, ltb, strip, keep, length, count_if, Bool-cases,
  ◌≤◌, ◌<◌,
}
use hashgraph.Dict.{Dict, get, put, remove}
use hashgraph.Models.{Time}

pub record SessionRecord : Type 0 where
  pub token : String
  pub username : String
  pub role : String
  pub created_at : Time
  pub expires_at : Time

abbrev pub Sessions : Type 0
Sessions = Dict String SessionRecord

-- `lower` is str.lower of the standard library.
unfoldable pub normalize_role : (String → String) → String → String
normalize_role lower value =
    let text = lower (strip value) in if text == "viewer" || text == "admin" then text else "viewer"

-- `token` is the new random token, and `later` adds the lifetime of a session to a time.
unfoldable pub create_session :
    (String → String)
    → (Time → Time)
    → String
    → Time
    → String
    → String
    → Sessions
    → SessionRecord × Sessions
unfolding normalize_role
create_session lower later token now username role sessions =
    let rec : SessionRecord = record {
      token = token;
      username = username;
      role = normalize_role lower role;
      created_at = now;
      expires_at = later now;
    } in
    (rec, put token rec sessions)

unfoldable pub get_session : Time → String → Sessions → Option SessionRecord × Sessions
get_session now token sessions = elim (get token sessions) [
  | none ↦ (none, sessions)
  | some rec ↦
      if ltb rec.expires_at now then (none, remove token sessions) else (some rec, sessions)
]

unfoldable pub revoke : String → Sessions → Sessions
revoke token sessions = remove token sessions

-- The number of removed sessions, and those that stay.
unfoldable pub revoke_user : String → Sessions → ℕ × Sessions
revoke_user username sessions = (
  count_if (λ e. e.1.username == username) sessions,
  keep (λ e. not (e.1.username == username)) sessions,
)

unfoldable pub prune_expired : Time → Sessions → ℕ × Sessions
prune_expired now sessions = (
  count_if (λ e. ltb e.1.expires_at now) sessions,
  keep (λ e. not (ltb e.1.expires_at now)) sessions,
)
