-- ===== src/Tests/Accounts.antt =====
-- Runs of the theorems on passwords, accounts and access to the API.
use hashgraph.Prelude.{
  ◌+◌, ◌≡◌, refl, String, true, false, ◌||◌, ◌&&◌, not, none, some, List, [], ◌∷◌, string_eq,
  nat_eq, list_eq, if◌then◌else◌, ◌==◌, ok, contains, any, ltb, decimal, strip,
}
use hashgraph.Dict.{get, has, put}
use hashgraph.Models.{Time}
use hashgraph.Auth.Passwords.{Bytes, Crypto, cut, hash_password, verify_password}
use hashgraph.Auth.Passwords.Roundtrip.{verify_password-hash_password}
use hashgraph.Auth.Sessions.{SessionRecord, get_session, create_session, normalize_role}
use hashgraph.Auth.Sessions.Owners.{belongs}
use hashgraph.Auth.Users.{Accounts, users_count, account_name, authenticate, remove_user, get_user}
use hashgraph.Auth.Accounts.{resolve_session, handle_login, signed_in}
use hashgraph.Auth.Accounts.Removal.{
  Request, log_in, users_add, resolve, serve_all, removed_user_stays_out,
}
use hashgraph.Auth.Accounts.Leftover.{remove_user_keeps_session}
use hashgraph.Auth.Access.{
  HttpRequest, write_methods, is_read_path, session_auth_middleware, with_session, check_role,
  hmac_auth_middleware,
}
use hashgraph.Auth.Access.Decisions.{signature_is_not_read, handled_with_session}

abbrev ones : Bytes
ones =
    1 ∷ 1 ∷ 1 ∷ 1 ∷ 1 ∷ 1 ∷ 1 ∷ 1 ∷ 1 ∷ 1 ∷ 1 ∷ 1 ∷ 1 ∷ 1 ∷ 1 ∷ 1 ∷ 1 ∷ 1 ∷ 1 ∷ 1 ∷ 1 ∷ 1 ∷ 1 ∷ 1
    ∷ 1 ∷ 1 ∷ 1 ∷ 1 ∷ 1 ∷ 1 ∷ 1 ∷ 1 ∷ []

abbrev salt : Bytes
salt = 7 ∷ []

-- Every password but "secret" derives the empty key.
abbrev crypto : Crypto
crypto = record {
  scrypt = λ password salt n r p dklen. some (if password == "secret" then ones else []);
  b64encode = λ b. if b == salt then "s" else "k";
  b64decode = λ s. if s == "s" then some salt else some ones;
  int_of = λ s. if s == "16384" then some 16384 else if s == "8" then some 8 else some 1;
}

verify_password-hash_password_example :
    (stored : String) × (hash_password crypto salt "secret" ≡ ok stored)
    × (verify_password crypto "other" stored ≡ ok ([] == ones))
    × (verify_password crypto "secret" stored ≡ ok true)
unfolding cut decimal
verify_password-hash_password_example =
    verify_password-hash_password crypto salt ones
      (record {
        salt_back = refl;
        key_back = refl;
        salt_plain = refl;
        n_read = refl;
        r_read = refl;
        p_read = refl;
        key_length = refl;
      })
      "secret" "other" [] refl refl refl

-- str.lower on the names of the samples
abbrev lower : String → String
lower s = if s == "Admin" then "admin" else s

abbrev later : Time → Time
later now = now + 28800

abbrev secret_hash : String
secret_hash = "scrypt$16384$8$1$s$k"

abbrev session : SessionRecord
session = record {
  token = "t";
  username = "admin";
  role = "admin";
  created_at = 5;
  expires_at = 28805;
}

abbrev accounts : Accounts
accounts = record {
  users = ("admin", record { password_hash = secret_hash; role = "admin"; created_at = 1 }) ∷ [];
  sessions = ("t", session) ∷ [];
}

abbrev requests : List Request
requests =
    log_in "u" 6 "admin" "secret"
    ∷ resolve 7 (some "t")
    ∷ users_add salt 8 "bob" "secret" "viewer"
    ∷ []

removed_user_stays_out_example :
    (authenticate crypto lower "admin" "secret"
        (serve_all crypto lower later requests (remove_user crypto lower "admin" accounts).1).users
      ≡ ok none)
    × (belongs "admin"
          (resolve_session 9
            (some "t")
            (serve_all crypto lower later requests (remove_user crypto lower "admin" accounts).1)).0
        ≡ false)
unfolding account_name has any strip
removed_user_stays_out_example =
    removed_user_stays_out crypto lower later "admin" accounts requests "secret" 9 (some "t") refl
      refl refl

abbrev typed : SessionRecord
typed = record session { token = "v"; username = "Admin" }

abbrev signed : Accounts
signed = record accounts { sessions = ("t", session) ∷ ("v", typed) ∷ [] }

remove_user_keeps_session_example :
    (get (account_name crypto lower "Admin") (remove_user crypto lower "Admin" signed).1.users
      ≡ none)
    × ((resolve_session 5 (some "v") (remove_user crypto lower "Admin" signed).1).0 ≡ some typed)
unfolding account_name handle_login signed_in authenticate get_user get create_session
    normalize_role put verify_password strip
remove_user_keeps_session_example =
    remove_user_keeps_session crypto lower later "v" 5 "Admin" "secret" accounts signed typed refl
      refl refl refl

abbrev request : HttpRequest
request = record {
  method = "GET";
  path = "/metrics";
  cookie = some "t";
  accept = "";
  provided = "";
  body = "";
}

abbrev hmac : String → String → String
hmac key body = key

signature_is_not_read_example :
    (session_auth_middleware hmac 9 (some "key") request (some accounts)).0
    ≡ (session_auth_middleware hmac 9 none
        (record request { provided = "x"; body = "y" })
        (some accounts)).0
signature_is_not_read_example =
    signature_is_not_read hmac 9 (some "key") none request "x" "y" accounts

handled_with_session_example :
    (found : SessionRecord) × (some session ≡ some found)
    × ((resolve_session 9 (some "t") accounts).0 ≡ some found)
    × (ltb found.expires_at 9 ≡ false)
    × ((found.role == "admin"
          || not (contains write_methods request.method)
            && (not (request.method == "GET") || is_read_path request.path))
        ≡ true)
unfolding users_count contains session_auth_middleware resolve_session get_session get with_session
    check_role hmac_auth_middleware
handled_with_session_example =
    handled_with_session hmac 9 (some "key") request accounts (some session) refl refl refl
