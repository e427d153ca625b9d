-- ===== src/Auth/Accounts/Removal.antt =====
-- What the removal of a user does to the user's sessions, over all later requests.
use hashgraph.Prelude.{
  ◌≡◌, refl, ◌∙◌, String, Bool, true, false, ◌||◌, Option, none, some, List, [], ◌∷◌, string_eq,
  arith, any, if◌then◌else◌, ◌==◌, strip, Result, ok, err, Bool-cases, inl, inr, beq_self,
}
use hashgraph.Dict.{get, has, get-put, get-remove}
use hashgraph.Models.{Time}
use hashgraph.Auth.Passwords.{AuthError, Bytes, Crypto, hash_password}
use hashgraph.Auth.Sessions.{create_session, get_session, revoke}
use hashgraph.Auth.Sessions.Owners.{
  is_free, belongs, is_free-put, is_free-remove, is_free-revoke_user, is_free_revoked, belongs-get,
}
use hashgraph.Auth.Users.{
  Accounts, username_required, with_hash, UserTable, UserRow, AccountError, bad_request,
  account_name, upsert_user, get_user, delete_user, add_user, remove_user, authenticate,
}
use hashgraph.Auth.Accounts.{
  resolve_session, signed_in, handle_login, handle_logout, handle_users_add, handle_users_remove,
}

pub data Request : Type 0 where
  log_in : String → Time → String → String → Request
  log_out : Option String → Request
  users_add : Bytes → Time → String → String → String → Request
  users_remove : String → Request
  resolve : Time → Option String → Request

abbrev state_or {ℓ} : {A : Type ℓ} → (A → Accounts) → Accounts → Result AccountError A → Accounts
state_or f a (ok r) = f r
state_or f a (err e) = a

module _ (crypto : Crypto) (lower : String → String) (later : Time → Time) where
  -- A request that is refused leaves the accounts as they are.
  unfoldable pub serve : Request → Accounts → Accounts
  serve (log_in token now username password) a =
      state_or (λ r. r.1) a (handle_login crypto lower later token now username password a)
  serve (log_out cookie) a = handle_logout crypto lower later cookie a
  serve (users_add salt now username password role) a =
      state_or (λ r. r) a (handle_users_add crypto lower later salt now username password role a)
  serve (users_remove username) a =
      state_or (λ r. r.1) a (handle_users_remove crypto lower later username a)
  serve (resolve now cookie) a = (resolve_session now cookie a).1

  unfoldable pub serve_all : List Request → Accounts → Accounts
  serve_all [] a = a
  serve_all (request ∷ requests) a = serve_all requests (serve request a)

  -- The request adds a user of this name.
  abbrev pub adds : String → Request → Bool
  adds u (users_add salt now username password role) =
      account_name crypto lower (strip username) == u
  adds u _ = false

  -- The user is not in the table, and no session is the user's.
  abbrev pub IsGone : String → Accounts → Type 0
  IsGone u a = (get u a.users ≡ none) × (is_free u a.sessions ≡ true)

  -- A guard that refuses leaves the accounts as they are.
  guarded-IsGone {ℓ} :
      {A : Type ℓ} (u : String) (a : Accounts) (f : A → Accounts) (b : Bool) (e : AccountError)
      (r : Result AccountError A)
      → IsGone u a
      → IsGone u (state_or f a r)
      → IsGone u (state_or f a (if b then err e else r))
  guarded-IsGone u a f true e r g k = g
  guarded-IsGone u a f false e r g k = k

  signed_in-IsGone :
      (u token : String) (now : Time) (username : String) (a : Accounts)
      (user : Result AccountError (Option UserRow))
      → (username == u) ≡ false
      → IsGone u a
      → IsGone u (state_or (λ r. r.1) a (signed_in crypto lower later token now username a user))
  unfolding signed_in create_session
  signed_in-IsGone u token now username a (err e) h g = g
  signed_in-IsGone u token now username a (ok none) h g = g
  signed_in-IsGone u token now username a (ok (some row)) h g =
      (g.0, is_free-put u token _ a.sessions h g.1)

  -- A user who is gone is refused.
  authenticate-gone :
      (u password : String) (users : UserTable)
      → account_name crypto lower u ≡ u
      → get u users ≡ none
      → authenticate crypto lower u password users ≡ ok none
  unfolding authenticate get_user
  authenticate-gone u password users h g = rw (authenticate, get_user, h, g) refl

  login-IsGone :
      (u token : String) (now : Time) (username password : String) (a : Accounts)
      → account_name crypto lower u ≡ u
      → IsGone u a
      → IsGone u (serve (log_in token now username password) a)
  unfolding serve handle_login
  login-IsGone u token now username password a h g =
      let name = strip username in
      let user = authenticate crypto lower name password a.users in
      guarded-IsGone u a (λ r. r.1) ((name == "") || (password == "")) bad_request
        (signed_in crypto lower later token now name a user) g
        (elim (Bool-cases (name == u)) [
          | inl own ↦
              rw ((string_eq.beq_iff name u).0 own, authenticate-gone u password a.users h g.0) g
          | inr other ↦ signed_in-IsGone u token now name a user other g
        ])

  with_hash-IsGone :
      (u v role : String) (now : Time) (a : Accounts) (hash : Result AuthError String)
      → (v == u) ≡ false
      → IsGone u a
      → IsGone u (state_or (λ r. r) a (with_hash crypto lower now v role a hash))
  unfolding with_hash upsert_user
  with_hash-IsGone u v role now a (err e) h g = g
  with_hash-IsGone u v role now a (ok hash) h g = (get-put v u _ a.users ∙ rw h g.0, g.1)

  add-IsGone :
      (u : String) (salt : Bytes) (now : Time) (username password role : String) (a : Accounts)
      → (account_name crypto lower (strip username) == u) ≡ false
      → IsGone u a
      → IsGone u (serve (users_add salt now username password role) a)
  unfolding serve handle_users_add add_user
  add-IsGone u salt now username password role a h g =
      let name = strip username in
      let added =
        with_hash crypto lower now (account_name crypto lower name) role a
          (hash_password crypto salt password) in
      guarded-IsGone u a (λ r. r) ((name == "") || (password == "")) bad_request
        (add_user crypto lower salt now name password role a) g
        (guarded-IsGone u a (λ r. r) (account_name crypto lower name == "") username_required added
          g (with_hash-IsGone u _ role now a _ h g))

  remove-IsGone :
      (u username : String) (a : Accounts) → IsGone u a → IsGone u (serve (users_remove username) a)
  unfolding serve handle_users_remove remove_user delete_user
  remove-IsGone u username a g = (
    ground (arith, g.0, get-remove (account_name crypto lower (strip username)) u a.users),
    ground
        (arith, g.1, is_free-revoke_user u (account_name crypto lower (strip username)) a.sessions),
  )

  resolve-IsGone :
      (u : String) (now : Time) (cookie : Option String) (a : Accounts)
      → IsGone u a
      → IsGone u (serve (resolve now cookie) a)
  unfolding serve resolve_session get_session
  resolve-IsGone u now none a g = g
  resolve-IsGone u now (some token) a g =
      (ground (arith, g.0), ground (arith, g.1, is_free-remove u token a.sessions))

  logout-IsGone :
      (u : String) (cookie : Option String) (a : Accounts)
      → IsGone u a
      → IsGone u (serve (log_out cookie) a)
  unfolding serve handle_logout revoke
  logout-IsGone u none a g = g
  logout-IsGone u (some token) a g =
      (ground (arith, g.0), ground (arith, g.1, is_free-remove u token a.sessions))

  serve-IsGone :
      (u : String) (request : Request) (a : Accounts)
      → account_name crypto lower u ≡ u
      → adds u request ≡ false
      → IsGone u a
      → IsGone u (serve request a)
  serve-IsGone u (log_in token now username password) a h k g =
      login-IsGone u token now username password a h g
  serve-IsGone u (log_out cookie) a h k g = logout-IsGone u cookie a g
  serve-IsGone u (users_add salt now username password role) a h k g =
      add-IsGone u salt now username password role a k g
  serve-IsGone u (users_remove username) a h k g = remove-IsGone u username a g
  serve-IsGone u (resolve now cookie) a h k g = resolve-IsGone u now cookie a g

  serve_all-IsGone :
      (u : String) (requests : List Request) (a : Accounts)
      → account_name crypto lower u ≡ u
      → any (adds u) requests ≡ false
      → IsGone u a
      → IsGone u (serve_all requests a)
  unfolding serve_all any
  serve_all-IsGone u [] a h k g = g
  serve_all-IsGone u (request ∷ requests) a h k g =
      serve_all-IsGone u requests (serve request a) h (ground arith)
        (serve-IsGone u request a h (ground arith) g)

  removed-IsGone :
      (u : String) (a : Accounts)
      → account_name crypto lower u ≡ u
      → has u a.users ≡ true
      → IsGone u (remove_user crypto lower u a).1
  unfolding remove_user delete_user
  removed-IsGone u a h k =
      rw (h, k) (get-remove u u a.users ∙ rw (beq_self u) refl, is_free_revoked u a.sessions)

  belongs-resolve :
      (u : String) (now : Time) (cookie : Option String) (a : Accounts)
      → is_free u a.sessions ≡ true
      → belongs u (resolve_session now cookie a).0 ≡ false
  unfolding resolve_session get_session
  belongs-resolve u now none a h = refl
  belongs-resolve u now (some token) a h = ground (arith, belongs-get u token a.sessions h)

  -- After the removal of a user whose name is in lower case and without spaces around it, and any
  -- further requests that do not add the name again, the user cannot sign in, and no cookie resolves
  -- to a session under the name.
  pub removed_user_stays_out :
      (u : String) (a : Accounts) (requests : List Request) (password : String) (now : Time)
      (cookie : Option String)
      → account_name crypto lower u ≡ u
      → has u a.users ≡ true
      → any (adds u) requests ≡ false
      → (authenticate crypto lower u password
            (serve_all requests (remove_user crypto lower u a).1).users
          ≡ ok none)
        × (belongs u
              (resolve_session now cookie (serve_all requests (remove_user crypto lower u a).1)).0
            ≡ false)
  removed_user_stays_out u a requests password now cookie h k l =
      let gone = serve_all-IsGone u requests _ h l (removed-IsGone u a h k) in
      (authenticate-gone u password _ h gone.0, belongs-resolve u now cookie _ gone.1)
