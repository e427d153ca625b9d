-- ===== src/Auth/Sessions/Owners.antt =====
-- The sessions of one user in the store.
use hashgraph.Prelude.{
  ◌≡◌, refl, String, Bool, true, false, not, Option, none, some, [], ◌∷◌, string_eq, arith, all,
  keep, ◌==◌,
}
use hashgraph.Dict.{get, put, remove}
use hashgraph.Auth.Sessions.{Sessions, SessionRecord, revoke_user}

-- No session belongs to the user.
unfoldable pub is_free : String → Sessions → Bool
is_free username sessions = all (λ e. not (e.1.username == username)) sessions

-- The session is one of the user's.
abbrev pub belongs : String → Option SessionRecord → Bool
belongs username none = false
belongs username (some rec) = rec.username == username

pub is_free-put :
    (u token : String) (rec : SessionRecord) (d : Sessions)
    → (rec.username == u) ≡ false
    → is_free u d ≡ true
    → is_free u (put token rec d) ≡ true
unfolding is_free all put
is_free-put u token rec [] h k = ground arith
is_free-put u token rec (e ∷ d) h k = ground (arith, is_free-put u token rec d)

pub is_free-remove :
    (u token : String) (d : Sessions) → is_free u d ≡ true → is_free u (remove token d) ≡ true
unfolding is_free all remove
is_free-remove u token [] k = refl
is_free-remove u token (e ∷ d) k = ground (arith, is_free-remove u token d)

pub is_free-revoke_user :
    (u v : String) (d : Sessions) → is_free u d ≡ true → is_free u (revoke_user v d).1 ≡ true
unfolding is_free all revoke_user keep
is_free-revoke_user u v [] k = refl
is_free-revoke_user u v (e ∷ d) k = ground (arith, is_free-revoke_user u v d)

pub is_free_revoked : (u : String) (d : Sessions) → is_free u (revoke_user u d).1 ≡ true
unfolding is_free all revoke_user keep
is_free_revoked u [] = refl
is_free_revoked u (e ∷ d) = ground (arith, is_free_revoked u d)

pub belongs-get :
    (u token : String) (d : Sessions) → is_free u d ≡ true → belongs u (get token d) ≡ false
unfolding is_free all get
belongs-get u token [] h = refl
belongs-get u token (e ∷ d) h = ground (arith, belongs-get u token d)

pub get-revoke_user :
    (u token : String) (rec : SessionRecord) (d : Sessions)
    → get token d ≡ some rec
    → (rec.username == u) ≡ false
    → get token (revoke_user u d).1 ≡ some rec
unfolding get revoke_user keep
get-revoke_user u token rec [] h k = cc
get-revoke_user u token rec (e ∷ d) h k = ground (arith, get-revoke_user u token rec d)
