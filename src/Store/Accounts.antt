-- ===== src/Store/Accounts.antt =====
-- internal/store/auth.go and apitokens.go: accounts, sessions, set-password links and API tokens.
use poligon.Base.{
  Bool, Text, [], any, eqb, false, find_first, if◌then◌else◌, length, ltb, none, not, select, some,
  true, update_where, ℕ, ◌&&◌, ◌*◌, ◌++◌, ◌+◌, ◌==◌, ◌||◌, ◌∷◌,
}
use poligon.Model.{Session, User, minute}
use poligon.Store.{Db, EnrollToken, Result, constraint, err, no_session, no_user, ok, user_exists}

unfoldable pub create_user : ℕ → Text → Db → Result Db
create_user now name db =
    if any (λ u. u.name == name) db.users
    then err user_exists
    else ok (record db {
      users =
          db.users
          ++ (record {
            name = name;
            token_hash = [];
            disabled = false;
            pass_hash = [];
            pass_set = false;
            created_at = now;
          })
            ∷ [];
    })

unfoldable pub get_user : Text → Db → Result User
get_user name db = elim (find_first (λ u. u.name == name) db.users) [
  | none ↦ err no_user
  | some u ↦ ok u
]

unfoldable pub user_pass_hash : Text → Db → Result Text
unfolding get_user
user_pass_hash name db = elim (get_user name db) [ err e ↦ err e | ok u ↦ ok u.pass_hash ]

unfoldable pub set_password_hash : Text → Text → Db → Db
set_password_hash name hash db = record db {
  users =
      update_where (λ u. u.name == name) (λ u. record u { pass_hash = hash; pass_set = true })
        db.users;
}

unfoldable pub clear_password : Text → Db → Db
clear_password name db = record db {
  users =
      update_where (λ u. u.name == name) (λ u. record u { pass_hash = []; pass_set = false })
        db.users;
}

abbrev pub revoke : (Session → Bool) → Db → Db
revoke p db = record db { sessions = update_where p (λ s. record s { revoked = true }) db.sessions }

unfoldable pub revoke_session : Text → Db → Db
revoke_session token db = revoke (λ s. s.token_hash == token) db

unfoldable pub revoke_user_sessions : Text → Db → Db
revoke_user_sessions name db = revoke (λ s. s.user == name) db

unfoldable pub revoke_user_sessions_except : Text → Text → Db → Db
revoke_user_sessions_except name keep db =
    revoke (λ s. s.user == name && not (s.token_hash == keep)) db

unfoldable pub set_user_disabled : Text → Bool → Db → Db
unfolding revoke_user_sessions
set_user_disabled name v db =
    let db' = record db {
      users = update_where (λ u. u.name == name) (λ u. record u { disabled = v }) db.users;
    } in
    if v then revoke_user_sessions name db' else db'

-- The INSERT with the unique index on the token and the foreign key on the user.
unfoldable pub create_session : ℕ → Text → ℕ → Text → Db → Result Db
create_session now user exp token db =
    if any (λ s. s.token_hash == token) db.sessions || not (any (λ u. u.name == user) db.users)
    then err constraint
    else ok (record db {
      sessions =
          db.sessions
          ++ (record {
            id = db.next_session;
            user = user;
            token_hash = token;
            created_at = now;
            last_seen = now;
            expires_at = exp;
            revoked = false;
          })
            ∷ [];
      next_session = db.next_session + 1;
    })

-- A live session and its account.
unfoldable pub session_by_token : ℕ → Text → Db → Result (Session × User)
unfolding get_user
session_by_token now token db = elim (find_first (λ s. s.token_hash == token) db.sessions) [
  | none ↦ err no_session
  | some s ↦
      if s.revoked || ltb s.expires_at now then err no_session else elim (get_user s.user db) [
        | err e ↦ err e
        | ok u ↦ if u.disabled then err no_session else ok (s, u)
      ]
]

unfoldable pub touch_session : ℕ → ℕ → ℕ → Db → Db
touch_session i seen exp db = record db {
  sessions =
      update_where (λ s. eqb s.id i) (λ s. record s { last_seen = seen; expires_at = exp })
        db.sessions;
}

unfoldable pub session_count : ℕ → Db → ℕ
session_count now db = length (select (λ s. not s.revoked && ltb now s.expires_at) db.sessions)

abbrev pub day : ℕ
day = 1440 * minute

unfoldable pub purge_expired_sessions : ℕ → Db → Db
purge_expired_sessions now db = record db {
  sessions = select (λ s. not (s.revoked || ltb (s.expires_at + day) now)) db.sessions;
}

-- The INSERT with the primary key on the hash and the foreign key on the user.
unfoldable pub create_enroll_token : Text → Text → ℕ → Db → Result Db
create_enroll_token token user exp db =
    if any (λ t. t.token_hash == token) db.enroll_tokens || not (any (λ u. u.name == user) db.users)
    then err constraint
    else ok (record db {
      enroll_tokens =
          db.enroll_tokens
          ++ (record { token_hash = token; user = user; expires_at = exp; used_at = none }) ∷ [];
    })

abbrev pub is_used : EnrollToken → Bool
is_used t = elim t.used_at [ none ↦ false | some _ ↦ true ]

unfoldable pub enroll_token_user : ℕ → Text → Db → Result Text
enroll_token_user now token db = elim (find_first (λ t. t.token_hash == token) db.enroll_tokens) [
  | none ↦ err no_session
  | some t ↦ if is_used t || ltb t.expires_at now then err no_session else ok t.user
]

unfoldable pub use_enroll_token : ℕ → Text → Db → Db
use_enroll_token now token db = record db {
  enroll_tokens =
      update_where (λ t. t.token_hash == token && not (is_used t))
        (λ t. record t { used_at = some now }) db.enroll_tokens;
}

unfoldable pub create_api_token : ℕ → Text → Text → Text → Db → Result Db
create_api_token now hash user name db =
    if any (λ t. t.hash == hash) db.api_tokens || not (any (λ u. u.name == user) db.users)
    then err constraint
    else ok (record db {
      api_tokens =
          db.api_tokens
          ++ (record {
            hash = hash;
            user = user;
            name = name;
            created_at = now;
            last_used_at = none;
          })
            ∷ [];
    })

-- The owner of a token, if his account is enabled; the use is recorded.
unfoldable pub api_token_user : ℕ → Text → Db → Db × Result User
unfolding get_user
api_token_user now hash db = elim (find_first (λ t. t.hash == hash) db.api_tokens) [
  | none ↦ (db, err no_user)
  | some t ↦ elim (get_user t.user db) [
    | err _ ↦ (db, err no_user)
    | ok u ↦ if u.disabled then (db, err no_user) else (
      record db {
        api_tokens =
            update_where (λ r. r.hash == hash) (λ r. record r { last_used_at = some now })
              db.api_tokens;
      },
      ok u,
    )
  ]
]
