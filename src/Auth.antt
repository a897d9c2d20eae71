-- ===== src/Auth.antt =====
-- internal/auth/auth.go: logins, sessions, set-password links and the middleware. Random tokens and
-- times are arguments; sha256 and bcrypt are the parameter Crypto. Email addresses are normalised
-- before these functions see them.
pub mod Limiter
pub mod Sessions
pub mod Signup
pub mod Middleware
use Prim.Native.Nat.{min}
use poligon.Auth.Limiter.{Bucket, blocked, fail, succeed}
use poligon.Base.{
  Bool, List, Option, Text, [], false, if◌then◌else◌, is_empty, leb, length, ltb, none, not,
  order_by, some, text_leb, ℕ, ◌&&◌, ◌+◌, ◌==◌, ◌||◌, ◌∷◌,
}
use poligon.Model.{Session, User, minute}
use poligon.Store.{Db, err, ok}
use poligon.Store.Accounts.{
  api_token_user, create_session, enroll_token_user, get_user, revoke_session, revoke_user_sessions,
  revoke_user_sessions_except, session_by_token, set_password_hash, touch_session, use_enroll_token,
  user_pass_hash,
}

-- golang.org/x/crypto/bcrypt and crypto/sha256.
pub record Crypto : Type 0 where
  pub hash : Text → Text
  pub generate : Text → Option Text
  pub compare_hash : Text → Text → Bool

pub record Options : Type 0 where
  pub session_ttl : ℕ
  pub session_idle : ℕ
  pub dev_user : Text
  pub dev_allow : Bool

pub data AuthError : Type 0 where
  unauthorized_user rate_limited weak_password store_error : AuthError
  bad_email empty_email account_exists no_account : AuthError

pub data AuthResult (A : Type 0) : Type 0 where
  done : A → AuthResult A
  refused : AuthError → AuthResult A

abbrev pub valid_password : Text → Bool
valid_password p = leb 10 (length p) && leb (length p) 72

module _ (c : Crypto) where
  unfoldable pub check_password : Text → Text → Db → Bool
  check_password user password db = elim (user_pass_hash user db) [
    | err _ ↦ false
    | ok h ↦ not (is_empty h) && c.compare_hash h password
  ]

  -- The raw token goes into the cookie, its hash into the store.
  unfoldable pub issue_session : Options → ℕ → Text → Text → Db → Db × AuthResult Text
  issue_session o now raw user db =
      elim (create_session now user (now + o.session_idle) (c.hash raw) db) [
        | err _ ↦ (db, refused store_error)
        | ok db' ↦ (db', done raw)
      ]

  -- Login, with the key of the limiter `email|ip`.
  unfoldable pub login :
      Options
      → ℕ
      → Text
      → Text
      → Text
      → Text
      → List (Text × Bucket)
      → Db
      → (List (Text × Bucket) × Db) × AuthResult Text
  login o now raw key email password l db =
      if blocked now key l then ((l, db), refused rate_limited) else elim (get_user email db) [
        | err _ ↦ ((fail now key l, db), refused unauthorized_user)
        | ok u ↦
            if u.disabled || not u.pass_set || not (check_password email password db)
            then ((fail now key l, db), refused unauthorized_user)
            else (let (db', res) = issue_session o now raw email db in ((succeed key l, db'), res))
      ]

  -- SetPassword, which spends a set-password link.
  unfoldable pub set_password : Options → ℕ → Text → Text → Text → Db → Db × AuthResult Text
  set_password o now raw token password db = elim (enroll_token_user now (c.hash token) db) [
    | err _ ↦ (db, refused unauthorized_user)
    | ok user ↦
        if not (valid_password password)
        then (db, refused weak_password)
        else elim (c.generate password) [
          | none ↦ (db, refused store_error)
          | some h ↦
              issue_session o now raw user
                (use_enroll_token now (c.hash token) (set_password_hash user h db))
        ]
  ]

  -- ChangePassword for the signed-in user, with the session cookie of the request.
  unfoldable pub change_password :
      Text → Option Text → Text → Text → Db → Db × AuthResult (Unit {0})
  change_password user cookie current next db =
      if not (check_password user current db)
      then (db, refused unauthorized_user)
      else if not (valid_password next)
      then (db, refused weak_password)
      else elim (c.generate next) [
        | none ↦ (db, refused store_error)
        | some h ↦ elim cookie [
          | some raw ↦
              (revoke_user_sessions_except user (c.hash raw) (set_password_hash user h db), done tt)
          | none ↦ (revoke_user_sessions user (set_password_hash user h db), done tt)
        ]
      ]

  unfoldable pub logout : Option Text → Db → Db
  logout none db = db
  logout (some raw) db = revoke_session (c.hash raw) db

  abbrev slide : Options → ℕ → Session → Db → Db
  slide o now s db =
      if ltb (s.last_seen + minute) now
      then touch_session s.id now (min (now + o.session_idle) (s.created_at + o.session_ttl)) db
      else db

  unfoldable pub from_session : Options → ℕ → Option Text → Db → Db × Option User
  from_session o now none db = (db, none)
  from_session o now (some raw) db =
      if is_empty raw then (db, none) else elim (session_by_token now (c.hash raw) db) [
        | err _ ↦ (db, none)
        | ok (s, u) ↦ (slide o now s db, some u)
      ]

  -- The legacy tokens in users.token_hash, in the order of the accounts.
  unfoldable pub legacy_user : Text → List User → Option User
  legacy_user sum [] = none
  legacy_user sum (u ∷ us) =
      let rest = legacy_user sum us in
      if not (is_empty u.token_hash) && u.token_hash == sum
      then if u.disabled then none else some u
      else rest

  unfoldable pub from_bearer : ℕ → Text → Db → Db × Option User
  unfolding legacy_user
  from_bearer now token db =
      if is_empty token
      then (db, none)
      else (let (db', res) = api_token_user now (c.hash token) db in
          elim res [
            | ok u ↦ (db', some u)
            | err _ ↦ (
              db',
              legacy_user (c.hash token) (order_by (λ a b. text_leb a.name b.name) db.users),
            )
          ])
