-- ===== src/Auth/Middleware.antt =====
-- internal/auth/auth.go: Middleware, BearerMiddleware and Resolve, over the parts of a request that they
-- read.
use poligon.Auth.{Crypto, Options, from_bearer, from_session}
use poligon.Base.{
  Bool, Option, Option-cases, Text, [], arith, codes, false, has_prefix, if◌then◌else◌, inl, inr,
  is_empty, none, not, refl, some, true, ℕ, ◌&&◌, ◌==◌, ◌||◌, ◌≡◌,
}
use poligon.Model.{User}
use poligon.Store.{Db}

pub record HttpRequest : Type 0 where
  pub method : Text
  pub session_cookie : Option Text
  pub csrf_cookie : Option Text
  pub csrf_header : Text
  pub authorization : Text

-- What becomes of a request: its handler runs for a user, or it is refused.
pub data Verdict : Type 0 where
  serves : User → Verdict
  bad_csrf no_login : Verdict

abbrev pub safe_method : Text → Bool
safe_method m = m == codes "GET" || m == codes "HEAD" || m == codes "OPTIONS"

abbrev pub csrf_ok : HttpRequest → Bool
csrf_ok r = elim r.csrf_cookie [
  | none ↦ false
  | some t ↦ not (is_empty t) && not (is_empty r.csrf_header) && t == r.csrf_header
]

-- The token of the Authorization header, without the word Bearer.
abbrev pub bearer_token : HttpRequest → Text
bearer_token r = elim (has_prefix (codes "Bearer ") r.authorization) [
  | none ↦ r.authorization
  | some t ↦ t
]

-- The user of the development mode, if it is on.
abbrev pub dev_login : Options → Option User
dev_login o =
    if not (is_empty o.dev_user) && o.dev_allow
    then some (record {
      name = o.dev_user;
      token_hash = [];
      disabled = false;
      pass_hash = [];
      pass_set = false;
      created_at = 0;
    })
    else none

abbrev pub serve_some : Option User → Verdict
serve_some none = no_login
serve_some (some u) = serves u

abbrev pub or_user : Option User → Option User → Option User
or_user none v = v
or_user (some u) v = some u

-- Who is served.
abbrev pub who : Verdict → Option User
who (serves u) = some u
who bad_csrf = none
who no_login = none

who-serve_some : (u : Option User) → who (serve_some u) ≡ u
who-serve_some none = refl
who-serve_some (some u) = refl

module _ (c : Crypto) where
  -- The callers without a session.
  unfoldable pub from_bearer_or_dev : Options → ℕ → HttpRequest → Db → Db × Option User
  from_bearer_or_dev o now r db =
      let (db', u) = from_bearer c now (bearer_token r) db in (db', or_user u (dev_login o))

  unfoldable pub middleware : Options → ℕ → HttpRequest → Db → Db × Verdict
  unfolding from_bearer_or_dev
  middleware o now r db =
      let (db', session) = from_session c o now r.session_cookie db in
      elim session [
        | some u ↦
            (db', if not (safe_method r.method) && not (csrf_ok r) then bad_csrf else serves u)
        | none ↦ let (db'', u) = from_bearer_or_dev o now r db' in (db'', serve_some u)
      ]

  unfoldable pub bearer_middleware : Options → ℕ → HttpRequest → Db → Db × Verdict
  unfolding from_bearer_or_dev
  bearer_middleware o now r db = let (db', u) = from_bearer_or_dev o now r db in (db', serve_some u)

  unfoldable pub resolve : Options → ℕ → HttpRequest → Db → Db × Option User
  unfolding from_bearer_or_dev
  resolve o now r db =
      let (db', session) = from_session c o now r.session_cookie db in
      elim session [ some u ↦ (db', some u) | none ↦ from_bearer_or_dev o now r db' ]

  -- A write by a session cookie whose CSRF header is not its CSRF cookie.
  abbrev pub is_forged : Options → ℕ → HttpRequest → Db → Bool
  is_forged o now r db =
      not (safe_method r.method)
      && not (csrf_ok r)
      && (elim (from_session c o now r.session_cookie db).1 [ none ↦ false | some _ ↦ true ])

  -- Middleware runs the handler for the user whom Resolve names and for nobody else, but refuses a
  -- write that comes with a session cookie and without its CSRF token, whatever bearer token it also
  -- carries. Both change the store in the same way.
  pub who-middleware :
      (o : Options) (now : ℕ) (r : HttpRequest) (db : Db)
      → ((middleware o now r db).0 ≡ (resolve o now r db).0)
        × (who (middleware o now r db).1
            ≡ (if is_forged o now r db then none else (resolve o now r db).1))
  unfolding middleware resolve
  who-middleware o now r db = elim (Option-cases (from_session c o now r.session_cookie db).1) [
    | inr (u, e) ↦ (ground arith, ground arith)
    | inl e ↦
        let s = (from_session c o now r.session_cookie db).0 in
        (ground arith, ground (arith, who-serve_some (from_bearer_or_dev o now r s).1))
  ]
