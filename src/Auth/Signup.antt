-- ===== src/Auth/Signup.antt =====
-- internal/auth/auth.go: how accounts come about, by Register and by set-password links.
use poligon.Auth.{
  AuthResult, Crypto, Options, account_exists, bad_email, check_password, done, empty_email,
  issue_session, login, no_account, rate_limited, refused, store_error, unauthorized_user,
  valid_password, weak_password,
}
use poligon.Auth.Limiter.{Bucket, blocked, fail}
use poligon.Base.{
  Bool, List, Option-cases, Text, [], all, any, any-find_first, arith, eqb, false,
  find_first-append_none, find_first-none-any, find_first-update, if◌then◌else◌, inl, inr, is_empty,
  leb, length, none, not, refl, some, true, update_where, ℕ, ◌&&◌, ◌*◌, ◌++◌, ◌+◌, ◌==◌, ◌||◌, ◌∷◌,
  ◌≡◌, ◌≤◌,
}
use poligon.Model.{User, minute}
use poligon.Store.{Db, err, ok}
use poligon.Store.Accounts.{
  create_enroll_token, create_session, create_user, enroll_token_user, get_user, set_password_hash,
  user_pass_hash,
}

-- The class \s of Go's regular expressions.
abbrev is_blank : ℕ → Bool
is_blank c = eqb c b' ' || eqb c b'\t' || eqb c b'\n' || eqb c 12 || eqb c b'\r'

-- A dot with something behind it.
unfoldable pub has_dot : Text → Bool
has_dot [] = false
has_dot (c ∷ s) = let rest = has_dot s in (eqb c b'.' && not (is_empty s)) || rest

-- Behind the @: one byte or more, a dot, one byte or more, none of them @ or blank.
unfoldable pub is_domain : Text → Bool
unfolding has_dot
is_domain [] = false
is_domain (c ∷ s) = all (λ x. not (eqb x b'@' || is_blank x)) (c ∷ s) && has_dot s

-- emailRe; the flag says whether there is a byte before the @ yet.
unfoldable pub matches_email : Bool → Text → Bool
unfolding is_domain
matches_email seen [] = false
matches_email seen (c ∷ s) =
    let rest = matches_email true s in
    if eqb c b'@' then seen && is_domain s else not (is_blank c) && rest

unfoldable pub valid_email : Text → Bool
unfolding matches_email
valid_email s = leb (length s) 254 && matches_email false s

abbrev pub setup_ttl : ℕ
setup_ttl = 72 * (60 * minute)

module _ (c : Crypto) where
  -- Register, with the key of the limiter `register|ip`.
  unfoldable pub register :
      Options
      → ℕ
      → Text
      → Text
      → Text
      → Text
      → List (Text × Bucket)
      → Db
      → (List (Text × Bucket) × Db) × AuthResult Text
  unfolding valid_email
  register o now raw key email password l db =
      if not (valid_email email)
      then ((l, db), refused bad_email)
      else if not (valid_password password)
      then ((l, db), refused weak_password)
      else if blocked now key l
      then ((l, db), refused rate_limited)
      else elim (c.generate password) [
        | none ↦ ((l, db), refused store_error)
        | some h ↦ elim (create_user now email db) [
          | err _ ↦ ((fail now key l, db), refused account_exists)
          | ok db' ↦
              let (db'', res) = issue_session c o now raw email (set_password_hash email h db') in
              ((l, db''), res)
        ]
      ]

  -- The unexported newSetupToken.
  unfoldable pub issue_setup_token : ℕ → Text → Text → Db → Db × AuthResult Text
  issue_setup_token now raw name db =
      elim (create_enroll_token (c.hash raw) name (now + setup_ttl) db) [
        | err _ ↦ (db, refused store_error)
        | ok db' ↦ (db', done raw)
      ]

  unfoldable pub new_setup_token : ℕ → Text → Text → Db → Db × AuthResult Text
  unfolding issue_setup_token
  new_setup_token now raw name db = elim (get_user name db) [
    | err _ ↦ (db, refused no_account)
    | ok _ ↦ issue_setup_token now raw name db
  ]

  -- CreateUser, for the command line.
  unfoldable pub create_account : ℕ → Text → Text → Db → Db × AuthResult Text
  unfolding issue_setup_token
  create_account now raw name db =
      if is_empty name then (db, refused empty_email) else elim (create_user now name db) [
        | err _ ↦ (db, refused account_exists)
        | ok db' ↦ issue_setup_token now raw name db'
      ]

  unfoldable pub setup_user : ℕ → Text → Db → AuthResult Text
  setup_user now raw db = elim (enroll_token_user now (c.hash raw) db) [
    | err _ ↦ refused unauthorized_user
    | ok user ↦ done user
  ]

  generated :
      (o : Options) (now : ℕ) (raw raw' key email password : Text) (l : List (Text × Bucket))
      (db : Db)
      → (register o now raw key email password l db).1 ≡ done raw'
      → (h : Text) × (c.generate password ≡ some h)
  unfolding register
  generated o now raw raw' key email password l db e = elim (Option-cases (c.generate password)) [
    | inl nothing ↦ absurd (ground arith)
    | inr made ↦ made
  ]

  -- Who has registered can sign in with the password he chose, if he is not locked out and the new
  -- cookie is not taken; bcrypt accepts a password against a hash of it, and no hash is empty.
  pub register-login :
      (o : Options) (now later : ℕ) (raw raw' fresh key key' email password : Text)
      (l l' : List (Text × Bucket)) (db : Db)
      → ((h : Text)
          → c.generate password ≡ some h
          → (is_empty h ≡ false) × (c.compare_hash h password ≡ true))
      → (register o now raw key email password l db).1 ≡ done raw'
      → blocked later key' l' ≡ false
      → any
          (λ s. s.token_hash == c.hash fresh)
          (register o now raw key email password l db).0.1.sessions
        ≡ false
      → (login c o later fresh key' email password l'
          (register o now raw key email password l db).0.1).1
        ≡ done fresh
  unfolding register login issue_session create_session create_user set_password_hash get_user
      user_pass_hash check_password
  register-login o now later raw raw' fresh key key' email password l l' db sound h unlocked new =
      let (hs, made) = generated o now raw raw' key email password l db h in
      let p : User → Bool = λ u. u.name == email in
      let row : User = record {
        name = email;
        token_hash = [];
        disabled = false;
        pass_hash = [];
        pass_set = false;
        created_at = now;
      } in
      ground (
        arith,
        made,
        sound hs made,
        find_first-none-any p db.users,
        find_first-append_none p db.users (row ∷ []),
        find_first-update p p (λ u. record u { pass_hash = hs; pass_set = true })
            (db.users ++ row ∷ []) (λ u. refl),
        any-find_first p (
            update_where p (λ u. record u { pass_hash = hs; pass_set = true })
              (db.users ++ row ∷ [])),
      )

  -- A set-password link that was just issued belongs to the account for 72 hours.
  pub setup_user-new_setup_token :
      (now later : ℕ) (raw raw' name : Text) (db : Db)
      → (new_setup_token now raw name db).1 ≡ done raw'
      → later ≤ now + setup_ttl
      → setup_user later raw (new_setup_token now raw name db).0 ≡ done name
  unfolding new_setup_token issue_setup_token setup_user create_enroll_token enroll_token_user
  setup_user-new_setup_token now later raw raw' name db h t = ground (
    arith,
    find_first-append_none (λ r. r.token_hash == c.hash raw) db.enroll_tokens
        (record {
          token_hash = c.hash raw;
          user = name;
          expires_at = now + setup_ttl;
          used_at = none;
        }
          ∷ []),
    find_first-none-any (λ r. r.token_hash == c.hash raw) db.enroll_tokens,
  )
