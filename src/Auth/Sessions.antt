-- ===== src/Auth/Sessions.antt =====
-- Which cookies and links still work after a call.
use poligon.Auth.{Crypto, Options, change_password, done, issue_session, login, set_password}
use poligon.Auth.Limiter.{Bucket}
use poligon.Base.{
  Bool, List, Option, Text, [], arith, false, find_first, find_first-append_none,
  find_first-none-any, find_first-true, find_first-update, if◌then◌else◌, none, not, refl, some,
  true, update_where, ℕ, ◌&&◌, ◌+◌, ◌==◌, ◌∷◌, ◌≡◌, ◌≤◌,
}
use poligon.Model.{Session}
use poligon.Store.{Db, EnrollToken, err, no_session, succeeds}
use poligon.Store.Accounts.{
  create_session, enroll_token_user, get_user, is_used, revoke_user_sessions_except,
  session_by_token, set_password_hash, set_user_disabled, use_enroll_token,
}

find_first-revoke :
    (p : Session → Bool) (token : Text) (rows : List Session)
    → find_first
        (λ s. s.token_hash == token)
        (update_where p (λ s. record s { revoked = true }) rows)
      ≡ (elim (find_first (λ s. s.token_hash == token) rows) [
        | none ↦ none
        | some s ↦ some (if p s then record s { revoked = true } else s)
      ])
find_first-revoke p token rows =
    find_first-update (λ s. s.token_hash == token) p (λ s. record s { revoked = true }) rows
      (λ s. refl)

find_first-spend :
    (now : ℕ) (token : Text) (rows : List EnrollToken)
    → (elim (find_first
        (λ t. t.token_hash == token)
        (update_where
          (λ t. t.token_hash == token && not (is_used t))
          (λ t. record t { used_at = some now })
          rows)) [ none ↦ true | some t ↦ is_used t ])
      ≡ true
find_first-spend now token [] = refl
find_first-spend now token (t ∷ rows) = ground (arith, find_first-spend now token rows)

-- The session of a token, if there is a row for it.
abbrev pub row_of : Text → Db → Option Session
row_of token db = find_first (λ s. s.token_hash == token) db.sessions

module _ (c : Crypto) where
  -- A successful change of password by a caller with a session cookie ends every session of the user
  -- but the one of the cookie.
  pub change_password-others :
      (user raw current next : Text) (db : Db) (now : ℕ) (token : Text) (s : Session)
      → (change_password c user (some raw) current next db).1 ≡ done tt
      → row_of token db ≡ some s
      → s.user ≡ user
      → (token == c.hash raw) ≡ false
      → session_by_token now token (change_password c user (some raw) current next db).0
        ≡ err no_session
  unfolding change_password revoke_user_sessions_except session_by_token set_password_hash
  change_password-others user raw current next db now token s ok_call row mine_too ne = ground (
    arith,
    find_first-revoke (λ r. r.user == user && not (r.token_hash == c.hash raw)) token db.sessions,
    find_first-true (λ r. r.token_hash == token) db.sessions s row,
  )

  -- A set-password link works once: after a successful SetPassword it belongs to nobody.
  set_password-once :
      (o : Options) (now later : ℕ) (raw token password raw' : Text) (db : Db)
      → (set_password c o now raw token password db).1 ≡ done raw'
      → enroll_token_user later (c.hash token) (set_password c o now raw token password db).0
        ≡ err no_session
  unfolding set_password issue_session create_session use_enroll_token set_password_hash
      enroll_token_user
  set_password-once o now later raw token password raw' db h =
      ground (arith, find_first-spend now (c.hash token) db.enroll_tokens)

  -- A successful login gives a cookie that resolves to a session until the idle timeout, as long as
  -- nothing else happens.
  login-session :
      (o : Options) (now at_time : ℕ) (raw key email password raw' : Text)
      (l : List (Text × Bucket)) (db : Db)
      → (login c o now raw key email password l db).1 ≡ done raw'
      → at_time ≤ now + o.session_idle
      → succeeds
          (session_by_token at_time (c.hash raw') (login c o now raw key email password l db).0.1)
        ≡ true
  unfolding login issue_session create_session session_by_token get_user
  login-session o now at_time raw key email password raw' l db h t = ground (
    arith,
    find_first-append_none (λ s. s.token_hash == c.hash raw) db.sessions
        (record {
          id = db.next_session;
          user = email;
          token_hash = c.hash raw;
          created_at = now;
          last_seen = now;
          expires_at = now + o.session_idle;
          revoked = false;
        }
          ∷ []),
    find_first-none-any (λ s. s.token_hash == c.hash raw) db.sessions,
  )

-- Disabling an account ends all its sessions: no token of one of them resolves any more.
set_user_disabled-sessions :
    (name : Text) (db : Db) (now : ℕ) (token : Text) (s : Session)
    → row_of token db ≡ some s
    → s.user ≡ name
    → session_by_token now token (set_user_disabled name true db) ≡ err no_session
unfolding set_user_disabled session_by_token
set_user_disabled-sessions name db now token s row e =
    ground (arith, find_first-revoke (λ r. r.user == name) token db.sessions)
