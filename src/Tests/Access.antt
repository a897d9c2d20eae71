-- ===== src/Tests/Access.antt =====
-- The theorems on the adb filter, the tunnel ports and the logins at concrete inputs.
use poligon.Adbfilter.{
  filter_device_list, handle, okay, read_msg, refusal, scan_lines, shows, transport, write_msg,
}
use poligon.Adbfilter.Gate.{handle-refused, is_other}
use poligon.Adbfilter.Listing.{filter_device_list-lines}
use poligon.Adbfilter.Wire.{read_msg-write_msg}
use poligon.Auth.{
  Crypto, Options, change_password, check_password, done, from_session, issue_session, login,
  set_password,
}
use poligon.Auth.Limiter.{blocked}
use poligon.Auth.Middleware.{
  HttpRequest, bad_csrf, is_forged, middleware, resolve, who, who-middleware,
}
use poligon.Auth.Sessions.{change_password-others, row_of}
use poligon.Auth.Signup.{has_dot, is_domain, matches_email, register, register-login, valid_email}
use poligon.Base.{
  Text, [], any, arith, codes, false, has_prefix, if◌then◌else◌, is_empty, mem, none, refl, select,
  some, subst, text_discrete, true, ℕ, ℕ_discrete, ◌*◌, ◌++◌, ◌==◌, ◌∷◌, ◌≡◌,
}
use poligon.Model.{Session}
use poligon.Store.{Db, err, no_session}
use poligon.Store.Accounts.{
  create_session, create_user, enroll_token_user, get_user, session_by_token, set_password_hash,
  use_enroll_token, user_pass_hash,
}
use poligon.Tests.{account, alice, bob, farm, hour, pixel, redmi}

read_msg-write_msg_example :
    read_msg (write_msg (codes "host:devices") ++ codes "x")
    ≡ some (codes "host:devices", codes "x")
read_msg-write_msg_example = read_msg-write_msg (codes "host:devices") (codes "x") (omega arith)

abbrev listing : Text
listing = codes "pixel\tdevice\nredmi\tdevice\n"

filter_device_list-lines_example :
    scan_lines [] (filter_device_list (pixel ∷ []) listing)
    ≡ select (shows (pixel ∷ [])) (scan_lines [] listing)
filter_device_list-lines_example = filter_device_list-lines (pixel ∷ []) listing refl

not_listed : mem redmi (pixel ∷ []) ≡ false
unfolding text_discrete ℕ_discrete
not_listed = refl

handle-refused_example :
    handle (pixel ∷ []) (write_msg (transport ++ redmi) ++ codes "shell") (some okay)
    ≡ record { to_upstream = []; to_client = codes "FAIL" ++ write_msg refusal }
handle-refused_example =
    handle-refused (pixel ∷ []) redmi (codes "shell") okay (omega arith) not_listed

abbrev tport : Text
tport = codes "host:tport:serial:redmi"

tport_other : is_other tport ≡ true
unfolding has_prefix text_discrete ℕ_discrete
tport_other = refl

-- Stand-ins: a hash that marks its input, and passwords stored behind one byte.
abbrev crypto : Crypto
crypto = record {
  hash = λ t. 1 ∷ t;
  generate = λ p. some (2 ∷ p);
  compare_hash = λ h p. h == 2 ∷ p;
}

abbrev options : Options
options = record {
  session_ttl = 336 * hour;
  session_idle = 24 * hour;
  dev_user = [];
  dev_allow = false;
}

abbrev secret : Text
secret = codes "correct horse"

abbrev session : Text → ℕ → Session
session raw i = record {
  id = i;
  user = alice;
  token_hash = 1 ∷ raw;
  created_at = 0;
  last_seen = 0;
  expires_at = 24 * hour;
  revoked = false;
}

abbrev logged_in : Db
logged_in = record farm {
  users = record (account alice) { pass_hash = 2 ∷ secret } ∷ account bob ∷ [];
  sessions = session (codes "A") 1 ∷ session (codes "B") 2 ∷ [];
  next_session = 3;
  enroll_tokens =
      (record { token_hash = 1 ∷ codes "link"; user = alice; expires_at = hour; used_at = none })
      ∷ [];
}

second_row : row_of (1 ∷ codes "B") logged_in ≡ some (session (codes "B") 2)
unfolding text_discrete ℕ_discrete
second_row = refl

other_token : ((1 ∷ codes "B") == (1 ∷ codes "A")) ≡ false
unfolding text_discrete ℕ_discrete
other_token = refl

changed :
    (change_password crypto alice (some (codes "A")) secret (codes "battery staple") logged_in).1
    ≡ done tt
unfolding change_password check_password user_pass_hash get_user text_discrete ℕ_discrete
changed = refl

change_password-others_example :
    session_by_token 500
      (1 ∷ codes "B")
      (change_password crypto alice (some (codes "A")) secret (codes "battery staple") logged_in).0
    ≡ err no_session
change_password-others_example =
    change_password-others crypto alice (codes "A") secret (codes "battery staple") logged_in 500
      (1 ∷ codes "B") (session (codes "B") 2) changed second_row refl other_token

set_by_link :
    (set_password crypto options 100 (codes "C") (codes "link") secret logged_in).1
    ≡ done (codes "C")
unfolding set_password issue_session create_session enroll_token_user use_enroll_token
    set_password_hash text_discrete ℕ_discrete
set_by_link = refl

login_works :
    (login crypto options 100 (codes "C") (codes "alice|ip") alice secret [] logged_in).1
    ≡ done (codes "C")
unfolding login blocked check_password user_pass_hash get_user issue_session create_session
    text_discrete ℕ_discrete
login_works = refl

abbrev carol : Text
carol = codes "carol@farm.io"

registered :
    (register crypto options 100 (codes "D") (codes "register|ip") carol secret [] farm).1
    ≡ done (codes "D")
unfolding register valid_email matches_email is_domain has_dot issue_session create_session
    create_user set_password_hash blocked text_discrete ℕ_discrete
registered = refl

crypto_sound :
    (h : Text)
    → crypto.generate secret ≡ some h
    → (is_empty h ≡ false) × (crypto.compare_hash h secret ≡ true)
unfolding text_discrete ℕ_discrete
crypto_sound h e =
    let made : (2 ∷ secret) ≡ h = cc in
    subst (λ x. (is_empty x ≡ false) × (crypto.compare_hash x secret ≡ true)) made (refl, refl)

new_cookie :
    any
      (λ s. s.token_hash == crypto.hash (codes "E"))
      (register crypto options 100
        (codes "D")
        (codes "register|ip")
        carol
        secret
        []
        farm).0.1.sessions
    ≡ false
unfolding register valid_email matches_email is_domain has_dot issue_session create_session
    create_user set_password_hash blocked text_discrete ℕ_discrete
new_cookie = refl

not_locked : blocked 200 (codes "carol|ip") [] ≡ false
unfolding blocked
not_locked = refl

register-login_example :
    (login crypto options 200
      (codes "E")
      (codes "carol|ip")
      carol
      secret
      []
      (register crypto options 100 (codes "D") (codes "register|ip") carol secret [] farm).0.1).1
    ≡ done (codes "E")
register-login_example =
    register-login crypto options 100 200 (codes "D") (codes "D") (codes "E") (codes "register|ip")
      (codes "carol|ip") carol secret [] [] farm crypto_sound registered not_locked new_cookie

-- A write with a session cookie and a bearer token, but without the CSRF header.
abbrev forged : HttpRequest
forged = record {
  method = codes "POST";
  session_cookie = some (codes "A");
  csrf_cookie = some (codes "t");
  csrf_header = [];
  authorization = codes "Bearer x";
}

who-middleware_example :
    ((middleware crypto options 200 forged logged_in).0
      ≡ (resolve crypto options 200 forged logged_in).0)
    × (who (middleware crypto options 200 forged logged_in).1 ≡ (
        if is_forged crypto options 200 forged logged_in
        then none
        else (resolve crypto options 200 forged logged_in).1))
who-middleware_example = who-middleware crypto options 200 forged logged_in

-- A run of the code: the write is refused, though its session is alive.
forged_runs : (middleware crypto options 200 forged logged_in).1 ≡ bad_csrf
unfolding middleware from_session session_by_token text_discrete ℕ_discrete
forged_runs = refl
