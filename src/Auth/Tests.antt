-- ===== src/Auth/Tests.antt =====
-- Registrations and logins on concrete tables, and instances of their theorems.
use my_tech_pulse.Base.{
  ℕ, ◌+◌, ◌*◌, ◌≤◌, ◌≡◌, ◌≢◌, refl, true, false, ◌&&◌, ◌||◌, not, none, some, [], ◌∷◌, ◌++◌, List,
  leb, ◌==◌, Text, text_eq, codes, length, lookup, insert, remove, retain, Time, second, hour, day,
  arith, some-inj, text_eq_refl, Duration,
}
use my_tech_pulse.Unicode.{
  Unicode, ascii, fold, to_lower, trim_space, is_space, trim_left, trim_right, trim_cons,
}
use my_tech_pulse.TextCheck.{
  Characters, has_code, hidden, has_hidden_rune, is_tag_char, accepts, accepts_from, valid_tag,
  valid_username, max_tag_chars,
}
use my_tech_pulse.TextCheck.Runs.{last_of, valid_tag-cut}
use my_tech_pulse.Interest.{has}
use my_tech_pulse.LoginLimiter.{
  LoginLimiter, LimitEntry, new_login_limiter, limiter_sweep_at, check, check_ip, failure, success,
  sweep, entry_for, ip_wait, account_key, account_wait, count_account_failure, lock_for, is_over,
}
use my_tech_pulse.LoginLimiter.Current.{IsValid}
use my_tech_pulse.Auth.{
  Bcrypt, Tokens, Policy, byte_length, valid_password, hash_password, compare_password, hash_token,
  new_token, validate_username, validate_password, invalid, is_comment, validate_new_username,
  common_passwords, is_common_password, validate_new_password, normalize_from, normalize_tags,
  password_common, tag_unknown, member,
}
use my_tech_pulse.Auth.Store.{
  Sql, Db, UserRow, User, to_user, user_by_name, user_by_id, answer_of, find_by_username,
  is_user_id, find_by_id, session_user, find_user, timestamptz, has_token, has_user, has_name,
  insert_session, create, without_token, unexpired, delete, delete_expired, has_tag_id,
  has_interest, insert_interests, insert_user, create_rows, create_tagged, find_tag, find_tags,
  create_with_interests_and_session,
}
use my_tech_pulse.Auth.Store.Valid
use my_tech_pulse.Auth.Service.{
  Call, Server, signed_in, denied, validation, invalid_credentials, too_many_attempts, unknown,
  clean, signup_error, signup_answer, start_session, session_answer, started_from,
  start_session_for, authenticate, logout, check_limit, count_failure, count_success, login_right,
  login_wrong, login_found, login_checked, login_limited, login_valid, login, signup_valid,
  signup_checked, signup,
}
use my_tech_pulse.Auth.Service.Sessions.{until, logout-authenticate}
use my_tech_pulse.Auth.Service.Login.{HasPassed, is_right, login_sound}
use my_tech_pulse.Auth.Service.Registration.{IsSignedUp, input_errors, signup-registration}
use my_tech_pulse.Auth.Service.Hiding.{AreAlike, login-hides}
use my_tech_pulse.Auth.Service.Signup.{signup-login}
use my_tech_pulse.Auth.Service.Locked.{login-wrong_locked}

program : Unit {0}
unfolding text_eq lookup insert remove retain fold to_lower trim_space is_space trim_left trim_right
    trim_cons has_code hidden has_hidden_rune is_tag_char accepts accepts_from valid_tag
    valid_username has last_of check check_ip failure success sweep entry_for ip_wait account_key
    account_wait count_account_failure lock_for is_over byte_length valid_password hash_password
    compare_password hash_token new_token validate_username validate_password invalid is_comment
    validate_new_username common_passwords is_common_password validate_new_password normalize_from
    normalize_tags to_user user_by_name user_by_id answer_of find_by_username is_user_id find_by_id
    session_user find_user timestamptz has_token has_user has_name insert_session create
    without_token unexpired delete delete_expired has_tag_id has_interest insert_interests
    insert_user create_rows create_tagged find_tag find_tags create_with_interests_and_session clean
    signup_error signup_answer start_session session_answer started_from start_session_for
    authenticate logout check_limit count_failure count_success login_right login_wrong login_found
    login_checked login_limited login_valid login signup_valid signup_checked signup until is_right
program = tt

instance abbrev table : Unicode
table = ascii

-- Letters and digits of ASCII, and the space.
instance abbrev letters : Characters
letters = record {
  is_graphic = λ c. leb 32 c && leb c 126;
  is_ignorable = λ c. false;
  is_selector = λ c. false;
  is_letter = λ c. (leb 65 c && leb c 90) || (leb 97 c && leb c 122);
  is_number = λ c. leb 48 c && leb c 57;
  is_mark = λ c. leb 0x300 c && leb c 0x36F;
}

toy_matches :
    (salt p h : Text) → some (codes "h:" ++ p) ≡ some h → text_eq h (codes "h:" ++ p) ≡ true
toy_matches salt p h e = rw (← some-inj e) (text_eq_refl (codes "h:" ++ p))

instance abbrev toy_bcrypt : Bcrypt
toy_bcrypt = record {
  generate = λ salt p. some (codes "h:" ++ p);
  matches = λ h p. text_eq h (codes "h:" ++ p);
  matches-generate = toy_matches;
}

toy_encode_named : (byte : ℕ) (raw : List ℕ) → byte ∷ raw ≢ []
toy_encode_named byte raw e = cc

instance abbrev toy_tokens : Tokens
toy_tokens = record {
  encode = λ raw. raw;
  encode_named = toy_encode_named;
  sha256 = λ s. codes "#" ++ s;
}

instance abbrev policy : Policy
policy = record {
  equal_fold = λ s t. text_eq (to_lower s) (to_lower t);
  common_lines = codes "# frequent" ∷ codes "password1234" ∷ [];
}

instance abbrev sql : Sql
sql = record { fold = λ s. to_lower s }

abbrev start : Time
start = 1000 * hour

abbrev call : Call
call = record {
  checked_at = start;
  failed_at = start;
  now = start;
  session_ttl = day;
  ip = codes "192.0.2.1";
  salt = codes "salt";
  raw = some (7 ∷ 8 ∷ []);
  new_id = 3;
  down = λ n. false;
}

abbrev later : Call
later = record call { checked_at = start + second; now = start + second; raw = some (9 ∷ []) }

abbrev empty : Db
empty = record {
  users = [];
  sessions = [];
  interests = [];
  tags = record { tag_id = 5; tag_name = codes "Go" } ∷ [];
}

abbrev secret : Text
secret = codes "correct horse"

abbrev alice : User
alice = record { id = 3; username = codes "alice"; role = member }

abbrev row : UserRow
row = record { id = 3; name = codes "alice"; password = codes "h:correct horse"; role = member }

abbrev registered : Db
registered = record empty {
  users = row ∷ [];
  sessions =
      record { token_hash = codes "#" ++ (7 ∷ 8 ∷ []); owner = 3; expires_at = start + day } ∷ [];
  interests = record { owner = 3; tag_id = 5; match_int = 10_000 } ∷ [];
}

sign_up :
    signup call empty (codes " alice ") secret (codes "go " ∷ codes "GO" ∷ [])
    ≡ (registered, signed_in alice (7 ∷ 8 ∷ []) (start + day))
unfolding program
sign_up = refl

unknown_tag :
    signup call empty (codes "alice") secret (codes "go" ∷ codes "rust" ∷ [])
    ≡ (empty, denied (validation (tag_unknown ∷ [])))
unfolding program
unknown_tag = refl

common :
    signup call empty (codes "alice") (codes "PASSWORD1234") (codes "go" ∷ [])
    ≡ (empty, denied (validation (password_common ∷ [])))
unfolding program
common = refl

abbrev server : Server
server = record { db = registered; limiter = some new_login_limiter }

sign_in :
    (login limiter_sweep_at later server (codes "alice") secret).1
    ≡ signed_in alice (9 ∷ []) (start + second + day)
unfolding program
sign_in = refl

other_password :
    (login limiter_sweep_at later server (codes "alice") (codes "horse")).1
    ≡ denied invalid_credentials
unfolding program
other_password = refl

registered-IsValid : Valid.IsValid registered
unfolding program
registered-IsValid = record {
  users = (refl, refl, tt);
  sessions = (refl, refl, tt);
  interests = (refl, refl, tt);
}

-- The tag 5 is named twice.
signup-registration_example :
    IsSignedUp call empty
      (trim_space (codes " alice "))
      secret
      (normalize_tags (codes "go " ∷ codes "GO" ∷ [])).0
      (input_errors (codes " alice ") secret (codes "go " ∷ codes "GO" ∷ []))
      5
      (signup call empty (codes " alice ") secret (codes "go " ∷ codes "GO" ∷ []))
signup-registration_example =
    signup-registration call empty (codes " alice ") secret (codes "go " ∷ codes "GO" ∷ []) 5

none_stored : has_token (hash_token (9 ∷ [])) registered.sessions ≡ false
unfolding program
none_stored = refl

signup-login_example :
    (login limiter_sweep_at later server (codes " alice ") secret).1
    ≡ signed_in alice (9 ∷ []) (start + second + day)
signup-login_example =
    signup-login limiter_sweep_at call later empty registered (some new_login_limiter)
      (codes " alice ") secret (7 ∷ 8 ∷ []) (codes "go " ∷ codes "GO" ∷ []) alice (start + day)
      (9 ∷ []) sign_up (unfold program in refl) (unfold program in refl) refl refl refl none_stored

login_sound_example :
    ((r : UserRow) × HasPassed later server (trim_space (codes "alice")) secret r
      × (alice ≡ to_user r))
    × (authenticate false
          (login limiter_sweep_at later server (codes "alice") secret).0.db
          (9 ∷ [])
          (start + hour)
        ≡ until (start + second + day) (start + hour) alice)
login_sound_example =
    login_sound limiter_sweep_at later server
      (login limiter_sweep_at later server (codes "alice") secret).0 (codes "alice") secret (9 ∷ [])
      alice (start + second + day) (start + hour) 9 [] registered-IsValid refl
      (unfold program in refl)

login-hides_example :
    AreAlike
      (login limiter_sweep_at later server (codes "alice") (codes "guess"))
      (login limiter_sweep_at later
        (record { db = empty; limiter = some new_login_limiter })
        (codes "alice")
        (codes "guess"))
      registered
      empty
login-hides_example =
    login-hides limiter_sweep_at later registered empty (some new_login_limiter) (codes "alice")
      (codes "guess") (unfold program in refl) (unfold program in refl)

abbrev signed_out : Db
signed_out = record registered { sessions = [] }

log_out : logout false registered (7 ∷ 8 ∷ []) ≡ (signed_out, none)
unfolding program
log_out = refl

other_hash : hash_token (9 ∷ []) ≢ hash_token (7 ∷ 8 ∷ [])
unfolding hash_token
other_hash e = cc

logout-authenticate_example :
    (authenticate false signed_out (7 ∷ 8 ∷ []) start ≡ unknown invalid_credentials)
    × (authenticate false signed_out (9 ∷ []) start ≡ authenticate false registered (9 ∷ []) start)
logout-authenticate_example =
    logout-authenticate false false registered signed_out (7 ∷ 8 ∷ []) (9 ∷ []) start log_out
      other_hash

abbrev nearly : LimitEntry
nearly = record { failures = 4; window_start = start; lock_until = 0; level = 0 }

abbrev warned : LoginLimiter
warned = record { accounts = (codes "alice", nearly) ∷ []; ips = []; begins = [] }

abbrev warned_server : Server
warned_server = record server { limiter = some warned }

warned_levels : (k : Text) (e : LimitEntry) → lookup k warned.accounts ≡ some e → e.level ≤ 10
unfolding lookup
warned_levels k e q = ground (arith, q)

warned-IsValid : IsValid warned
unfolding lookup
warned-IsValid = record {
  accounts = (refl, tt);
  ips = tt;
  begins = tt;
  levels = warned_levels;
  begun = λ k e q. cc;
}

abbrev bad_login : Server
bad_login = (login limiter_sweep_at call warned_server (codes "Alice") (codes "guess")).0

login-wrong_locked_example :
    (wait : Duration) × (login limiter_sweep_at later bad_login (codes "alice") secret
      ≡ (bad_login, denied (too_many_attempts wait)))
login-wrong_locked_example =
    login-wrong_locked limiter_sweep_at call later warned_server warned nearly (codes "Alice")
      (codes "alice") (codes "guess") secret refl warned-IsValid (unfold program in refl)
      (unfold program in refl) (omega arith) (omega arith) (omega arith) (unfold program in refl)
      (unfold program in refl) (unfold program in refl) (unfold program in refl)
      (unfold program in refl) refl (unfold program in refl)

valid_tag-cut_example :
    (1 ≤ length (codes "Go " ++ 49 ∷ []))
    × (length (codes "Go " ++ 49 ∷ []) ≤ max_tag_chars)
    × (codes "Go " ++ 49 ∷ [] ≡ trim_space (codes "Go " ++ 49 ∷ []))
    × (hidden 49 ≡ false)
    × (((49 == 32) || is_tag_char 49 || letters.is_mark 49) ≡ true)
    × (((49 == 32) && (last_of 0 (codes "Go ") == 32)) ≡ false)
    × ((not (49 == 32) && not (is_tag_char 49) && (last_of 0 (codes "Go ") == 32)) ≡ false)
valid_tag-cut_example = valid_tag-cut (codes "Go ") [] 49 (unfold program in refl)
