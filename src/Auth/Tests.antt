-- ===== src/Auth/Tests.antt =====
-- Accounts at concrete inputs: two admins, one of whom is suspended, with stand-ins for the hashes.
use bikenest.Base.{ℕ, ◌≡◌, ◌≢◌, refl, true, List, [], ◌∷◌, none, some, arith, first, All}
use bikenest.Base.Text.{codes, text_eq, trim, trim_start, trim_end, is_whitespace}
use bikenest.RateLimit.InMemory.Runs.{fresh_limiter}
use bikenest.Auth.{Account, active, suspended, pt_br, User, admin, user, password, Store, Outside}
use bikenest.Auth.Monad.{ok}
use bikenest.Auth.Accounts.{
  parse_email, split_once, shaped, is_user, roles_bysql, with_roles, load_user, loaded, find_by_id,
  set_state, confirm_email, count_admins, set_password,
}
use bikenest.Auth.Sessions.{resolve, admitted, is_live, revoke_all_for_user_except}
use bikenest.Auth.Tokens.{consume_verification, consume_reset}
use bikenest.Auth.Service.{
  audit, verify_user, confirm_user, confirm_or_taken, record_confirmed, replace_password,
  valid_password,
}
use bikenest.Auth.SignIn.{resolve_session, resolve_user, login_identity}
use bikenest.Auth.Roles.{suspend_user}
use bikenest.Auth.Admins.{RoleCall, revokes_role, call_roles, HasAdmin, call_roles-HasAdmin}
use bikenest.Auth.SingleUse.{consume_once}
use bikenest.Auth.Lifetime.{
  SessionOp, opens, resolves, closes, run_sessions, LetIn, resolve_session-LetIn,
}
use bikenest.Auth.States.{suspend_user-shuts_out, verify_user-active}
use bikenest.Auth.Passwords.{SignedOut, replace_password-SignedOut}
use bikenest.Auth.Login.{Ends, login_identity-Ends}

abbrev plain : Outside
plain = record {
  to_lowercase = λ t. t;
  sha256_hex = λ b. b;
  hash_password = λ salt pw. some pw;
  verify_password = λ pw hash. some (text_eq pw hash);
  encode = λ b. b;
  decode = λ t. some t;
  decimal = λ n. n ∷ [];
  base_url = [];
}

abbrev ada : Account
ada = record {
  id = 1;
  email = codes "ada@b.c";
  display_name = none;
  account_state = active;
  email_verified_at = none;
  locale = pt_br;
}

abbrev bob : Account
bob = record {
  id = 2;
  email = codes "bob@b.c";
  display_name = none;
  account_state = suspended;
  email_verified_at = none;
  locale = pt_br;
}

abbrev token : List ℕ
token =
    9 ∷ 9 ∷ 9 ∷ 9 ∷ 9 ∷ 9 ∷ 9 ∷ 9 ∷ 9 ∷ 9 ∷ 9 ∷ 9 ∷ 9 ∷ 9 ∷ 9 ∷ 9 ∷ 9 ∷ 9 ∷ 9 ∷ 9 ∷ 9 ∷ 9 ∷ 9 ∷ 9
    ∷ 9 ∷ 9 ∷ 9 ∷ 9 ∷ 9 ∷ 9 ∷ 9 ∷ 9 ∷ []

abbrev store : Store
store = record {
  accounts = ada ∷ bob ∷ [];
  identities =
      record {
        user_id = 2;
        provider = password;
        provider_subject = codes "bob@b.c";
        credential_hash = some (codes "open sesame");
      }
      ∷ [];
  grants =
      record { user_id = 1; role = admin; granted_by = none }
      ∷ record { user_id = 2; role = admin; granted_by = none }
      ∷ [];
  sessions =
      record {
        token_hash = codes "s1";
        user_id = 1;
        csrf_token = token;
        created_at = 0;
        last_seen_at = 0;
        expires_at = 1000;
        revoked_at = none;
      }
      ∷ [];
  verifications =
      record {
        token_hash = codes "v1";
        user_id = 2;
        email = codes "bob@b.c";
        expires_at = 500;
        used_at = none;
      }
      ∷ [];
  resets = [];
  mails = [];
  audits = [];
  next_user = 3;
  limiter = fresh_limiter;
}

abbrev ada_user : User
ada_user = record { account = ada; roles = admin ∷ user ∷ [] }

abbrev bob_user : User
bob_user = record { account = bob; roles = admin ∷ user ∷ [] }

-- Each admin revokes the other.
abbrev duel : List RoleCall
duel = revokes_role ada_user 2 admin ∷ revokes_role bob_user 1 admin ∷ []

store-HasAdmin : HasAdmin store.grants
unfolding count_admins
store-HasAdmin = record { keyed = ground arith; admins = omega arith }

call_roles-HasAdmin_example : HasAdmin (call_roles duel store).grants
call_roles-HasAdmin_example = call_roles-HasAdmin duel store store-HasAdmin

consume_once_example :
    ((consume_verification plain
        (codes "v1")
        20
        (consume_verification plain (codes "v1") 10 store).1).0
      ≡ ok none)
    × ((consume_reset plain (codes "v1") 20 (consume_reset plain (codes "v1") 10 store).1).0
        ≡ ok none)
consume_once_example = consume_once plain (codes "v1") 10 20 store (omega arith)

ada_let_in : (resolve_session plain 10 (codes "s1") store).0 ≡ ok (some (ada_user, token))
unfolding resolve_session resolve resolve_user admitted is_live find_by_id loaded load_user
    with_roles roles_bysql parse_email split_once shaped trim trim_start trim_end is_whitespace
    text_eq
ada_let_in = refl

-- A login, a request and another login, from a table without sessions.
abbrev no_sessions : Store
no_sessions = record store { sessions = [] }

abbrev a_day : List SessionOp
a_day =
    opens 1 (codes "s1") token 5
    ∷ resolves (codes "s1") 7
    ∷ opens 2 (codes "s2") token 8
    ∷ closes (codes "s2") 9
    ∷ []

ada_comes_back :
    (resolve_session plain 10 (codes "s1") (run_sessions plain a_day no_sessions)).0
    ≡ ok (some (ada_user, token))
unfolding run_sessions resolve_session resolve resolve_user admitted is_live find_by_id loaded
    load_user with_roles roles_bysql parse_email split_once shaped trim trim_start trim_end
    is_whitespace text_eq
ada_comes_back = refl

resolve_session-LetIn_example : LetIn plain 10 (codes "s1") (run_sessions plain a_day no_sessions) 1
resolve_session-LetIn_example =
    resolve_session-LetIn plain a_day 10 (codes "s1") no_sessions ada_user token tt ada_comes_back

bob_suspends : (suspend_user plain 5 ada_user 2 store).0 ≡ ok tt
unfolding suspend_user set_state revoke_all_for_user_except audit
bob_suspends = refl

ada_still_in :
    (resolve_session plain 10 (codes "s1") (suspend_user plain 5 ada_user 2 store).1).0
    ≡ ok (some (ada_user, token))
unfolding suspend_user set_state revoke_all_for_user_except audit resolve_session resolve
    resolve_user admitted is_live find_by_id loaded load_user with_roles roles_bysql parse_email
    split_once shaped trim trim_start trim_end is_whitespace text_eq
ada_still_in = refl

suspend_user-shuts_out_example : ada_user.account.id ≢ 2
suspend_user-shuts_out_example =
    suspend_user-shuts_out plain 5 10 ada_user ada_user 2 (codes "s1") token store bob_suspends
      ada_still_in

bob_confirms : (verify_user plain 20 2 (codes "bob@b.c") bob_user store).0 ≡ ok tt
unfolding verify_user confirm_user confirm_or_taken confirm_email record_confirmed audit parse_email
    split_once shaped trim trim_start trim_end is_whitespace text_eq
bob_confirms = refl

-- A suspended account is active again.
verify_user-active_example :
    (a : Account) × (first
        (is_user 2)
        (verify_user plain 20 2 (codes "bob@b.c") bob_user store).1.accounts
      ≡ some a)
    × (a.account_state ≡ active)
    × (a.email_verified_at ≡ some 20)
    × (parse_email plain (codes "bob@b.c") ≡ some a.email)
verify_user-active_example =
    verify_user-active plain 20 2 (codes "bob@b.c") bob_user bob store refl bob_confirms

new_password : (replace_password plain 30 1 (codes "correct horse") [] [] store).0 ≡ ok tt
unfolding replace_password valid_password set_password revoke_all_for_user_except audit
new_password = refl

replace_password-SignedOut_example :
    All
      (SignedOut plain 30 1 [])
      (replace_password plain 30 1 (codes "correct horse") [] [] store).1.sessions
replace_password-SignedOut_example =
    replace_password-SignedOut plain 30 1 [] (codes "correct horse") [] store new_password

login_identity-Ends_example :
    Ends plain 40
      (codes "bob@b.c")
      (codes "open sesame")
      token
      token
      (login_identity plain 40
        (codes "bob@b.c")
        (codes "open sesame")
        token
        token
        (first (λ i. true) store.identities)
        store)
      store
login_identity-Ends_example =
    login_identity-Ends plain 40 (codes "bob@b.c") (codes "open sesame") token token
      (first (λ i. true) store.identities) store
