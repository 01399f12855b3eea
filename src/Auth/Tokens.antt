-- ===== src/Auth/Tokens.antt =====
-- crates/infrastructure/src/auth/token_store.rs: tokens that are consumed once, by the statement that
-- finds them unused and unexpired.
use bikenest.Base.{
  ℕ, ◌+◌, Bool, not, ◌&&◌, List, [], ◌∷◌, ◌++◌, map, Option, none, some, ltb, if◌then◌else◌, any,
  first, is_some,
}
use bikenest.Base.Text.{Text, text_eq}
use bikenest.Auth.{conflict, Verification, Reset, Outside}
use bikenest.Auth.Monad.{ok, err, Action}

abbrev pub verification_ttl : ℕ
verification_ttl = 86400000

abbrev pub reset_ttl : ℕ
reset_ttl = 3600000

-- The `WHERE`s of the two updates.
unfoldable pub consumable : Text → ℕ → Verification → Bool
consumable h now v = text_eq v.token_hash h && not (is_some v.used_at) && ltb now v.expires_at

unfoldable pub reset_consumable : Text → ℕ → Reset → Bool
reset_consumable h now r = text_eq r.token_hash h && not (is_some r.used_at) && ltb now r.expires_at

module _ (o : Outside) where
  unfoldable pub issue_verification : ℕ → Text → List ℕ → ℕ → Action (Unit {0})
  issue_verification user_id email raw now s =
      if any (λ v. text_eq v.token_hash (o.sha256_hex raw)) s.verifications
      then (err conflict, s)
      else (
        ok tt,
        record s {
          verifications =
              s.verifications
              ++ record {
                token_hash = o.sha256_hex raw;
                user_id = user_id;
                email = email;
                expires_at = now + verification_ttl;
                used_at = none;
              }
                ∷ [];
        },
      )

  abbrev pub spend : Text → ℕ → Verification → Verification
  spend h now v = if consumable h now v then (record v { used_at = some now }) else v

  abbrev pub owner_of : Option Verification → Option (ℕ × Text)
  owner_of none = none
  owner_of (some v) = some (v.user_id, v.email)

  unfoldable pub consume_verification : List ℕ → ℕ → Action (Option (ℕ × Text))
  unfolding consumable
  consume_verification raw now s = (
    ok (owner_of (first (consumable (o.sha256_hex raw) now) s.verifications)),
    record s { verifications = map (spend (o.sha256_hex raw) now) s.verifications },
  )

  unfoldable pub issue_reset : ℕ → List ℕ → ℕ → Action (Unit {0})
  issue_reset user_id raw now s =
      if any (λ r. text_eq r.token_hash (o.sha256_hex raw)) s.resets then (err conflict, s) else (
        ok tt,
        record s {
          resets =
              s.resets
              ++ record {
                token_hash = o.sha256_hex raw;
                user_id = user_id;
                expires_at = now + reset_ttl;
                used_at = none;
              }
                ∷ [];
        },
      )

  abbrev pub spend_reset : Text → ℕ → Reset → Reset
  spend_reset h now r = if reset_consumable h now r then (record r { used_at = some now }) else r

  abbrev pub reset_owner : Option Reset → Option ℕ
  reset_owner none = none
  reset_owner (some r) = some r.user_id

  unfoldable pub consume_reset : List ℕ → ℕ → Action (Option ℕ)
  unfolding reset_consumable
  consume_reset raw now s = (
    ok (reset_owner (first (reset_consumable (o.sha256_hex raw) now) s.resets)),
    record s { resets = map (spend_reset (o.sha256_hex raw) now) s.resets },
  )
