-- ===== src/Auth/SingleUse.antt =====
-- Repeated uses of a token, in crates/infrastructure/src/auth/token_store.rs.
use bikenest.Base.{
  ℕ, ◌≤◌, ◌≡◌, refl, ap, Bool, false, List, [], ◌∷◌, map, none, inl, inr, arith, Bool-cases, first,
}
use bikenest.Base.Text.{Text}
use bikenest.Auth.{Verification, Reset, Store, Outside}
use bikenest.Auth.Monad.{ok}
use bikenest.Auth.Tokens.{
  consumable, reset_consumable, spend, owner_of, spend_reset, reset_owner, consume_verification,
  consume_reset,
}

pub first-none {ℓ} :
    {A : Type ℓ} (p : A → Bool) (f : A → A) (l : List A)
    → ((a : A) → p (f a) ≡ false)
    → first p (map f l) ≡ none
first-none p f [] h = refl
first-none p f (a ∷ l) h = rw (h a) (first-none p f l h)

spent :
    (o : Outside) (h : Text) (now later : ℕ) (v : Verification)
    → now ≤ later
    → consumable h later (spend o h now v) ≡ false
unfolding consumable
spent o h now later v le = elim (Bool-cases (consumable h now v)) [
  | inl e ↦ rw e (ground arith)
  | inr e ↦ rw e (ground (arith, e))
]

spent_reset :
    (o : Outside) (h : Text) (now later : ℕ) (r : Reset)
    → now ≤ later
    → reset_consumable h later (spend_reset o h now r) ≡ false
unfolding reset_consumable
spent_reset o h now later r le = elim (Bool-cases (reset_consumable h now r)) [
  | inl e ↦ rw e (ground arith)
  | inr e ↦ rw e (ground (arith, e))
]

-- After a first attempt to consume a token, whatever it gave, no later attempt at the same token
-- gives anything, and so for both kinds of tokens.
pub consume_once :
    (o : Outside) (raw : List ℕ) (now later : ℕ) (s : Store)
    → now ≤ later
    → ((consume_verification o raw later (consume_verification o raw now s).1).0 ≡ ok none)
      × ((consume_reset o raw later (consume_reset o raw now s).1).0 ≡ ok none)
unfolding consume_verification consume_reset
consume_once o raw now later s le = (
  ap (λ v. ok (owner_of o v))
      (first-none (consumable (o.sha256_hex raw) later) (spend o (o.sha256_hex raw) now)
        s.verifications (λ v. spent o (o.sha256_hex raw) now later v le)),
  ap (λ r. ok (reset_owner o r))
      (first-none (reset_consumable (o.sha256_hex raw) later) (spend_reset o (o.sha256_hex raw) now)
        s.resets (λ r. spent_reset o (o.sha256_hex raw) now later r le)),
)
