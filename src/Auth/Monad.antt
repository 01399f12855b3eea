-- ===== src/Auth/Monad.antt =====
-- A call of crates/application/src/auth.rs, over its store and its errors.
pub use bikenest.Base.Action.{
  ok, err, pure, raise, gets, or_raise, go_on, ◌>>=◌, ◌>>◌, raise_if, modify, Keeps, >>=-Keeps,
  >>=-ok, raise_if-ok, or_raise-ok, guard-Keeps, ok_inj,
}
use bikenest.Auth.{AuthError, Store}

abbrev pub Outcome : Type 0 → Type 0
Outcome A = bikenest.Base.Action.Outcome AuthError A

abbrev pub Action : Type 0 → Type 0
Action A = bikenest.Base.Action.Action Store AuthError A
