-- ===== src/Cache/Hashserv/Exec.antt =====
-- The Go functions of internal/cache/hashserv that read and write through a connection or a database:
-- a state goes in, and comes back beside the result or the error. What was written before an error
-- stays written.
pub mod Keeps

-- An invokeError with its text's template, errUnknownRPC, errClosed, and any other error.
pub data Refusal : Type 0 where
  not_authenticated missing_read missing_report missing_db_admin : Refusal
  malformed no_credential no_access invalid_unihash bad_filter : Refusal

pub data Error : Type 0 where
  invoke : Refusal → Error
  unknown_rpc closed failed bad_handshake bad_line : Error

pub data Result {ℓ} (A : Type ℓ) : Type ℓ where
  ok : A → Result A
  err : Error → Result A

abbrev pub Exec : Type 0 → Type 0 → Type 0
Exec S A = S → Result A × S

module _ {S A : Type 0} where
  unfoldable pub read_state : (S → A) → Exec S A
  read_state look w = (ok (look w), w)

  -- `if err := m; err != nil { log }`: the error is dropped.
  unfoldable pub attempt : Exec S A → Exec S (Unit {0})
  attempt m w = (ok tt, (m w).1)

  unfoldable pub fail : Error → Exec S A
  fail e w = (err e, w)

  unfoldable pub pure : A → Exec S A
  pure a w = (ok a, w)

module _ {S : Type 0} where
  unfoldable pub modify : (S → S) → Exec S (Unit {0})
  modify change w = (ok tt, change w)

infixl 10 ◌>>=◌ ◌>>◌
-- `if err != nil { return err }` after a call, and what follows it.
abbrev pub resume : {S A B : Type 0} → Result A → (A → Exec S B) → Exec S B
resume (err e) k w = (err e, w)
resume (ok a) k w = k a w

unfoldable pub ◌>>=◌ : {S A B : Type 0} → Exec S A → (A → Exec S B) → Exec S B
unfolding modify read_state fail pure
◌>>=◌ m k w = let (res, w') = m w in resume res k w'

abbrev pub ◌>>◌ : {S A B : Type 0} → Exec S A → Exec S B → Exec S B
first >> second = first >>= λ _. second
