-- ===== src/Cache/Hashserv/Exec/Keeps.antt =====
-- Invariants of the actions of internal/cache/hashserv, with a rule for every way in which its Go
-- functions are put together.
use bakery.Base.{◌≡◌, refl, Bool, true, false, if◌then◌else◌}
use bakery.Cache.Hashserv.Exec.{
  Error, Result, ok, err, Exec, pure, fail, read_state, attempt, resume, ◌>>=◌,
}

-- What holds of a result; nothing is said of an error.
abbrev pub Post : {A : Type 0} → (A → Type 0) → Result A → Type 0
Post Q (err e) = Unit {0}
Post Q (ok a) = Q a

-- The action leaves a state with `P` in one with `P`, and a result that it returns satisfies `Q`.
pub record Ensures {S A : Type 0} (P : S → Type 0) (Q : A → Type 0) (m : Exec S A) : Type 0 where
  pub after : (w : S) → P w → P (m w).1 × Post Q (m w).0

-- The action leaves a state with `P` in one with `P`, also where it fails.
pub record Keeps {S A : Type 0} (P : S → Type 0) (m : Exec S A) : Type 0 where
  pub after : (w : S) → P w → P (m w).1

module _ {S A B : Type 0} {P : S → Type 0} where
  resume-Ensures :
      (Q : A → Type 0) (R : B → Type 0) (res : Result A) (k : A → Exec S B) (w : S)
      → P w
      → Post Q res
      → ((a : A) → Q a → Ensures P R (k a))
      → P (resume res k w).1 × Post R (resume res k w).0
  resume-Ensures Q R (err e) k w p q rest = (p, tt)
  resume-Ensures Q R (ok a) k w p q rest = (rest a q).after w p

  resume-Keeps :
      (Q : A → Type 0) (res : Result A) (k : A → Exec S B) (w : S)
      → P w
      → Post Q res
      → ((a : A) → Q a → Keeps P (k a))
      → P (resume res k w).1
  resume-Keeps Q (err e) k w p q rest = p
  resume-Keeps Q (ok a) k w p q rest = (rest a q).after w p

  -- What comes next may use what is known of the result.
  pub Ensures-chain :
      (Q : A → Type 0) (R : B → Type 0) (m : Exec S A) (k : A → Exec S B)
      → Ensures P Q m
      → ((a : A) → Q a → Ensures P R (k a))
      → Ensures P R (m >>= k)
  unfolding ◌>>=◌
  Ensures-chain Q R m k first rest = record {
    after = λ w p.
        let (p', q) = first.after w p in
        let (res, w') = m w in resume-Ensures Q R res k w' p' q rest;
  }

  pub Ensures-bind :
      (Q : A → Type 0) (m : Exec S A) (k : A → Exec S B)
      → Ensures P Q m
      → ((a : A) → Q a → Keeps P (k a))
      → Keeps P (m >>= k)
  unfolding ◌>>=◌
  Ensures-bind Q m k first rest = record {
    after = λ w p.
        let (p', q) = first.after w p in let (res, w') = m w in resume-Keeps Q res k w' p' q rest;
  }

module _ {S A : Type 0} {P : S → Type 0} where
  pub Ensures-pure : (Q : A → Type 0) (a : A) → Q a → Ensures P Q (pure a)
  unfolding pure
  Ensures-pure Q a q = record { after = λ w p. (p, q) }

  pub Keeps-Ensures : (m : Exec S A) → Keeps P m → Ensures P (λ a. Unit {0}) m
  Keeps-Ensures m k = record { after = λ w p. (k.after w p, trivial (m w).0) }
    where
      trivial : (res : Result A) → Post (λ a. Unit {0}) res
      trivial (ok a) = tt
      trivial (err e) = tt

  pub Keeps-if :
      (test : Bool) (yea nay : Exec S A)
      → (test ≡ true → Keeps P yea)
      → (test ≡ false → Keeps P nay)
      → Keeps P (if test then yea else nay)
  Keeps-if false yea nay y n = n refl
  Keeps-if true yea nay y n = y refl

  pub Keeps-attempt : (m : Exec S A) → Keeps P m → Keeps P (attempt m)
  unfolding attempt
  Keeps-attempt m k = record { after = k.after }

  pub Keeps-read_state : (look : S → A) → Keeps P (read_state look)
  unfolding read_state
  Keeps-read_state look = record { after = λ w p. p }

  pub Keeps-fail : (e : Error) → Keeps P (fail {A = A} e)
  unfolding fail
  Keeps-fail e = record { after = λ w p. p }

  pub Keeps-pure : (a : A) → Keeps P (pure a)
  unfolding pure
  Keeps-pure a = record { after = λ w p. p }

module _ {S A B : Type 0} {P : S → Type 0} where
  pub Keeps-bind :
      (m : Exec S A) (k : A → Exec S B) → Keeps P m → ((a : A) → Keeps P (k a)) → Keeps P (m >>= k)
  Keeps-bind m k first rest =
      Ensures-bind (λ a. Unit {0}) m k (Keeps-Ensures m first) (λ a _. rest a)

pub ruleset keeps_rules =
    (Keeps-if, Keeps-bind, Keeps-attempt, Keeps-read_state, Keeps-fail, Keeps-pure)
