-- ===== src/Cache/Hashserv/Framing/Quiet.antt =====
-- The actions of internal/cache/hashserv that neither read nor write the connection.
use bakery.Base.{ℕ, ◌≡◌, refl, ap, Bool, true, false, List, [], ◌∷◌, if◌then◌else◌, Bytes}
use bakery.Cache.Hashserv.Exec.{Error, Result, ok, err, pure, fail, modify, attempt, resume, ◌>>=◌}
use bakery.Cache.Hashserv.Tables.{Tables}
use bakery.Cache.Hashserv.World.{World, Conn, M, queried, query, ask, touch}
use bakery.Cache.Hashserv.Framing.Streams.{IsQuiet, on_conn}

module _ {A : Type 0} where
  pub pure-IsQuiet : (a : A) → IsQuiet (pure a)
  unfolding pure
  pure-IsQuiet a = record { at = λ c w. refl }

  pub fail-IsQuiet : (e : Error) → IsQuiet (fail {A = A} e)
  unfolding fail
  fail-IsQuiet e = record { at = λ c w. refl }

  pub ask-IsQuiet : (f : ℕ → A) → IsQuiet (ask f)
  unfolding ask
  ask-IsQuiet f = record { at = λ c w. refl }

  queried_at :
      (q : Tables → A × Tables) (fs : List Bool) (c : Conn) (w : World)
      → queried q fs (on_conn c w) ≡ ((queried q fs w).0, on_conn c (queried q fs w).1)
  queried_at q [] c w = refl
  queried_at q (true ∷ fs) c w = refl
  queried_at q (false ∷ fs) c w = refl

  pub query-IsQuiet : (q : Tables → A × Tables) → IsQuiet (query q)
  unfolding query
  query-IsQuiet q = record { at = λ c w. queried_at q w.faults c w }

  pub attempt-IsQuiet : (m : M A) → IsQuiet m → IsQuiet (attempt m)
  unfolding attempt
  attempt-IsQuiet m k = record { at = λ c w. rw (k.at c w) refl }

  pub if-IsQuiet : (b : Bool) (m n : M A) → IsQuiet m → IsQuiet n → IsQuiet (if b then m else n)
  if-IsQuiet true m n km kn = km
  if-IsQuiet false m n km kn = kn

pub touch-IsQuiet : (m k : Bytes) → IsQuiet (touch m k)
unfolding touch
touch-IsQuiet m k = record { at = λ c w. refl }

pub modify-IsQuiet :
    (f : World → World)
    → ((c : Conn) (w : World) → f (on_conn c w) ≡ on_conn c (f w))
    → IsQuiet (modify f)
unfolding modify
modify-IsQuiet f k = record { at = λ c w. ap (λ (v : World). (ok tt, v)) (k c w) }

module _ {A B : Type 0} where
  continue_at :
      (r : Result A) (f : A → M B) (c : Conn) (w : World)
      → ((a : A) → IsQuiet (f a))
      → resume r f (on_conn c w) ≡ ((resume r f w).0, on_conn c (resume r f w).1)
  continue_at (ok a) f c w k = (k a).at c w
  continue_at (err e) f c w k = refl

  pub bind-IsQuiet :
      (m : M A) (f : A → M B) → IsQuiet m → ((a : A) → IsQuiet (f a)) → IsQuiet (m >>= f)
  unfolding ◌>>=◌
  bind-IsQuiet m f km kf = record {
    at = λ c w. let (r, w') = m w in rw (km.at c w) (continue_at r f c w' kf);
  }

pub ruleset quiet_rules = (
  pure-IsQuiet, fail-IsQuiet, ask-IsQuiet, query-IsQuiet, attempt-IsQuiet, if-IsQuiet,
  touch-IsQuiet, bind-IsQuiet,
)
