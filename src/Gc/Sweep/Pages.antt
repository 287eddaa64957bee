-- ===== src/Gc/Sweep/Pages.antt =====
-- What a pass of internal/gc/sweep.go may delete.
use bakery.Base.{
  ℕ, zero, suc, ◌≡◌, Bool, true, not, ◌&&◌, List, [], ◌∷◌, Bytes, eq_bytes, any, keep, take, arith,
}
use bakery.Gc.Quota
use bakery.Gc.Quota.{Usage}
use bakery.Gc.Sweep.{Object, Engine, scan, accounted, page_of}

-- Every row of the first list is a row of the second.
abbrev pub Within : List Object → List Object → Type 0
Within os rows = (q : Object → Bool) → any q os ≡ true → any q rows ≡ true

pub any-keep : (p q : Object → Bool) (os : List Object) → any q (keep p os) ≡ true → any q os ≡ true
any-keep p q [] h = h
any-keep p q (o ∷ os) h = ground (arith, any-keep p q os)

pub any-take :
    (n : ℕ) (q : Object → Bool) (os : List Object) → any q (take n os) ≡ true → any q os ≡ true
any-take zero q os h = absurd (cc)
any-take (suc n) q [] h = h
any-take (suc n) q (o ∷ os) h = ground (arith, any-take n q os)

module _ (e : Engine) where
  pub any-page_of :
      (namespace : Bytes) (q : Object → Bool) (os : List Object)
      → any q (page_of e namespace os) ≡ true
      → any (λ o. eq_bytes o.namespace namespace && q o) os ≡ true
  unfolding page_of
  any-page_of namespace q [] h = h
  any-page_of namespace q (o ∷ os) h = ground (arith, any-page_of namespace q os)

  any-accounted :
      (index : ℕ) (doomed q : Object → Bool) (os : List Object) (u : Usage)
      → any q (accounted e index doomed os u).1 ≡ true
      → any (λ o. q o && (doomed o && not (e.pending o))) os ≡ true
  unfolding accounted
  any-accounted index doomed q [] u h = h
  any-accounted index doomed q (o ∷ os) u h = ground (
    arith,
    any-accounted index doomed q os u,
    any-accounted index doomed q os (Quota.observe e.now u (index, o.measured)),
  )

  -- The batch of a page holds prey of the rows only.
  pub batch-prey :
      (namespace after_key : Bytes) (index : ℕ) (doomed q : Object → Bool) (rows : List Object)
      (u : Usage)
      → any q (accounted e index doomed (page_of e namespace (scan e namespace after_key rows)) u).1
        ≡ true
      → any (λ o. eq_bytes o.namespace namespace && (q o && (doomed o && not (e.pending o)))) rows
        ≡ true
  unfolding scan
  batch-prey namespace after_key index doomed q rows u h =
      any-keep (λ o. e.before namespace after_key o.namespace o.key && e.barrier o) _ rows
        (any-take e.batch_size _ _ (any-page_of namespace _ _ (any-accounted index doomed q _ u h)))
