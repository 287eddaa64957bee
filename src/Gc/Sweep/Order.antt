-- ===== src/Gc/Sweep/Order.antt =====
-- What a page of internal/gc/sweep.go holds of the rows after its cursor, these being in order.
use bakery.Base.{
  ℕ, zero, suc, ◌≡◌, refl, sym, ap, ◌∙◌, Bool, true, false, not, ◌&&◌, ◌||◌, List, [], ◌∷◌, Bytes,
  eq_bytes, eq_bytes_iff, Bool-cases, inl, inr, all, any, keep, take, length, ltb, arith,
}
use bakery.Gc.Sweep.Ends.{any_const}
use bakery.Gc.Sweep.{Object, Engine, page_of, last_key}

pub all_mono :
    (p q : Object → Bool) (os : List Object)
    → ((o : Object) → p o ≡ true → q o ≡ true)
    → all p os ≡ true
    → all q os ≡ true
all_mono p q [] h a = refl
all_mono p q (o ∷ os) h a = ground (arith, h o, all_mono p q os h)

pub all-keep : (p q : Object → Bool) (os : List Object) → all q os ≡ true → all q (keep p os) ≡ true
all-keep p q [] h = h
all-keep p q (o ∷ os) h = ground (arith, all-keep p q os)

pub all_kept : (p : Object → Bool) (os : List Object) → all p (keep p os) ≡ true
all_kept p [] = refl
all_kept p (o ∷ os) = ground (arith, all_kept p os)

-- Where `r` holds of all row, `p` implies `q`.
pub any_where :
    (r p q : Object → Bool) (os : List Object)
    → all r os ≡ true
    → ((o : Object) → r o ≡ true → p o ≡ true → q o ≡ true)
    → any p os ≡ true
    → any q os ≡ true
any_where r p q [] a h b = b
any_where r p q (o ∷ os) a h b = ground (arith, h o, any_where r p q os)

module _ (e : Engine) where
  abbrev pub ahead : Object → Object → Bool
  ahead a b = e.before a.namespace a.key b.namespace b.key

  -- Each row comes before those that follow it.
  abbrev pub in_order : List Object → Bool
  in_order [] = true
  in_order (o ∷ os) = all (ahead o) os && in_order os

  pub in_order-keep :
      (p : Object → Bool) (os : List Object) → in_order os ≡ true → in_order (keep p os) ≡ true
  in_order-keep p [] h = h
  in_order-keep p (o ∷ os) h = ground (arith, in_order-keep p os, all-keep p (ahead o) os)

  module _ (namespace : Bytes) where
    abbrev pub past : Bytes → Object → Bool
    past k o = e.before namespace k o.namespace o.key

    ahead-past :
        (o x : Object)
        → eq_bytes o.namespace namespace ≡ true
        → ahead o x ≡ true
        → past o.key x ≡ true
    ahead-past o x n h =
        ap (λ n. e.before n o.key x.namespace x.key)
          (sym ((eq_bytes_iff o.namespace namespace).0 n))
        ∙ h

    -- A row of the namespace after the first key, and not after the last row of the page, that passes.
    abbrev pub not_past : Bytes → Bytes → (Object → Bool) → Object → Bool
    not_past k last q x = past k x && (eq_bytes x.namespace namespace && (not (past last x) && q x))

    -- A row of the namespace that is not after the last one of the page is on it.
    pub page-prefix :
        (b : ℕ) (k : Bytes) (q : Object → Bool) (os : List Object)
        → in_order os ≡ true
        → any (not_past k (last_key e k (page_of e namespace (take b os))) q) os ≡ true
        → any q (page_of e namespace (take b os)) ≡ true
    unfolding page_of
    page-prefix zero k q os h a = any_const _ _ os (λ o a. ground arith) a
    page-prefix (suc b) k q [] h a = a
    page-prefix (suc b) k q (o ∷ os) h a =
        let page = page_of e namespace (take (suc b) (o ∷ os)) in
        let rest = page_of e namespace (take b os) in
        let at : (P : List Object)
            → page ≡ P
            → any (not_past k (last_key e k P) q) (o ∷ os) ≡ true =
          λ P same. sym (ap (λ P. any (not_past k (last_key e k P) q) (o ∷ os)) same) ∙ a in
        elim (Bool-cases (eq_bytes o.namespace namespace)) [
          | inl n ↦
              let shape : page ≡ o ∷ rest = rw n refl in
              let last = last_key e o.key rest in
              let order : (all (ahead o) os ≡ true) × (in_order os ≡ true) =
                (ground arith, ground arith) in
              let next : any (not_past k last q) os ≡ true → any q rest ≡ true = λ t.
                page-prefix b o.key q os order.1 (
                  any_where (ahead o) _ (not_past o.key last q) os order.0
                    (λ x r p. ground (arith, ahead-past o x n r)) t) in
              ap (any q) shape ∙ ground (arith, next, at _ shape)
          | inr n ↦
              let shape : page ≡ [] = rw n refl in
              ap (any q) shape
              ∙ any_const _ (not_past k k q) (o ∷ os) (λ x c. ground (arith, c)) (at _ shape)
        ]

    -- The rows of the namespace are contiguous.
    abbrev pub IsConvex : Type 0
    IsConvex =
        (a n b c : Bytes)
        → e.before namespace a n b ≡ true
        → e.before n b namespace c ≡ true
        → eq_bytes n namespace ≡ true

    between :
        (o x : Object) (k : Bytes)
        → IsConvex
        → past k o ≡ true
        → ahead o x ≡ true
        → eq_bytes x.namespace namespace ≡ true
        → eq_bytes o.namespace namespace ≡ true
    between o x k convex p r n = convex k o.namespace o.key x.key p (
        sym
          (ap (λ n. e.before o.namespace o.key n x.key) ((eq_bytes_iff x.namespace namespace).0 n))
        ∙ r)

    -- A page that is shorter than what was read, or than the batch, holds the rest of the namespace.
    pub page-rest :
        (b : ℕ) (k : Bytes) (q : Object → Bool) (os : List Object)
        → IsConvex
        → in_order os ≡ true
        → all (past k) os ≡ true
        → (ltb (length (page_of e namespace (take b os))) (length (take b os))
            || ltb (length (take b os)) b)
          ≡ true
        → any (λ x. eq_bytes x.namespace namespace && q x) os ≡ true
        → any q (page_of e namespace (take b os)) ≡ true
    unfolding page_of
    page-rest zero k q os convex h f l a = absurd (ground arith)
    page-rest (suc b) k q [] convex h f l a = a
    page-rest (suc b) k q (o ∷ os) convex h f l a =
        let page = page_of e namespace (take (suc b) (o ∷ os)) in
        let rest = page_of e namespace (take b os) in
        let order : (all (ahead o) os ≡ true) × (in_order os ≡ true) =
          (ground arith, ground arith) in
        let first : past k o ≡ true = ground arith in
        elim (Bool-cases (eq_bytes o.namespace namespace)) [
          | inl n ↦
              let shape : page ≡ o ∷ rest = rw n refl in
              let beyond : all (past o.key) os ≡ true =
                all_mono (ahead o) (past o.key) os (λ x r. ahead-past o x n r) order.0 in
              let short : (ltb (length rest) (length (take b os)) || ltb (length (take b os)) b)
                  ≡ true =
                ground (arith, ap length shape) in
              let next = page-rest b o.key q os convex order.1 beyond short in
              ap (any q) shape ∙ ground (arith, next)
          | inr n ↦
              let nowhere : any (λ x. false) os ≡ true =
                any_where (ahead o) (λ x. eq_bytes x.namespace namespace && q x) (λ x. false) os
                  order.0 (λ x r p. ground (arith, between o x k convex first r)) (ground arith) in
              any_const _ (λ x. false) os (λ x c. ground (arith, c)) nowhere
        ]
