-- ===== src/Cache/ByteStream/Slices.antt =====
-- What a download of internal/cache/bazel/bytestream.go promises: the bytes of a slice, whatever the
-- frames.
use mathlib.Core.Path.{subst}
use bakery.Base.{
  ap, sym, ==_iff, eq_bytes, ◌&&◌, ℕ, zero, suc, ◌+◌, ◌≤◌, ◌<◌, ◌≡◌, refl, Bool, true, false, none,
  some, List, [], ◌∷◌, ◌++◌, Bytes, ltb, ◌==◌, if◌then◌else◌, length, take, drop, All, arith,
  Bool-cases, inl, inr,
}
use bakery.Cache.Resource.{ResourceName, ok, parse_resource_name}
use bakery.Cache.ByteStream.{
  Status, invalid_argument, out_of_range, not_found, read_chunk, is_empty_blob,
  zero_size_but_not_empty, empty_sha256_hex, Got, missing, broken, found, Env, ReadRequest, Attempt,
  offers, breaks, Sent, Answer, refused, streamed, nothing_sent, send, is_empty, at_most, pump,
  limited, is_capped, pumped, served, read_blob, read,
}

abbrev pub joined : List Bytes → Bytes
joined [] = []
joined (f ∷ fs) = f ++ joined fs

abbrev IsFrame : Bytes → Type 0
IsFrame f = (0 < length f) × (length f ≤ read_chunk)

abbrev breaking : List Attempt → Bool
breaking [] = false
breaking (breaks ∷ plan) = true
breaking (offers n ∷ plan) = breaking plan

-- The frames are the text cut up, or a part of it from its start where something broke.
pub record Carries (s : Sent) (text : Bytes) (plan : List Attempt) : Type 0 where
  pub rest : Bytes
  pub whole : joined s.frames ++ rest ≡ text
  pub sized : All IsFrame s.frames
  pub all_sent : s.complete ≡ true → rest ≡ []
  pub unbroken : breaking plan ≡ false → s.complete ≡ true

pub length-take-drop : (n : ℕ) (s : Bytes) → length (take n s) + length (drop n s) ≡ length s
length-take-drop zero s = omega arith
length-take-drop (suc n) [] = omega arith
length-take-drop (suc n) (b ∷ s) = omega (arith, length-take-drop n s)

take-drop : (n : ℕ) (s : Bytes) → take n s ++ drop n s ≡ s
take-drop zero s = refl
take-drop (suc n) [] = refl
take-drop (suc n) (b ∷ s) = ground (arith, take-drop n s)

pub take-append-drop : (n : ℕ) (s t r : Bytes) → t ++ r ≡ drop n s → (take n s ++ t) ++ r ≡ s
take-append-drop zero s t r h = h
take-append-drop (suc n) [] t r h = h
take-append-drop (suc n) (b ∷ s) t r h = ground (arith, take-append-drop n s t r h)

length-take : (n : ℕ) (s : Bytes) → length (take n s) ≤ n
length-take zero s = omega arith
length-take (suc n) [] = omega arith
length-take (suc n) (b ∷ s) = omega (arith, length-take n s)

length-taken :
    (n : ℕ) (s : Bytes)
    → is_empty s ≡ false
    → 0 < n
    → (0 < length (take n s)) × (length (take n s) ≤ n)
length-taken zero s e h = absurd (omega (arith, h))
length-taken (suc n) [] e h = absurd (cc)
length-taken (suc n) (b ∷ s) e h = (omega arith, length-take (suc n) (b ∷ s))

length-drop : (n : ℕ) (s : Bytes) → length (drop n s) ≤ length s
length-drop n s = omega (arith, length-take-drop n s)

-- One more frame.
send-Carries :
    (n : ℕ) (s : Sent) (text : Bytes) (plan : List Attempt)
    → is_empty text ≡ false
    → 0 < n
    → n ≤ read_chunk
    → Carries s (drop n text) plan
    → Carries (send (take n text) s) text plan
send-Carries n s text plan e h k c =
    let (positive, small) = length-taken n text e h in
    record {
      rest = c.rest;
      whole = take-append-drop n text (joined s.frames) c.rest c.whole;
      sized = ((positive, omega (arith, small, k)), c.sized);
      all_sent = c.all_sent;
      unbroken = c.unbroken;
    }

ended-Carries :
    (text : Bytes) (plan : List Attempt)
    → is_empty text ≡ true
    → Carries (nothing_sent true) text plan
ended-Carries [] plan e = record {
  rest = [];
  whole = refl;
  sized = tt;
  all_sent = λ h. refl;
  unbroken = λ h. refl;
}
ended-Carries (b ∷ text) plan e = absurd (cc)

broken-Carries :
    (capped : Bool) (text : Bytes) (plan : List Attempt)
    → Carries (nothing_sent (is_empty text && capped)) text (breaks ∷ plan)
broken-Carries capped text plan = record {
  rest = text;
  whole = refl;
  sized = tt;
  all_sent = none_left text;
  unbroken = λ h. absurd (cc);
}
  where
    none_left : (t : Bytes) → is_empty t && capped ≡ true → t ≡ []
    none_left [] h = refl
    none_left (b ∷ t) h = absurd (cc)

at_most-le : (n m : ℕ) → at_most n m ≤ m
at_most-le n m = ground arith

offered :
    (n : ℕ) (plan : List Attempt) (s : Sent) (text : Bytes)
    → Carries s text plan
    → Carries s text (offers n ∷ plan)
offered n plan s text c = record {
  rest = c.rest;
  whole = c.whole;
  sized = c.sized;
  all_sent = c.all_sent;
  unbroken = c.unbroken;
}

pump-Carries :
    (capped : Bool) (fuel : ℕ) (plan : List Attempt) (text : Bytes)
    → length plan + length text < fuel
    → Carries (pump capped fuel plan text) text plan
unfolding pump
pump-Carries capped zero plan text h = absurd (omega (arith, h))
pump-Carries capped (suc fuel) [] text h = elim (Bool-cases (is_empty text)) [
  | inl e ↦ rw e (ended-Carries text [] e)
  | inr e ↦
      let (positive, small) = length-taken read_chunk text e (omega arith) in
      let shorter = length-take-drop read_chunk text in
      rw e (
        send-Carries read_chunk _ text [] e (omega arith) (omega arith) (
          pump-Carries capped fuel [] (drop read_chunk text) (omega (arith, h, positive, shorter))))
]
pump-Carries capped (suc fuel) (breaks ∷ plan) text h = broken-Carries capped text plan
pump-Carries capped (suc fuel) (offers n ∷ plan) text h =
    let size = at_most n read_chunk in
    let rest = pump capped fuel plan (drop size text) in
    let later : Carries rest (drop size text) plan =
      pump-Carries capped fuel plan (drop size text) (omega (arith, h, length-drop size text)) in
    elim (Bool-cases (is_empty text)) [
      | inl e ↦ rw e (ended-Carries text (offers n ∷ plan) e)
      | inr e ↦ elim (Bool-cases (size == 0)) [
        | inl z ↦
            let same : drop size text ≡ text = ap (λ k. drop k text) ((==_iff size 0).0 z) in
            rw (e, z) (offered n plan rest text (subst (λ t. Carries rest t plan) same later))
        | inr z ↦
            rw (e, z)
              (offered n plan (send (take size text) rest) text (
                send-Carries size rest text plan e (ground (arith, z, ==_iff size 0))
                  (at_most-le n read_chunk) later))
      ]
    ]

-- The bytes of a read: all from the offset, or as many as the limit, where it is not 0.
abbrev pub slice : ℕ → ℕ → Bytes → Bytes
slice offset limit content =
    if limit == 0 then drop offset content else take limit (drop offset content)

-- What REAPI promises of a read, whatever the messages.
pub data Promise : Type 0 where
  refuses : Status → Promise
  delivers : Bytes → Promise

abbrev pub promised : ℕ → ℕ → Got → Promise
promised offset limit missing = refuses not_found
promised offset limit (broken status) = refuses status
promised offset limit (found content) =
    if ltb (length content) offset
    then refuses out_of_range
    else delivers (slice offset limit content)

-- The answer keeps the promise, with this behaviour of the reader.
pub data Keeps (plan : List Attempt) : Answer → Promise → Type 0 where
  refusing : (status : Status) → Keeps plan (refused status) (refuses status)
  delivering :
      (s : Sent) (text : Bytes) → Carries s text plan → Keeps plan (streamed s) (delivers text)

limited-slice :
    (offset limit : ℕ) (content : Bytes)
    → limited limit (drop offset content) ≡ slice offset limit content
limited-slice offset limit content = ground arith

drop_all : (s : Bytes) → drop (length s) s ≡ []
drop_all [] = refl
drop_all (b ∷ s) = drop_all s

take_none : (n : ℕ) → take {A = ℕ} n [] ≡ []
take_none zero = refl
take_none (suc n) = refl

slice_past : (limit : ℕ) (content : Bytes) → is_empty (slice (length content) limit content) ≡ true
slice_past limit content = ground (arith, drop_all content, take_none limit)

module _ (e : Env) (plan : List Attempt) where
  pumped-Carries : (capped : Bool) (text : Bytes) → Carries (pumped e plan capped text) text plan
  pumped-Carries capped text =
      pump-Carries capped (suc (length plan + length text)) plan text (omega arith)

  served-Keeps :
      (offset limit : ℕ) (g : Got)
      → Keeps plan (served e plan offset limit g) (promised offset limit g)
  served-Keeps offset limit missing = refusing not_found
  served-Keeps offset limit (broken status) = refusing status
  served-Keeps offset limit (found content) = elim (Bool-cases (ltb (length content) offset)) [
    | inl t ↦ rw t (refusing out_of_range)
    | inr t ↦ elim (Bool-cases (offset == length content)) [
      | inl z ↦
          let text = slice offset limit content in
          let at : offset ≡ length content = (==_iff offset (length content)).0 z in
          let past : is_empty text ≡ true =
            subst (λ n. is_empty (slice n limit content) ≡ true) (sym at)
              (slice_past limit content) in
          rw (t, z) (delivering (nothing_sent true) text (ended-Carries text plan past))
      | inr z ↦
          let capped = is_capped limit (drop offset content) in
          let text = limited limit (drop offset content) in
          rw (t, z)
            (delivering (pumped e plan capped text) (slice offset limit content) (
              subst (λ t. Carries (pumped e plan capped text) t plan)
                (limited-slice offset limit content) (pumped-Carries capped text)))
    ]
  ]

  -- The blob that a name stands for: the empty one is in no store.
  abbrev pub blob_of : ResourceName → Got
  blob_of r = if is_empty_blob r.hash r.size then found [] else e.get r.instance_name r.hash

  abbrev pub promise : ResourceName → ℕ → ℕ → Promise
  promise r offset limit =
      if zero_size_but_not_empty r.hash r.size
      then refuses invalid_argument
      else promised offset limit (blob_of r)

  read_blob-Keeps :
      (r : ResourceName) (offset limit : ℕ)
      → Keeps plan (read_blob e plan r (some offset) (some limit)) (promise r offset limit)
  unfolding is_empty_blob zero_size_but_not_empty
  read_blob-Keeps r offset limit = elim (Bool-cases (r.size == 0)) [
    | inr z ↦ rw z (served-Keeps offset limit (e.get r.instance_name r.hash))
    | inl z ↦ elim (Bool-cases (eq_bytes r.hash empty_sha256_hex)) [
      | inr n ↦ rw (z, n) (refusing invalid_argument)
      | inl n ↦ elim (Bool-cases (ltb 0 offset)) [
        | inl t ↦ rw (z, n, t) (refusing out_of_range)
        | inr t ↦
            let first : offset ≡ 0 = ground (arith, t) in
            let past : is_empty (slice offset limit []) ≡ true =
              subst (λ n. is_empty (slice n limit []) ≡ true) (sym first) (slice_past limit []) in
            rw (z, n, t)
              (delivering (nothing_sent true) (slice offset limit [])
                (ended-Carries (slice offset limit []) plan past))
      ]
    ]
  ]

-- A read of a name that parses, by a caller who may read its instance, with an offset and a limit
-- that are not negative, keeps the promise: the messages joined are the bytes of the slice, each
-- message has a byte at least and at most 64 KiB, and a stream that ends without an error has sent
-- them all, as it does where neither the reader nor the sender fails. Past the end, at a blob that is
-- missing or broken and at a size of 0 with another hash the read is refused, and the empty blob
-- reads like a stored one.
pub read-Keeps :
    (e : Env) (plan : List Attempt) (req : ReadRequest) (r : ResourceName) (offset limit : ℕ)
    → parse_resource_name req.resource_name ≡ ok r
    → e.authorize r.instance_name ≡ none
    → req.read_offset ≡ some offset
    → req.read_limit ≡ some limit
    → Keeps plan (read e plan req) (promise e plan r offset limit)
unfolding read
read-Keeps e plan req r offset limit name allowed at most =
    rw (name, allowed, at, most) (read_blob-Keeps e plan r offset limit)
