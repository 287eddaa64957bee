-- ===== src/Cache/ByteStream/Upload.antt =====
-- writeReader of internal/cache/bazel/bytestream.go: the frames of an upload as one stream of bytes.
-- `ends` says whether the client's stream ends with io.EOF or breaks after its last frame.
use bakery.Base.{
  ℕ, zero, suc, ◌<◌, ◌≡◌, ◌≢◌, refl, sym, ap, ◌∙◌, Bool, true, false, List, [], ◌∷◌, ◌++◌, Bytes,
  ltb, if◌then◌else◌, length, length-append, take, drop, all, arith,
}
use bakery.Cache.ByteStream.Slices.{length-take-drop}

pub record Frame : Type 0 where
  pub content : Bytes
  pub finish_write : Bool

pub record Reader : Type 0 where
  pub buf : Bytes
  pub done : Bool
  pub frames : List Frame

-- What the loop of Read comes to.
pub data Filled : Type 0 where
  ready : Reader → Filled
  at_eof failing : Filled

unfoldable pub fill : Bool → Bytes → Bool → List Frame → Filled
fill ends (b ∷ s) done fs = ready (record { buf = b ∷ s; done = done; frames = fs })
fill ends [] true fs = at_eof
fill ends [] false [] = if ends then at_eof else failing
fill ends [] false (f ∷ fs) = fill ends f.content f.finish_write fs

pub data End : Type 0 where
  still_open eof failed : End

pub record Consumed : Type 0 where
  pub got : Bytes
  pub how : End

abbrev pub prepend : Bytes → Consumed → Consumed
prepend s c = record c { got = s ++ c.got }

-- The calls of Read with buffers of these sizes, up to the first that returns an error.
unfoldable pub consume : Bool → List ℕ → Reader → Consumed
unfolding fill
consume ends [] r = record { got = []; how = still_open }
consume ends (n ∷ ns) r = elim (fill ends r.buf r.done r.frames) [
  | at_eof ↦ record { got = []; how = eof }
  | failing ↦ record { got = []; how = failed }
  | ready r' ↦ prepend (take n r'.buf) (consume ends ns (record r' { buf = drop n r'.buf }))
]

-- What is uploaded: the frames up to the one that finishes, whole where one does or the stream ends.
pub record Uploaded : Type 0 where
  pub content : Bytes
  pub whole : Bool

unfoldable pub uploaded : Bool → Bool → List Frame → Uploaded
uploaded ends true fs = record { content = []; whole = true }
uploaded ends false [] = record { content = []; whole = ends }
uploaded ends false (f ∷ fs) =
    let rest = uploaded ends f.finish_write fs in
    record { content = f.content ++ rest.content; whole = rest.whole }

abbrev pub left : Bool → Reader → Bytes
left ends r = r.buf ++ (uploaded ends r.done r.frames).content

abbrev pub sound : Bool → Reader → Bool
sound ends r = (uploaded ends r.done r.frames).whole

-- What a call leaves and what was there.
abbrev Fills : Bool → Bytes → Bool → List Frame → Filled → Type 0
Fills ends buf done fs (ready r) =
    (left ends r ≡ buf ++ (uploaded ends done fs).content)
    × (sound ends r ≡ (uploaded ends done fs).whole)
    × (0 < length r.buf)
Fills ends buf done fs at_eof =
    (buf ++ (uploaded ends done fs).content ≡ []) × ((uploaded ends done fs).whole ≡ true)
Fills ends buf done fs failing =
    (buf ++ (uploaded ends done fs).content ≡ []) × ((uploaded ends done fs).whole ≡ false)

fill-Fills :
    (ends : Bool) (buf : Bytes) (done : Bool) (fs : List Frame)
    → Fills ends buf done fs (fill ends buf done fs)
unfolding fill uploaded
fill-Fills ends (b ∷ s) done fs = (refl, refl, omega arith)
fill-Fills ends [] true fs = (refl, refl)
fill-Fills true [] false [] = (refl, refl)
fill-Fills false [] false [] = (refl, refl)
fill-Fills ends [] false (f ∷ fs) = fill-Fills ends f.content f.finish_write fs

-- The bytes got are what was left, cut where the calls stop.
pub record Reads (ends : Bool) (ns : List ℕ) (r : Reader) (c : Consumed) : Type 0 where
  pub rest : Bytes
  pub in_order : c.got ++ rest ≡ left ends r
  pub at_end : c.how ≡ eof → (rest ≡ []) × (sound ends r ≡ true)
  pub at_failure : c.how ≡ failed → (rest ≡ []) × (sound ends r ≡ false)
  pub comes_to_end : all (ltb 0) ns ≡ true → length (left ends r) < length ns → c.how ≢ still_open

append_nil : (s : Bytes) → s ++ [] ≡ s
append_nil [] = refl
append_nil (b ∷ s) = ap (λ t. b ∷ t) (append_nil s)

take-append-left :
    (n : ℕ) (s t u r : Bytes) → t ++ r ≡ drop n s ++ u → (take n s ++ t) ++ r ≡ s ++ u
take-append-left zero s t u r h = h
take-append-left (suc n) [] t u r h = h
take-append-left (suc n) (b ∷ s) t u r h = ap (λ w. b ∷ w) (take-append-left n s t u r h)

consume-step :
    (ends : Bool) (n : ℕ) (ns : List ℕ) (r r' : Reader)
    → fill ends r.buf r.done r.frames ≡ ready r'
    → consume ends (n ∷ ns) r
      ≡ prepend (take n r'.buf) (consume ends ns (record r' { buf = drop n r'.buf }))
unfolding consume
consume-step ends n ns r r' e = rw (e, consume) refl

length-dropped : (n : ℕ) (s : Bytes) → 0 < n → 0 < length s → length (drop n s) < length s
length-dropped zero s h k = absurd (omega (arith, h))
length-dropped (suc n) [] h k = absurd (omega (arith, k))
length-dropped (suc n) (b ∷ s) h k = omega (arith, length-take-drop n s)

next-Reads :
    (ends : Bool) (n : ℕ) (ns : List ℕ) (r r' : Reader) (c : Consumed)
    → Fills ends r.buf r.done r.frames (ready r')
    → Reads ends ns (record r' { buf = drop n r'.buf }) c
    → Reads ends (n ∷ ns) r (prepend (take n r'.buf) c)
next-Reads ends n ns r r' c (same, whole, positive) k =
    let u = (uploaded ends r'.done r'.frames).content in
    record {
      rest = k.rest;
      in_order = take-append-left n r'.buf c.got u k.rest k.in_order ∙ same;
      at_end = λ h. ((k.at_end h).0, sym whole ∙ (k.at_end h).1);
      at_failure = λ h. ((k.at_failure h).0, sym whole ∙ (k.at_failure h).1);
      comes_to_end = λ p l. k.comes_to_end (ground (arith, p)) (
          omega (
            arith,
            l,
            ap length same,
            length-append r'.buf u,
            length-append (drop n r'.buf) u,
            length-dropped n r'.buf (ground (arith, p)) positive,
          ));
    }

consume-eof :
    (ends : Bool) (n : ℕ) (ns : List ℕ) (r : Reader)
    → fill ends r.buf r.done r.frames ≡ at_eof
    → consume ends (n ∷ ns) r ≡ record { got = []; how = eof }
unfolding consume
consume-eof ends n ns r e = rw (e, consume) refl

consume-failing :
    (ends : Bool) (n : ℕ) (ns : List ℕ) (r : Reader)
    → fill ends r.buf r.done r.frames ≡ failing
    → consume ends (n ∷ ns) r ≡ record { got = []; how = failed }
unfolding consume
consume-failing ends n ns r e = rw (e, consume) refl

call-Reads :
    (ends : Bool) (n : ℕ) (ns : List ℕ) (r : Reader)
    → ((x : Reader) → Reads ends ns x (consume ends ns x))
    → (f : Filled) → fill ends r.buf r.done r.frames ≡ f
    → Fills ends r.buf r.done r.frames f
    → Reads ends (n ∷ ns) r (consume ends (n ∷ ns) r)
call-Reads ends n ns r ih (ready r') e h =
    let later = record r' { buf = drop n r'.buf } in
    rw (consume-step ends n ns r r' e)
      (next-Reads ends n ns r r' (consume ends ns later) h (ih later))
call-Reads ends n ns r ih at_eof e h = rw (consume-eof ends n ns r e) (record {
  rest = [];
  in_order = sym h.0;
  at_end = λ k. (refl, h.1);
  at_failure = λ k. absurd (cc);
  comes_to_end = λ p l. cc;
})
call-Reads ends n ns r ih failing e h = rw (consume-failing ends n ns r e) (record {
  rest = [];
  in_order = sym h.0;
  at_end = λ k. absurd (cc);
  at_failure = λ k. (refl, h.1);
  comes_to_end = λ p l. cc;
})

-- However a consumer sizes its buffers: what it gets of an upload is the frames' bytes in order, from
-- the start. It gets io.EOF exactly after all of them, where a frame finished the write or the
-- client's stream ended, and an error where the stream broke before. With buffers that are not empty
-- it comes to one of these after as many calls as there are bytes, and one more.
pub consume-Reads : (ends : Bool) (ns : List ℕ) (r : Reader) → Reads ends ns r (consume ends ns r)
unfolding consume
consume-Reads ends [] r = record {
  rest = left ends r;
  in_order = refl;
  at_end = λ h. absurd (cc);
  at_failure = λ h. absurd (cc);
  comes_to_end = λ p l. absurd (omega (arith, l));
}
consume-Reads ends (n ∷ ns) r =
    call-Reads ends n ns r (λ x. consume-Reads ends ns x) (fill ends r.buf r.done r.frames) refl
      (fill-Fills ends r.buf r.done r.frames)
