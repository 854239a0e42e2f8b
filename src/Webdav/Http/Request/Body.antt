-- ===== src/Webdav/Http/Request/Body.antt =====
-- The loop of `HttpParser::parse_request` (netfiles/src/webdav/http_parser.cpp) that reads a body.
use net_files.Base.{
  ℕ, zero, suc, ◌+◌, ◌≤◌, ◌<◌, true, false, List, [], ◌∷◌, ◌++◌, ◌≡◌, refl, sym, ap, subst, ◌∙◌,
  Bytes, is_empty, take, drop, length, if◌then◌else◌, ltb, done, All, arith, append_assoc,
  append-nil, length-append, take-append-drop, Bool-cases, inl, inr,
}
use net_files.Ftp.World.{ReadEvent, got}
use net_files.Webdav.Http.Request.{read_body, chunk_of}
use net_files.Webdav.World.{
  DavWorld, after, read_some, left_over, read_from, weight, after-cong, after-eq_done,
  weight-left_over, read_some-weight,
}

-- Bytes that arrive in pieces, and then the rest.
abbrev pub arriving : List Bytes → List ReadEvent → List ReadEvent
arriving [] rest = rest
arriving (c ∷ cs) rest = got c ∷ arriving cs rest

abbrev pub joined : List Bytes → Bytes
joined [] = []
joined (c ∷ cs) = c ++ joined cs

abbrev pub NonEmpty : Bytes → Type 0
NonEmpty c = is_empty c ≡ false

-- The pieces that are left when `n` bytes of the first are taken.
abbrev left_pieces : ℕ → Bytes → List Bytes → List Bytes
left_pieces n c cs = if is_empty (drop n c) then cs else drop n c ∷ cs

left_over-arriving :
    (n : ℕ) (c : Bytes) (cs : List Bytes) (rest : List ReadEvent)
    → left_over n c (arriving cs rest) ≡ arriving (left_pieces n c cs) rest
unfolding left_over
left_over-arriving n c cs rest = elim (Bool-cases (is_empty (drop n c))) [
  | inl e ↦ rw e
  | inr e ↦ rw e
]

is_empty→nil : (c : Bytes) → is_empty c ≡ true → c ≡ []
is_empty→nil [] e = refl
is_empty→nil (x ∷ c) e = cc

NonEmpty-length : (c : Bytes) → NonEmpty c → 0 < length c
NonEmpty-length [] e = cc
NonEmpty-length (x ∷ c) e = omega arith

joined-left_pieces :
    (n : ℕ) (c : Bytes) (cs : List Bytes)
    → take n c ++ joined (left_pieces n c cs) ≡ joined (c ∷ cs)
joined-left_pieces n c cs = elim (Bool-cases (is_empty (drop n c))) [
  | inl e ↦ rw e (
      ap (λ x. x ++ joined cs)
        (sym (append-nil (take n c))
          ∙ ap (λ x. take n c ++ x) (sym (is_empty→nil _ e))
          ∙ take-append-drop n c))
  | inr e ↦ rw e (
      sym (append_assoc (take n c) (drop n c) (joined cs))
      ∙ ap (λ x. x ++ joined cs) (take-append-drop n c))
]

left_pieces-NonEmpty :
    (n : ℕ) (c : Bytes) (cs : List Bytes) → All NonEmpty cs → All NonEmpty (left_pieces n c cs)
left_pieces-NonEmpty n c cs h = elim (Bool-cases (is_empty (drop n c))) [
  | inl e ↦ rw e h
  | inr e ↦ rw e (e, h)
]

pub read_body-arriving :
    (f n : ℕ) (body : Bytes) (cs : List Bytes) (rest : List ReadEvent) (w : DavWorld)
    → All NonEmpty cs
    → length body + length (joined cs) ≡ n
    → weight (arriving cs rest) < f
    → read_body f n body (record w { reads = arriving cs rest })
      ≡ (done (body ++ joined cs), record w { reads = rest; buffer = w.buffer ++ joined cs })
unfolding read_body after read_some read_from
read_body-arriving zero n body cs rest w ne e h = absurd (omega arith)
read_body-arriving (suc f) n body [] rest w ne e h =
    let ends : ltb (length body) n ≡ false = ground arith in
    rw (ends, append-nil body, append-nil w.buffer)
read_body-arriving (suc f) n body (c ∷ cs) rest w (p, ne) e h =
    let more : ltb (length body) n ≡ true =
      ground (arith, NonEmpty-length c p, length-append c (joined cs)) in
    let k = chunk_of n (length body) in
    let some_left : 0 < k = ground arith in
    let total : length (body ++ take k c) + length (joined (left_pieces k c cs)) ≡ n = omega (
      arith,
      length-append body (take k c),
      length-append body (joined (c ∷ cs)),
      length-append (take k c) (joined (left_pieces k c cs)),
      ap (λ x. length x) (joined-left_pieces k c cs),
      e,
    ) in
    let smaller =
      subst (λ es. weight es < weight (got c ∷ arriving cs rest)) (left_over-arriving k c cs rest)
        (weight-left_over k c (arriving cs rest) some_left) in
    rw more (
      rw (left_over-arriving k c cs rest) (
        read_body-arriving f n (body ++ take k c) (left_pieces k c cs) rest
          (record w { buffer = w.buffer ++ take k c }) (left_pieces-NonEmpty k c cs ne) total
          (omega (arith, smaller, h))
        ∙ rw
            (
              append_assoc body (take k c) (joined (left_pieces k c cs)),
              append_assoc w.buffer (take k c) (joined (left_pieces k c cs)),
            )
            (ap (λ b. (done (body ++ b), record w { reads = rest; buffer = w.buffer ++ b }))
              (joined-left_pieces k c cs))))

-- As much fuel as there are reads left is enough: more changes nothing.
pub read_body_enough :
    (f g n : ℕ) (body : Bytes) (w : DavWorld)
    → weight w.reads < f
    → weight w.reads < g
    → read_body f n body w ≡ read_body g n body w
unfolding read_body
read_body_enough zero g n body w h k = absurd (omega arith)
read_body_enough (suc f) zero n body w h k = absurd (omega arith)
read_body_enough (suc f) (suc g) n body w h k = elim (Bool-cases (ltb (length body) n)) [
  | inr e ↦ rw e
  | inl e ↦ rw e (
      after-cong _ _ _ (λ b v r.
        let less = read_some-weight (chunk_of n (length body)) w (ground arith) r in
        read_body_enough f g n (body ++ b) v (omega (arith, less, h)) (omega (arith, less, k))))
]

-- A body that was read has at least the length asked for.
pub read_body-Complete :
    (f n : ℕ) (body : Bytes) (w : DavWorld) {whole : Bytes} {v : DavWorld}
    → read_body f n body w ≡ (done whole, v)
    → n ≤ length whole
unfolding read_body
read_body-Complete zero n body w h = absurd (cc)
read_body-Complete (suc f) n body w {whole} h = elim (Bool-cases (ltb (length body) n)) [
  | inr e ↦ let same : body ≡ whole = ground (arith, h, e) in rw (← same) (ground arith)
  | inl e ↦
      let (b, u, at_b, rest) = after-eq_done _ _ (rw e at h) in
      read_body-Complete f n (body ++ b) u rest
]

pub read_body-weight :
    (f n : ℕ) (body : Bytes) (w : DavWorld) {whole : Bytes} {v : DavWorld}
    → read_body f n body w ≡ (done whole, v)
    → weight v.reads ≤ weight w.reads
unfolding read_body
read_body-weight zero n body w h = absurd (cc)
read_body-weight (suc f) n body w {v = v} h = elim (Bool-cases (ltb (length body) n)) [
  | inr e ↦ let same : w.reads ≡ v.reads = ap (λ p. p.1.reads) (rw e at h) in rw same (omega arith)
  | inl e ↦
      let (b, u, at_b, rest) = after-eq_done _ _ (rw e at h) in
      let less = read_some-weight (chunk_of n (length body)) w (ground arith) at_b in
      omega (arith, less, read_body-weight f n (body ++ b) u rest)
]
