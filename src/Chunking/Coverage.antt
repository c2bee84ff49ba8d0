-- ===== src/Chunking/Coverage.antt =====
-- chunking.py: no unit of a text is lost by `split_text`.
use text.Mathlib.TextLemmas.{nil-append, append-nil, append_assoc, append-eq-nil_iff}
use memoratum.Base.{
  ℕ, ◌+◌, String, false, ◌&&◌, not, List, [], ◌∷◌, ◌++◌, ◌==◌, ◌≡◌, ◌≢◌, ◌⊎◌, inl, inr, refl, sym,
  eq_iff, All, All-imp, Bool-cases, strip, len, is_blank, ltb,
}
use memoratum.Chunking.{filled, text_units, make_room, pack, split_text}
use memoratum.Chunking.Strip.{IsWithin, ◌++ˢ◌, strip-IsWithin_append}
use memoratum.Chunking.Pieces.{IsChunkOf, pack-IsChunkOf, joined, joined-text_units}

-- One of the chunks has the text in it.
abbrev pub StandsIn : String → List String → Type 0
StandsIn u [] = ⊥
StandsIn u (c ∷ cs) = IsWithin u c ⊎ StandsIn u cs

StandsIn-append : (u : String) (cs ds : List String) → StandsIn u ds → StandsIn u (cs ++ ds)
StandsIn-append u [] ds h = h
StandsIn-append u (c ∷ cs) ds h = inr (StandsIn-append u cs ds h)

StandsIn-append_left : (u : String) (cs ds : List String) → StandsIn u cs → StandsIn u (cs ++ ds)
StandsIn-append_left u [] ds h = absurd h
StandsIn-append_left u (c ∷ cs) ds (inl h) = inl h
StandsIn-append_left u (c ∷ cs) ds (inr h) = inr (StandsIn-append_left u cs ds h)

-- The unit `u` stands in the buffer.
Buffered : String → String → Type 0
Buffered u buf = (a b : String) × (buf ≡ a ++ˢ (u ++ˢ b))

Buffered-chunk : (u buf : String) → strip u ≢ "" → Buffered u buf → IsWithin (strip u) (strip buf)
unfolding Buffered
Buffered-chunk u buf n (a, b, h) = rw h (strip-IsWithin_append a u b n)

Buffered-self : (u buf : String) → Buffered u (buf ++ˢ u)
unfolding Buffered
Buffered-self u buf = (buf, "", cc (append-nil u))

Buffered-next : (u buf x : String) → Buffered u buf → Buffered u (buf ++ˢ x)
unfolding Buffered
Buffered-next u buf x (a, b, h) =
    (a, b ++ˢ x, cc (h, append_assoc a (u ++ˢ b) x, append_assoc u b x))

IsWithin-nil : (c : String) → IsWithin c "" → c ≡ ""
IsWithin-nil c (a, b, h) =
    let behind = ((append-eq-nil_iff {p = a} {q = c ++ˢ b}).0 (sym h)).1 in
    ((append-eq-nil_iff {p = c} {q = b}).0 behind).0

Buffered-blank : (u buf : String) → strip u ≢ "" → Buffered u buf → is_blank buf ≡ false
unfolding is_blank
Buffered-blank u buf n h = elim (Bool-cases (is_blank buf)) [
  | inl e ↦
      absurd
        (n (IsWithin-nil (strip u) (rw (← (eq_iff (strip buf) "").0 e) (Buffered-chunk u buf n h))))
  | inr e ↦ e
]

module _ (size overlap : ℕ) where
  -- A unit in the buffer is written in front of the next one, or stays in the buffer.
  make_room-Buffered :
      (u buf x : String)
      → strip u ≢ ""
      → Buffered u buf
      → StandsIn (strip u) (make_room size overlap buf x).0
        ⊎ Buffered u (make_room size overlap buf x).1
  unfolding make_room
  make_room-Buffered u buf x n h =
      elim (Bool-cases (ltb size (len buf + len x) && not (is_blank buf))) [
        | inl e ↦ rw e (inl (inl (Buffered-chunk u buf n h)))
        | inr e ↦ rw e (inr h)
      ]

  pack-Buffered :
      (u buf : String) (us : List String)
      → strip u ≢ ""
      → Buffered u buf
      → StandsIn (strip u) (pack size overlap buf us)
  unfolding pack
  pack-Buffered u buf [] n h = rw (Buffered-blank u buf n h) (inl (Buffered-chunk u buf n h))
  pack-Buffered u buf (x ∷ us) n h =
      let turn = make_room size overlap buf x in
      let rest = pack size overlap (turn.1 ++ˢ x) us in
      elim (make_room-Buffered u buf x n h) [
        | inl k ↦ StandsIn-append_left (strip u) turn.0 rest k
        | inr k ↦
            StandsIn-append (strip u) turn.0 rest
              (pack-Buffered u (turn.1 ++ˢ x) us n (Buffered-next u turn.1 x k))
      ]

  pack-StandsIn :
      (buf : String) (us : List String)
      → All (λ u. strip u ≢ "" → StandsIn (strip u) (pack size overlap buf us)) us
  unfolding pack
  pack-StandsIn buf [] = tt
  pack-StandsIn buf (u ∷ us) =
      let turn = make_room size overlap buf u in
      let next = turn.1 ++ˢ u in
      let rest = pack size overlap next us in
      (
        (λ n.
            StandsIn-append (strip u) turn.0 rest
              (pack-Buffered u next us n (Buffered-self u turn.1))),
        All-imp (λ v. strip v ≢ "" → StandsIn (strip v) rest)
            (λ v. strip v ≢ "" → StandsIn (strip v) (turn.0 ++ rest))
            (λ v k n. StandsIn-append (strip v) turn.0 rest (k n)) us (pack-StandsIn next us),
      )

filled-All : (cs : List String) → All (λ c. c ≢ "") cs → filled cs ≡ cs
unfolding filled
filled-All [] h = refl
filled-All (c ∷ cs) (n, h) = elim (Bool-cases (c == "")) [
  | inl e ↦ absurd (n ((eq_iff c "").0 e))
  | inr e ↦ rw (e, filled-All cs h)
]

-- No unit of a text is lost: one that is not blank stands, stripped, in one of the chunks.
pub split_text-StandsIn :
    (size overlap : ℕ) (text : String)
    → All (λ u. strip u ≢ "" → StandsIn (strip u) (split_text size overlap text)) (text_units text)
unfolding split_text
split_text-StandsIn size overlap text =
    let us = text_units text in
    let cs = pack size overlap "" us in
    let same = filled-All cs (
      All-imp (IsChunkOf text) (λ c. c ≢ "") (λ c h. h.1) cs
        (pack-IsChunkOf size overlap text "" "" us
          (cc (joined-text_units text, nil-append (joined us))))) in
    rw same (pack-StandsIn size overlap "" us)
