-- ===== src/Chunking/Bounds.antt =====
-- chunking.py: how long a chunk of `split_text` gets.
use memoratum.Base.{
  ℕ, ◌+◌, ◌-◌, ◌≤◌, max, String, true, false, ◌&&◌, not, List, [], ◌∷◌, ◌≡◌, inl, inr, refl, ap,
  eq_iff, arith, All, All-append, Bool-cases, strip, len, is_blank, ltb,
}
use memoratum.Chunking.{text_units, drop_text, carried, make_room, pack, split_text}
use memoratum.Chunking.Strip.{◌++ˢ◌, strip-append_blank, len-append, len-drop_text, len-strip}
use memoratum.Chunking.Pieces.{All-filled}

len_nil : len "" ≡ 0
unfolding len
len_nil = refl

-- The length of the longest unit.
unfoldable pub longest : List String → ℕ
longest [] = 0
longest (u ∷ us) = max (len u) (longest us)

len-carried : (overlap : ℕ) (buf : String) → len (carried overlap buf) ≤ overlap
unfolding carried
len-carried overlap buf =
    let n = len buf - overlap in
    elim (Bool-cases (is_blank (drop_text n buf))) [
      | inl e ↦ rw e (ground arith)
      | inr e ↦ rw e (omega (arith, len-drop_text n buf))
    ]

is_blank-strip : (s : String) → is_blank s ≡ true → strip s ≡ ""
unfolding is_blank
is_blank-strip s e = (eq_iff (strip s) "").0 e

ltb-le : (a b : ℕ) → ltb a b ≡ false → b ≤ a
ltb-le a b e = ground (arith, e)

module _ (size overlap bound : ℕ) (within : size ≤ bound) where
  -- A unit that joins the buffer fits, or the buffer is blank in front of it.
  joins-len :
      (buf unit : String)
      → len unit ≤ bound
      → (ltb size (len buf + len unit) && not (is_blank buf)) ≡ false
      → len (strip (buf ++ˢ unit)) ≤ bound
  joins-len buf unit h e = elim (Bool-cases (is_blank buf)) [
    | inl b ↦
        omega
          (arith, h, len-strip unit, ap len (strip-append_blank buf unit (is_blank-strip buf b)))
    | inr b ↦
        let fits = ltb-le size (len buf + len unit) (ground (arith, e, b)) in
        omega (arith, within, fits, len-strip (buf ++ˢ unit), len-append buf unit)
  ]

  make_room-len :
      (buf unit : String)
      → overlap + len unit ≤ bound
      → len (strip buf) ≤ bound
      → All (λ c. len c ≤ bound) (make_room size overlap buf unit).0
        × (len (strip ((make_room size overlap buf unit).1 ++ˢ unit)) ≤ bound)
  unfolding make_room
  make_room-len buf unit h k =
      elim (Bool-cases (ltb size (len buf + len unit) && not (is_blank buf))) [
        | inl e ↦
            let new = carried overlap buf in
            rw e (
              (k, tt),
              omega (
                arith,
                h,
                len-strip (new ++ˢ unit),
                len-append new unit,
                len-carried overlap buf,
              ),
            )
        | inr e ↦ rw e (tt, joins-len buf unit (omega (arith, h)) e)
      ]

  pack-len :
      (buf : String) (us : List String)
      → overlap + longest us ≤ bound
      → len (strip buf) ≤ bound
      → All (λ c. len c ≤ bound) (pack size overlap buf us)
  unfolding pack longest
  pack-len buf [] h k = elim (Bool-cases (is_blank buf)) [ inl e ↦ rw e tt | inr e ↦ rw e (k, tt) ]
  pack-len buf (u ∷ us) h k =
      let (kept, fits) = make_room-len buf u (omega (arith, h)) k in
      let next = (make_room size overlap buf u).1 ++ˢ u in
      All-append (λ c. len c ≤ bound) (make_room size overlap buf u).0 (pack size overlap next us)
        kept (pack-len next us (omega (arith, h)) fits)

-- A chunk is longer than the size only as far as the overlap and the longest unit go together.
pub split_text-len :
    (size overlap : ℕ) (text : String)
    → All
        (λ c. len c ≤ max size (overlap + longest (text_units text)))
        (split_text size overlap text)
unfolding split_text
split_text-len size overlap text =
    let us = text_units text in
    let bound = max size (overlap + longest us) in
    All-filled (λ c. len c ≤ bound) (pack size overlap "" us)
      (pack-len size overlap bound (omega arith) "" us (omega arith)
        (omega (arith, len-strip "", len_nil)))
