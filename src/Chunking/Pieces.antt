-- ===== src/Chunking/Pieces.antt =====
-- chunking.py: the units of a text make up the text, and every chunk of `split_text` stands in it.
use Prim.Native.Char.{Char, code}
use Prim.Native.String
use text.Mathlib.TextLemmas.{nil-append, cons-append, append-nil, append_assoc}
use memoratum.Base.{
  ℕ, ◌+◌, ◌-◌, String, true, false, ◌&&◌, not, List, [], ◌∷◌, ◌==◌, ◌≡◌, ◌≢◌, refl, ap, ◌∙◌, eq_iff,
  arith, All, All-append, Bool-cases, inl, inr, strip, len, is_blank, ltb, eqb, if◌then◌else◌, ◌||◌,
}
use memoratum.Chunking.{
  no_separator, one, two, separator_at, single, grow, split_re, filled, is_separator, attach,
  text_units, drop_text, carried, make_room, pack, split_text,
}
use memoratum.Chunking.Strip.{IsWithin, ◌++ˢ◌, strip-IsWithin, drop_text-IsSuffix, IsWithin-trans}

-- "".join(parts)
unfoldable pub joined : List String → String
joined [] = ""
joined (p ∷ ps) = p ++ˢ joined ps

joined-grow : (c : Char) (ps : List String) → joined (grow c ps) ≡ String.◌∷◌ c (joined ps)
unfolding joined
joined-grow c [] = append-nil (single c)
joined-grow c (w ∷ ps) = cons-append c w (joined ps)

joined-split_re : (s : String) → joined (split_re s) ≡ s
unfolding joined split_re
joined-split_re String.[] = append-nil ""
joined-split_re (String.◌∷◌ c String.[]) =
    elim (eqb (code c) 10 || eqb (code c) 32)
      as (λ k. joined (if k then "" ∷ single c ∷ "" ∷ [] else single c ∷ []) ≡ single c) [
        | true ↦ cc (nil-append (single c ++ˢ ("" ++ˢ "")), nil-append "", append-nil (single c))
        | false ↦ append-nil (single c)
      ]
joined-split_re (String.◌∷◌ c (String.◌∷◌ d s)) =
    let far = joined-split_re s in
    let near = joined-split_re (String.◌∷◌ d s) in
    elim (separator_at c d)
      as (λ k.
        joined (elim k [
          | two ↦ "" ∷ String.◌∷◌ c (single d) ∷ split_re s
          | one ↦ "" ∷ single c ∷ split_re (String.◌∷◌ d s)
          | no_separator ↦ grow c (split_re (String.◌∷◌ d s))
        ])
        ≡ String.◌∷◌ c (String.◌∷◌ d s)) [
          | two ↦ cc (
            far,
            nil-append (String.◌∷◌ c (single d) ++ˢ joined (split_re s)),
            cons-append c (single d) (joined (split_re s)),
            cons-append d "" (joined (split_re s)),
            nil-append (joined (split_re s)),
          )
          | one ↦ cc (
            near,
            nil-append (single c ++ˢ joined (split_re (String.◌∷◌ d s))),
            cons-append c "" (joined (split_re (String.◌∷◌ d s))),
            nil-append (joined (split_re (String.◌∷◌ d s))),
          )
          | no_separator ↦ joined-grow c (split_re (String.◌∷◌ d s)) ∙ ap (String.◌∷◌ c) near
        ]

joined-filled : (ps : List String) → joined (filled ps) ≡ joined ps
unfolding joined filled
joined-filled [] = refl
joined-filled (p ∷ ps) = elim (Bool-cases (p == "")) [
  | inl e ↦ rw (e, (eq_iff p "").0 e, nil-append (joined ps), joined-filled ps)
  | inr e ↦ rw (e, joined-filled ps)
]

joined-attach : (ps : List String) → joined (attach ps) ≡ joined ps
unfolding joined attach
joined-attach [] = refl
joined-attach (p ∷ []) = refl
joined-attach (p ∷ q ∷ rest) =
    elim (is_separator q)
      as (λ k.
        joined (elim k [ true ↦ String.◌++◌ p q ∷ attach rest | false ↦ p ∷ attach (q ∷ rest) ])
        ≡ joined (p ∷ q ∷ rest)) [
          | true ↦ cc (append_assoc p q (joined rest), joined-attach rest)
          | false ↦ cc (joined-attach (q ∷ rest))
        ]

-- The units of a text, put together, are the text.
pub joined-text_units : (text : String) → joined (text_units text) ≡ text
unfolding text_units
joined-text_units text =
    joined-attach (filled (split_re text)) ∙ joined-filled (split_re text) ∙ joined-split_re text

-- A chunk is not empty and stands in the text character by character.
abbrev pub IsChunkOf : String → String → Type 0
IsChunkOf text c = IsWithin c text × (c ≢ "")

strip-IsChunkOf :
    (text pre buf rest : String)
    → text ≡ pre ++ˢ (buf ++ˢ rest)
    → is_blank buf ≡ false
    → IsChunkOf text (strip buf)
unfolding is_blank
strip-IsChunkOf text pre buf rest h b = (
  IsWithin-trans (strip buf) buf text (strip-IsWithin buf) (pre, rest, h),
  (λ z. ground (arith, b, eq_iff (strip buf) "", z)),
)

carried-IsSuffix : (overlap : ℕ) (buf : String) → (a : String) × (buf ≡ a ++ˢ carried overlap buf)
unfolding carried
carried-IsSuffix overlap buf =
    let n = len buf - overlap in
    elim (Bool-cases (is_blank (drop_text n buf))) [
      | inl e ↦ (buf, rw (e, append-nil buf))
      | inr e ↦ let (a, h) = drop_text-IsSuffix n buf in (a, rw e h)
    ]

-- What `make_room` leaves in the buffer still ends where the buffer ended.
make_room_lem :
    (size overlap : ℕ) (text pre buf unit rest : String)
    → text ≡ pre ++ˢ (buf ++ˢ rest)
    → All (IsChunkOf text) (make_room size overlap buf unit).0
      × ((p : String) × (text ≡ p ++ˢ ((make_room size overlap buf unit).1 ++ˢ rest)))
unfolding make_room
make_room_lem size overlap text pre buf unit rest h =
    elim (Bool-cases (ltb size (len buf + len unit) && not (is_blank buf))) [
      | inl e ↦
          let (a, k) = carried-IsSuffix overlap buf in
          rw e (
            (strip-IsChunkOf text pre buf rest h (ground (arith, e)), tt),
            (
              pre ++ˢ a,
              cc (
                h,
                k,
                append_assoc pre a (carried overlap buf ++ˢ rest),
                append_assoc a (carried overlap buf) rest,
              ),
            ),
          )
      | inr e ↦ rw e (tt, (pre, h))
    ]

pub pack-IsChunkOf :
    (size overlap : ℕ) (text pre buf : String) (us : List String)
    → text ≡ pre ++ˢ (buf ++ˢ joined us)
    → All (IsChunkOf text) (pack size overlap buf us)
unfolding pack joined
pack-IsChunkOf size overlap text pre buf [] h = elim (Bool-cases (is_blank buf)) [
  | inl e ↦ rw e tt
  | inr e ↦ rw e (strip-IsChunkOf text pre buf "" h e, tt)
]
pack-IsChunkOf size overlap text pre buf (u ∷ us) h =
    let (kept, (p, k)) = make_room_lem size overlap text pre buf u (joined (u ∷ us)) h in
    let rest = (make_room size overlap buf u).1 in
    All-append (IsChunkOf text) (make_room size overlap buf u).0 (pack size overlap (rest ++ˢ u) us)
      kept
      (pack-IsChunkOf size overlap text p (rest ++ˢ u) us (cc (k, append_assoc rest u (joined us))))

pub All-filled {ℓ} : (P : String → Type ℓ) (ps : List String) → All P ps → All P (filled ps)
unfolding filled
All-filled P [] h = tt
All-filled P (p ∷ ps) h = elim (Bool-cases (p == "")) [
  | inl e ↦ rw e (All-filled P ps h.1)
  | inr e ↦ rw e (h.0, All-filled P ps h.1)
]

-- Every chunk of a text stands in the text character by character, and is not empty.
pub split_text-IsChunkOf :
    (size overlap : ℕ) (text : String) → All (IsChunkOf text) (split_text size overlap text)
unfolding split_text
split_text-IsChunkOf size overlap text =
    All-filled (IsChunkOf text) (pack size overlap "" (text_units text)) (
      pack-IsChunkOf size overlap text "" "" (text_units text)
        (cc (joined-text_units text, nil-append (joined (text_units text)))))
