-- ===== src/Chunking/Markdown/Verbatim.antt =====
-- chunking.py: the lines of a text make up the text, and every chunk of `split_markdown` is its
-- heading in front of a piece that stands in the text.
use Prim.Native.Char.{Char, code}
use Prim.Native.String
use text.Mathlib.TextEquality.{Char-path}
use text.Mathlib.TextLemmas.{nil-append, cons-append, append-nil, append_assoc}
use mathlib.Core.List
use memoratum.Base.{
  ℕ, ◌-◌, ◌+◌, String, Bool, true, false, Option, none, some, List, [], ◌∷◌, ◌++◌, ◌==◌, ◌≡◌, refl,
  sym, ap, ◌∙◌, eq_iff, arith, All, All-append, All-imp, Bool-cases, inl, inr, strip, len, leb, eqb,
}
use memoratum.Chunking.{split_text}
use memoratum.Chunking.Strip.{IsWithin, ◌++ˢ◌, strip-IsWithin, IsWithin-trans}
use memoratum.Chunking.Pieces.{IsChunkOf, split_text-IsChunkOf}
use memoratum.Chunking.Markdown.{
  push, split_lines, join_lines, Section, has_line, flush, opens, toggled, sections_of, Piece,
  prefix_of, prefixed, chunks_of, all_chunks, split_markdown,
}

join_lines-push :
    (c : Char) (ls : List String) → join_lines (push c ls) ≡ String.◌∷◌ c (join_lines ls)
unfolding join_lines
join_lines-push c [] = refl
join_lines-push c (l ∷ []) = refl
join_lines-push c (l ∷ m ∷ ls) = cons-append c l (String.◌++◌ "\n" (join_lines (m ∷ ls)))

split_lines-filled : (s : String) → (l : String) × (ls : List String) × (split_lines s ≡ l ∷ ls)
unfolding split_lines
split_lines-filled String.[] = ("", [], refl)
split_lines-filled (String.◌∷◌ c s) = elim (Bool-cases (eqb (code c) 10)) [
  | inl e ↦ ("", split_lines s, rw e)
  | inr e ↦ let (l, ls, h) = split_lines-filled s in (String.◌∷◌ c l, ls, rw (e, h))
]

newline : (c : Char) (s : String) → eqb (code c) 10 ≡ true → String.◌∷◌ c s ≡ "\n" ++ˢ s
newline c s e = cc (Char-path c "\n" (ground (arith, e)), cons-append "\n" "" s, nil-append s)

-- Splitting a text at its newlines and joining the lines again gives the text.
pub join_lines-split_lines : (s : String) → join_lines (split_lines s) ≡ s
unfolding join_lines split_lines
join_lines-split_lines String.[] = refl
join_lines-split_lines (String.◌∷◌ c s) =
    let h = join_lines-split_lines s in
    elim (Bool-cases (eqb (code c) 10)) [
      | inl e ↦
          let (l, ls, k) = split_lines-filled s in
          rw (e, k)
            (cc (nil-append ("\n" ++ˢ join_lines (l ∷ ls)), newline c s e, ap join_lines k, h))
      | inr e ↦ rw e (join_lines-push c (split_lines s) ∙ ap (String.◌∷◌ c) h)
    ]

join_lines-IsPrefix :
    (ls ms : List String) → (q : String) × (join_lines (ls ++ ms) ≡ join_lines ls ++ˢ q)
unfolding join_lines
join_lines-IsPrefix [] ms = (join_lines ms, sym (nil-append (join_lines ms)))
join_lines-IsPrefix (l ∷ []) [] = ("", sym (append-nil l))
join_lines-IsPrefix (l ∷ []) (m ∷ ms) = ("\n" ++ˢ join_lines (m ∷ ms), refl)
join_lines-IsPrefix (l ∷ k ∷ ls) ms =
    let (q, h) = join_lines-IsPrefix (k ∷ ls) ms in
    let rest = join_lines (k ∷ ls) in
    (q, cc (h, append_assoc l ("\n" ++ˢ rest) q, append_assoc "\n" rest q))

join_lines-IsSuffix :
    (ls ms : List String) → (p : String) × (join_lines (ls ++ ms) ≡ p ++ˢ join_lines ms)
unfolding join_lines
join_lines-IsSuffix [] ms = ("", sym (nil-append (join_lines ms)))
join_lines-IsSuffix (l ∷ []) [] = (l, sym (append-nil l))
join_lines-IsSuffix (l ∷ []) (m ∷ ms) =
    (l ++ˢ "\n", sym (append_assoc l "\n" (join_lines (m ∷ ms))))
join_lines-IsSuffix (l ∷ k ∷ ls) ms =
    let (p, h) = join_lines-IsSuffix (k ∷ ls) ms in
    (
      l ++ˢ ("\n" ++ˢ p),
      cc (h, append_assoc l ("\n" ++ˢ p) (join_lines ms), append_assoc "\n" p (join_lines ms)),
    )

-- The lines stand together in the list `all`.
abbrev IsRun : List String → List String → Type 0
IsRun all ls = (a b : List String) × (all ≡ a ++ (ls ++ b))

join_lines-IsWithin :
    (all ls : List String) → IsRun all ls → IsWithin (join_lines ls) (join_lines all)
join_lines-IsWithin all ls (a, b, h) =
    let (p, k) = join_lines-IsSuffix a (ls ++ b) in
    let (q, m) = join_lines-IsPrefix ls b in (p, q, ap join_lines h ∙ k ∙ ap (λ t. p ++ˢ t) m)

flush-IsRun :
    (h : Option String) (all buf : List String)
    → IsRun all buf
    → All (λ s. IsRun all s.lines) (flush h buf)
flush-IsRun h all buf r = elim (Bool-cases (has_line buf)) [
  | inl e ↦ rw e (r, tt)
  | inr e ↦ rw e tt
]

-- Behind a heading the buffer is empty, and a line that is no heading joins it.
sections_of-IsRun :
    (h : Option String) (all pre buf : List String) (fenced : Bool) (rest : List String)
    → all ≡ pre ++ (buf ++ rest)
    → All (λ s. IsRun all s.lines) (sections_of h buf fenced rest)
unfolding sections_of
sections_of-IsRun h all pre buf fenced [] e = flush-IsRun h all buf (pre, [], e)
sections_of-IsRun h all pre buf fenced (line ∷ rest) e =
    let on = toggled fenced line in
    elim (opens on line)
      as (λ o.
        All (λ s. IsRun all s.lines)
          (elim o [
            | some t ↦ flush h buf ++ sections_of (some t) [] on rest
            | none ↦ sections_of h (buf ++ line ∷ []) on rest
          ])) [
            | some t ↦
                All-append (λ s. IsRun all s.lines) (flush h buf) (sections_of (some t) [] on rest)
                  (flush-IsRun h all buf (pre, line ∷ rest, e))
                  (sections_of-IsRun (some t) all (pre ++ (buf ++ line ∷ [])) [] on rest (
                    cc (
                      e,
                      List.append_assoc pre (buf ++ line ∷ []) rest,
                      List.append_assoc buf (line ∷ []) rest,
                    )))
            | none ↦
                sections_of-IsRun h all pre (buf ++ line ∷ []) on rest
                  (cc (e, List.append_assoc buf (line ∷ []) rest))
          ]

-- The heading's prefix in front of a chunk of the text.
abbrev pub IsPieceOf : String → Piece → Type 0
IsPieceOf text p = (b : String) × (p.text ≡ prefix_of p.heading ++ˢ b) × IsChunkOf text b

prefixed-IsPieceOf :
    (text : String) (h : Option String) (ps : List String)
    → All (IsChunkOf text) ps
    → All (IsPieceOf text) (prefixed h ps)
unfolding prefixed
prefixed-IsPieceOf text h [] k = tt
prefixed-IsPieceOf text h (p ∷ ps) k = ((p, refl, k.0), prefixed-IsPieceOf text h ps k.1)

IsChunkOf-trans :
    (body text : String) → IsWithin body text → (c : String) → IsChunkOf body c → IsChunkOf text c
IsChunkOf-trans body text h c k = (IsWithin-trans c body text k.0 h, k.1)

chunks_of-IsPieceOf :
    (size : ℕ) (text : String) (s : Section)
    → IsWithin (join_lines s.lines) text
    → All (IsPieceOf text) (chunks_of size s)
unfolding chunks_of
chunks_of-IsPieceOf size text s h =
    let whole = join_lines s.lines in
    let body = strip whole in
    let prefix = prefix_of s.heading in
    let within = IsWithin-trans body whole text (strip-IsWithin whole) h in
    let pieces = split_text (size - len prefix) 100 body in
    elim (Bool-cases (body == "")) [
      | inl e ↦ rw e tt
      | inr e ↦ elim (Bool-cases (leb (len prefix + len body) size)) [
        | inl f ↦
            rw (e, f)
              (prefixed-IsPieceOf text s.heading (body ∷ [])
                ((within, (λ z. ground (arith, e, eq_iff body "", z))), tt))
        | inr f ↦
            rw (e, f)
              (prefixed-IsPieceOf text s.heading pieces (
                All-imp (IsChunkOf body) (IsChunkOf text) (IsChunkOf-trans body text within) pieces
                  (split_text-IsChunkOf (size - len prefix) 100 body)))
      ]
    ]

all_chunks-IsPieceOf :
    (size : ℕ) (text : String) (ss : List Section)
    → All (λ s. IsWithin (join_lines s.lines) text) ss
    → All (IsPieceOf text) (all_chunks size ss)
unfolding all_chunks
all_chunks-IsPieceOf size text [] h = tt
all_chunks-IsPieceOf size text (s ∷ ss) h =
    All-append (IsPieceOf text) (chunks_of size s) (all_chunks size ss)
      (chunks_of-IsPieceOf size text s h.0) (all_chunks-IsPieceOf size text ss h.1)

-- Every chunk of a document is the prefix of its heading in front of a text that is not empty and
-- stands in the document, character by character.
pub split_markdown-IsPieceOf :
    (size : ℕ) (text : String) → All (IsPieceOf text) (split_markdown size text)
unfolding split_markdown
split_markdown-IsPieceOf size text =
    let lines = split_lines text in
    let ss = sections_of none [] false lines in
    all_chunks-IsPieceOf size text ss (
      All-imp {A = Section} (λ s. IsRun lines s.lines) (λ s. IsWithin (join_lines s.lines) text)
        (λ s r. rw join_lines-split_lines at (join_lines-IsWithin lines s.lines r)) ss
        (sections_of-IsRun none lines [] [] false lines refl))
