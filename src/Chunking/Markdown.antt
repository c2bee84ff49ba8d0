-- ===== src/Chunking/Markdown.antt =====
-- chunking.py: `split_markdown`. A line is searched for a heading as `^(#{1,6})\s+(.+)$` does: the
-- group is stripped, so it is the stripped rest of the line behind the signs, if at least one
-- blank and one more character stand there.
pub mod Verbatim
use Prim.Native.Char.{Char, code}
use Prim.Native.String
use memoratum.Base.{
  ℕ, zero, suc, ◌+◌, ◌-◌, String, Bool, true, false, ◌&&◌, ◌||◌, not, Option, none, some, List, [],
  ◌∷◌, ◌++◌, ◌==◌, eqb, leb, if◌then◌else◌, is_space, is_some, is_truthy, strip, len, is_blank,
  strip_prefix,
}
use memoratum.Chunking.{split_text}

abbrev pub push : Char → List String → List String
push c [] = String.◌∷◌ c "" ∷ []
push c (w ∷ ws) = String.◌∷◌ c w ∷ ws

-- text.split("\n")
unfoldable pub split_lines : String → List String
split_lines String.[] = "" ∷ []
split_lines (String.◌∷◌ c s) =
    let rest = split_lines s in if eqb (code c) 10 then "" ∷ rest else push c rest

-- "\n".join(lines)
unfoldable pub join_lines : List String → String
join_lines [] = ""
join_lines (l ∷ []) = l
join_lines (l ∷ m ∷ ls) = String.◌++◌ l (String.◌++◌ "\n" (join_lines (m ∷ ls)))

-- \s+(.+)$
abbrev pub title : String → Option String
title String.[] = none
title (String.◌∷◌ c s) = if is_space (code c) && not (s == "") then some (strip s) else none

-- The heading of a line behind up to `n` more signs.
behind_signs : ℕ → String → Option String
unfolding is_space strip
behind_signs zero s = title s
behind_signs (suc n) String.[] = none
behind_signs (suc n) (String.◌∷◌ c s) =
    let rest = behind_signs n s in if eqb (code c) 35 then rest else title (String.◌∷◌ c s)

unfoldable pub heading_of : String → Option String
unfolding behind_signs
heading_of String.[] = none
heading_of (String.◌∷◌ c s) = let rest = behind_signs 5 s in if eqb (code c) 35 then rest else none

-- line.strip().startswith("```")
unfoldable pub is_fence : String → Bool
unfolding strip strip_prefix
is_fence line = is_some (strip_prefix "```" (strip line))

pub record Section : Type 0 where
  pub heading : Option String
  pub lines : List String

unfoldable pub has_line : List String → Bool
unfolding is_blank
has_line [] = false
has_line (l ∷ ls) = not (is_blank l) || has_line ls

-- flush()
abbrev pub flush : Option String → List String → List Section
flush h buf = if has_line buf then (record { heading = h; lines = buf }) ∷ [] else []

-- The heading that a line opens, which a fence hides; `fenced` is the state behind the line.
abbrev pub opens : Bool → String → Option String
opens fenced line = if fenced then none else heading_of line

abbrev pub toggled : Bool → String → Bool
toggled fenced line = if is_fence line then not fenced else fenced

unfoldable pub sections_of : Option String → List String → Bool → List String → List Section
unfolding has_line heading_of is_fence
sections_of h buf fenced [] = flush h buf
sections_of h buf fenced (line ∷ rest) = elim (opens (toggled fenced line) line) [
  | some t ↦ flush h buf ++ sections_of (some t) [] (toggled fenced line) rest
  | none ↦ sections_of h (buf ++ line ∷ []) (toggled fenced line) rest
]

pub record Piece : Type 0 where
  pub text : String
  pub heading : Option String

-- f"# {h}\n\n" if h else ""
abbrev pub prefix_of : Option String → String
prefix_of none = ""
prefix_of (some h) = if h == "" then "" else String.◌++◌ "# " (String.◌++◌ h "\n\n")

unfoldable pub prefixed : Option String → List String → List Piece
prefixed h [] = []
prefixed h (p ∷ ps) = (record { text = String.◌++◌ (prefix_of h) p; heading = h }) ∷ prefixed h ps

unfoldable pub chunks_of : ℕ → Section → List Piece
unfolding join_lines strip len split_text prefixed
chunks_of size s =
    let prefix = prefix_of s.heading in
    let body = strip (join_lines s.lines) in
    if body == ""
    then []
    else if leb (len prefix + len body) size
    then prefixed s.heading (body ∷ [])
    else prefixed s.heading (split_text (size - len prefix) 100 body)

unfoldable pub all_chunks : ℕ → List Section → List Piece
unfolding chunks_of
all_chunks size [] = []
all_chunks size (s ∷ ss) = chunks_of size s ++ all_chunks size ss

unfoldable pub split_markdown : ℕ → String → List Piece
unfolding all_chunks sections_of split_lines
split_markdown size text = all_chunks size (sections_of none [] false (split_lines text))
