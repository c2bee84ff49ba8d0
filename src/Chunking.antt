-- ===== src/Chunking.antt =====
-- chunking.py: splitting a text into the pieces that are embedded. `split_re` is `re.split` over
-- `_SPLIT_RE`: texts and separators take turns, and the first is a text.
mod Strip
mod Pieces
mod Bounds
mod Coverage
pub mod Markdown
mod Tests
use Prim.Native.Char.{Char, code}
use Prim.Native.String
use memoratum.Base.{
  ℕ, zero, suc, ◌+◌, ◌-◌, String, Bool, true, false, ◌&&◌, ◌||◌, not, Option, none, some, List, [],
  ◌∷◌, ◌++◌, ◌==◌, eqb, leb, ltb, if◌then◌else◌, is_space, is_some, is_truthy, strip, len, is_blank,
  strip_prefix,
}

-- How many characters of the text the first separator takes that begins here.
pub data Separator : Type 0 where
  no_separator one two : Separator

-- (\n\n|\n|\. | ) at the character `c` in front of `d`; the earlier alternative is tried first.
abbrev pub separator_at : Char → Char → Separator
separator_at c d =
    if eqb (code c) 10
    then (if eqb (code d) 10 then two else one)
    else if eqb (code c) 46 && eqb (code d) 32
    then two
    else if eqb (code c) 32
    then one
    else no_separator

abbrev pub single : Char → String
single c = String.◌∷◌ c ""

abbrev pub grow : Char → List String → List String
grow c [] = single c ∷ []
grow c (w ∷ ps) = String.◌∷◌ c w ∷ ps

-- _SPLIT_RE.split(text)
unfoldable pub split_re : String → List String
split_re String.[] = "" ∷ []
split_re (String.◌∷◌ c String.[]) =
    if eqb (code c) 10 || eqb (code c) 32 then "" ∷ single c ∷ "" ∷ [] else single c ∷ []
split_re (String.◌∷◌ c (String.◌∷◌ d s)) = elim (separator_at c d) [
  | two ↦ "" ∷ String.◌∷◌ c (single d) ∷ split_re s
  | one ↦ "" ∷ single c ∷ split_re (String.◌∷◌ d s)
  | no_separator ↦ grow c (split_re (String.◌∷◌ d s))
]

-- [p for p in ... if p != ""]
unfoldable pub filled : List String → List String
filled [] = []
filled (p ∷ ps) = let rest = filled ps in if p == "" then rest else p ∷ rest

-- _SPLIT_RE.fullmatch
abbrev pub is_separator : String → Bool
is_separator p = (p == "\n\n") || (p == "\n") || (p == ". ") || (p == " ")

-- Each part with the separator behind it.
unfoldable pub attach : List String → List String
attach [] = []
attach (p ∷ []) = p ∷ []
attach (p ∷ q ∷ rest) = elim (is_separator q) [
  | true ↦ String.◌++◌ p q ∷ attach rest
  | false ↦ p ∷ attach (q ∷ rest)
]

unfoldable pub text_units : String → List String
unfolding split_re filled attach
text_units text = attach (filled (split_re text))

-- s[n:]
unfoldable pub drop_text : ℕ → String → String
drop_text zero s = s
drop_text (suc n) String.[] = ""
drop_text (suc n) (String.◌∷◌ c s) = drop_text n s

-- The end of the buffer that the next chunk begins with, unless it is blank.
unfoldable pub carried : ℕ → String → String
unfolding drop_text is_blank len
carried overlap buf =
    let tail = drop_text (len buf - overlap) buf in if is_blank tail then "" else tail

-- The chunk that is written in front of a unit, if any, and the buffer that the unit joins.
unfoldable pub make_room : ℕ → ℕ → String → String → List String × String
unfolding carried is_blank strip len
make_room size overlap buf unit =
    if ltb size (len buf + len unit) && not (is_blank buf)
    then (strip buf ∷ [], carried overlap buf)
    else ([], buf)

unfoldable pub pack : ℕ → ℕ → String → List String → List String
unfolding make_room is_blank strip
pack size overlap buf [] = if is_blank buf then [] else strip buf ∷ []
pack size overlap buf (u ∷ us) =
    let turn = make_room size overlap buf u in turn.0 ++ pack size overlap (String.◌++◌ turn.1 u) us

-- A size below 0 does the same as 0: a unit is never empty.
unfoldable pub split_text : ℕ → ℕ → String → List String
unfolding text_units filled pack
split_text size overlap text = filled (pack size overlap "" (text_units text))
