-- ===== src/Chunking/Tests.antt =====
-- Chunking at concrete texts.
use memoratum.Base.{max, ◌+◌, ◌≤◌, String, ◌≡◌, ◌≢◌, refl, none, some, [], ◌∷◌, All, strip, len}
use memoratum.Chunking.{text_units, split_text}
use memoratum.Chunking.Bounds.{longest, split_text-len}
use memoratum.Chunking.Coverage.{StandsIn, split_text-StandsIn}
use memoratum.Chunking.Markdown.{split_markdown, heading_of}
use memoratum.Chunking.Markdown.Verbatim.{IsPieceOf, split_markdown-IsPieceOf}

abbrev phrase : String
phrase = "one. two three"

units : text_units phrase ≡ "one. " ∷ "two " ∷ "three" ∷ []
unfolding text_units
units = refl

chunks : split_text 9 3 phrase ≡ "one. two" ∷ "wo three" ∷ []
unfolding split_text
chunks = refl

headings : heading_of "## Setup " ≡ some "Setup"
unfolding heading_of
headings = refl

no_heading : heading_of "####### deep" ≡ none
unfolding heading_of
no_heading = refl

sections :
    split_markdown 1500 "# A\ntext\n```\n# code\n```"
    ≡ record { text = "# A\n\ntext\n```\n# code\n```"; heading = some "A" } ∷ []
unfolding split_markdown
sections = refl

split_text-len_example :
    All (λ c. len c ≤ max 9 (3 + longest (text_units phrase))) (split_text 9 3 phrase)
split_text-len_example = split_text-len 9 3 phrase

split_text-StandsIn_example :
    All (λ u. strip u ≢ "" → StandsIn (strip u) (split_text 9 3 phrase)) (text_units phrase)
split_text-StandsIn_example = split_text-StandsIn 9 3 phrase

split_markdown-IsPieceOf_example : All (IsPieceOf "# A\ntext") (split_markdown 1500 "# A\ntext")
split_markdown-IsPieceOf_example = split_markdown-IsPieceOf 1500 "# A\ntext"
