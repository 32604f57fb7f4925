-- ===== src/Knowledge/Chunking.antt =====
-- src/opsassist/knowledge/chunking.py: paragraphs are cut into units, units are packed into parents and
-- these into children.
pub mod Packing
pub mod Numbers
use novax_ai_assignment.Base.{
  ℕ, zero, suc, ◌+◌, String, Bool, true, false, not, ◌&&◌, ◌||◌, Option, none, some, List, [], ◌∷◌,
  ◌++◌, map, ◌==◌, eqb, leb, ltb, length, keep, join, show, count_chars, if◌then◌else◌,
}
use novax_ai_assignment.Gateway.Errors.{estimate_tokens}

-- `Block` of knowledge/parsing.py, as far as it is read here.
pub record Block : Type 0 where
  pub kind : String
  pub text : String
  pub page : Option ℕ
  pub headings : List String

pub record ChunkingConfig : Type 0 where
  pub target_tokens : ℕ
  pub max_tokens : ℕ
  pub split_tokens : ℕ

abbrev pub default_config : ChunkingConfig
default_config = record { target_tokens = 64; max_tokens = 256; split_tokens = 160 }

-- The class `Unit`.
pub record TextUnit : Type 0 where
  pub text : String
  pub ordinal : ℕ
  pub page : Option ℕ
  pub headings : List String

pub record Chunk : Type 0 where
  pub index : ℕ
  pub parent_index : ℕ
  pub text : String
  pub embed_text : String
  pub context : String
  pub locator : String
  pub section : Option String
  pub headings : List String
  pub page_start : Option ℕ
  pub token_count : ℕ

abbrev pub tokens_of : String → ℕ
tokens_of s = estimate_tokens (count_chars s)

-- Python's equality of tuples of texts.
abbrev pub same_path : List String → List String → Bool
same_path [] [] = true
same_path (x ∷ xs) (y ∷ ys) = x == y && same_path xs ys
same_path _ _ = false

-- `sep.join(texts)`
abbrev pub join_with : String → List String → String
join_with sep [] = ""
join_with sep (s ∷ []) = s
join_with sep (s ∷ t ∷ ts) = join s (join sep (join_with sep (t ∷ ts)))

abbrev pub text_of : TextUnit → String
text_of u = u.text

-- `piece[-1]`
abbrev pub last_text : String → List String → String
last_text s [] = s
last_text s (t ∷ ts) = last_text t ts

unit_of : Block → ℕ → String → TextUnit
unit_of b ordinal text = record {
  text = text;
  ordinal = ordinal;
  page = b.page;
  headings = b.headings;
}

-- `Unit(" ".join(piece), …)`, if there is a piece
unfoldable pub end_piece : Block → ℕ → List String → List TextUnit
unfolding unit_of
end_piece b ordinal [] = []
end_piece b ordinal (s ∷ piece) = unit_of b ordinal (join_with " " (s ∷ piece)) ∷ []

-- The loop over the sentences of a long paragraph; a piece that is full is closed, and its last sentence
-- opens the next.
unfoldable pub split_sentences : Block → ℕ → ℕ → List String → List String → List TextUnit
unfolding end_piece unit_of
split_sentences b ordinal target piece [] = end_piece b ordinal piece
split_sentences b ordinal target [] (s ∷ sentences) =
    split_sentences b ordinal target (s ∷ []) sentences
split_sentences b ordinal target (t ∷ piece) (s ∷ sentences) =
    let whole = t ∷ piece in
    let closed = split_sentences b ordinal target (last_text t piece ∷ s ∷ []) sentences in
    let grown = split_sentences b ordinal target (whole ++ (s ∷ [])) sentences in
    if ltb target (tokens_of (join_with " " (whole ++ (s ∷ []))))
    then unit_of b ordinal (join_with " " whole) ∷ closed
    else grown

-- `split_units`; `split` is the split at sentence ends by a regular expression.
unfoldable pub split_from : (String → List String) → ℕ → ℕ → ℕ → List Block → List TextUnit
unfolding unit_of
split_from split split_tokens target ordinal [] = []
split_from split split_tokens target ordinal (b ∷ blocks) =
    let skipped = split_from split split_tokens target ordinal blocks in
    let rest = split_from split split_tokens target (ordinal + 1) blocks in
    if b.kind == "heading"
    then skipped
    else if leb (tokens_of b.text) split_tokens
    then unit_of b (ordinal + 1) b.text ∷ rest
    else split_sentences b (ordinal + 1) target [] (split b.text) ++ rest

unfoldable pub split_units : (String → List String) → List Block → ℕ → ℕ → List TextUnit
split_units split blocks split_tokens target = split_from split split_tokens target 0 blocks

abbrev pub last_unit : TextUnit → List TextUnit → TextUnit
last_unit u [] = u
last_unit u (v ∷ us) = last_unit v us

unfoldable pub too_big : ℕ → List TextUnit → Bool
too_big limit units = ltb limit (tokens_of (join_with " " (map text_of units)))

-- The loop of `pack_units`; `current` is the group that is open.
unfoldable pub pack_from : ℕ → List TextUnit → List TextUnit → List (List TextUnit)
unfolding too_big
pack_from limit [] [] = []
pack_from limit (c ∷ current) [] = (c ∷ current) ∷ []
pack_from limit [] (u ∷ units) = pack_from limit (u ∷ []) units
pack_from limit (c ∷ current) (u ∷ units) =
    let new_section = not (same_path u.headings (last_unit c current).headings) in
    let closed = pack_from limit (u ∷ []) units in
    let grown = pack_from limit (c ∷ current ++ (u ∷ [])) units in
    if new_section || too_big limit (c ∷ current ++ (u ∷ [])) then (c ∷ current) ∷ closed else grown

unfoldable pub pack_units : List TextUnit → ℕ → List (List TextUnit)
pack_units units limit = pack_from limit [] units

-- `_path`
unfoldable pub path_of : String → List String → List String
path_of title headings = keep (λ h. not (h == title)) headings

same_page : ℕ → Option ℕ → Bool
same_page p none = false
same_page p (some q) = eqb p q

show_page : Option ℕ → String
show_page none = "None"
show_page (some p) = show p

page_part : Option ℕ → Option ℕ → List String
unfolding same_page show_page
page_part none last = []
page_part (some p) last =
    (if same_page p last
      then join "p." (show p)
      else join "pp." (join (show p) (join "–" (show_page last))))
    ∷ []

path_part : List String → List String
path_part [] = []
path_part (h ∷ hs) = join "§" (join_with " › " (h ∷ hs)) ∷ []

-- `locator_for` with the full path; a group has a first unit.
unfoldable pub locator_for : String → TextUnit → List TextUnit → String
unfolding path_of page_part path_part
locator_for title first rest =
    let last = last_unit first rest in
    let paras =
      if eqb first.ordinal last.ordinal
      then join "¶" (show first.ordinal)
      else join "¶" (join (show first.ordinal) (join "–" (show last.ordinal))) in
    join_with " "
      (path_part (path_of title first.headings) ++ page_part first.page last.page ++ (paras ∷ []))

header_of : String → List String → String
header_of title [] = title
header_of title (h ∷ hs) = join title (join "\n" (join_with " > " (h ∷ hs)))

-- `header_for` with the full path
unfoldable pub header_for : String → List String → String
unfolding path_of header_of
header_for title headings = header_of title (path_of title headings)

unfoldable pub body_of : List TextUnit → String
body_of group = join_with "\n" (map text_of group)

last_heading : List String → Option String
last_heading [] = none
last_heading (h ∷ hs) = some (last_text h hs)

-- `make_chunk`, of a group that has a first unit
unfoldable pub make_chunk : ℕ → TextUnit → List TextUnit → String → String → String → ℕ → Chunk
unfolding body_of last_heading
make_chunk index first rest context header locator parent_index =
    let body = body_of (first ∷ rest) in
    record {
      index = index;
      parent_index = parent_index;
      text = body;
      embed_text = join header (join "\n" body);
      context = context;
      locator = locator;
      section = last_heading first.headings;
      headings = first.headings;
      page_start = first.page;
      token_count = tokens_of body;
    }

-- The inner loop: the children of one parent. An empty group, of which the source would read the first
-- unit and fail, does not come from `pack_units`.
unfoldable pub chunks_of : String → ℕ → ℕ → String → String → List (List TextUnit) → List Chunk
unfolding make_chunk header_for
chunks_of title parent_index index context locator [] = []
chunks_of title parent_index index context locator ([] ∷ groups) =
    chunks_of title parent_index index context locator groups
chunks_of title parent_index index context locator ((u ∷ us) ∷ groups) =
    make_chunk index u us context (header_for title u.headings) locator parent_index
    ∷ chunks_of title parent_index (index + 1) context locator groups

-- The outer loop, over the parents.
unfoldable pub chunk_parents : String → ℕ → ℕ → ℕ → List (List TextUnit) → List Chunk
unfolding chunks_of locator_for body_of pack_units
chunk_parents title target parent_index index [] = []
chunk_parents title target parent_index index ([] ∷ parents) =
    chunk_parents title target (parent_index + 1) index parents
chunk_parents title target parent_index index ((u ∷ us) ∷ parents) =
    let children =
      chunks_of title parent_index index (body_of (u ∷ us)) (locator_for title u us)
        (pack_units (u ∷ us) target) in
    children ++ chunk_parents title target (parent_index + 1) (index + length children) parents

unfoldable pub chunk_document :
    (String → List String) → String → List Block → ChunkingConfig → List Chunk
chunk_document split title blocks cfg =
    let units = split_units split blocks cfg.split_tokens cfg.target_tokens in
    chunk_parents title cfg.target_tokens 0 0 (pack_units units cfg.max_tokens)
