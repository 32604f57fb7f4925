-- ===== src/Agent/Rag.antt =====
-- src/opsassist/rag.py: the messages of a grounded answer, its markers and its citations. The digits of a
-- marker are those of ASCII.
pub mod Citations
use Prim.Native.Char.{Char, code}
use novax_ai_assignment.Base.{
  ℕ, zero, suc, String, ◌+◌, ◌-◌, ◌*◌, Bool, true, false, ◌&&◌, ◌||◌, Option, none, some, List, [],
  ◌∷◌, ◌++◌, eqb, leb, ltb, length, any, take_chars, join, show, if◌then◌else◌,
}
use novax_ai_assignment.Gateway.Calls.{ChatMessage}
use novax_ai_assignment.Knowledge.Retrieval.{RetrievedChunk}

abbrev pub abstain : String
abstain = "I couldn't find this in the approved knowledge available to you."

-- Python's methods on texts and `html.escape`; `squeezed` is `" ".join(text.lower().split()).rstrip(".")`,
-- and `own_words` searches the pattern of an abstention in own words. `normalize_markers` and
-- `repoint_citations` rewrite the references of an answer before they are checked.
pub record Wording : Type 0 where
  pub squeezed : String → String
  pub starts_with : String → String → Bool
  pub contains_text : String → String → Bool
  pub own_words : String → Bool
  pub strip : String → String
  pub escape : Bool → String → String
  pub normalize_markers : String → ℕ → String
  pub repoint_citations : String → List RetrievedChunk → String × ℕ

-- `stable_ref`
unfoldable pub stable_ref : RetrievedChunk → String
stable_ref c = join c.doc_key (join "@v" (join (show c.version) (join "#" c.locator)))

pub record Citation : Type 0 where
  pub number : ℕ
  pub doc_key : String
  pub version : ℕ
  pub title : String
  pub locator : String
  pub ref : String
  pub snippet : String

pub record GroundedAnswer : Type 0 where
  pub text : String
  pub citations : List Citation
  pub abstained : Bool
  pub invalid_citations : ℕ
  pub repointed_citations : ℕ

abbrev pub grounded : GroundedAnswer → Bool
grounded a = a.abstained || ltb 0 (length a.citations)

abbrev pub plain_answer : String → Bool → GroundedAnswer
plain_answer text abstained = record {
  text = text;
  citations = [];
  abstained = abstained;
  invalid_citations = 0;
  repointed_citations = 0;
}

-- A text cut at its markers `[n]`.
pub data Piece : Type 0 where
  plain : Char → Piece
  marker : ℕ → String → Piece

unfoldable pub digit : Char → Option ℕ
digit c = if leb b'0' (code c) && leb (code c) b'9' then some (code c - b'0') else none

abbrev pub closes : String → Bool
closes String.[] = false
closes (String.◌∷◌ c s) = eqb (code c) b']'

abbrev pub closing : ℕ → String → Option ℕ → Option (ℕ × ℕ)
closing n s none = none
closing n s (some d) = if closes s then some (10 * n + d, 3) else none

-- What follows one digit: `]`, or a second digit and `]`.
unfoldable pub after_digit : ℕ → String → Option (ℕ × ℕ)
unfolding digit
after_digit n String.[] = none
after_digit n (String.◌∷◌ c s) = if eqb (code c) b']' then some (n, 2) else closing n s (digit c)

abbrev pub after_first : Option ℕ → String → Option (ℕ × ℕ)
after_first none s = none
after_first (some d) s = after_digit d s

-- The number of a marker that starts before this text with `[`, and how many characters it has here.
unfoldable pub after_bracket : String → Option (ℕ × ℕ)
unfolding after_digit
after_bracket String.[] = none
after_bracket (String.◌∷◌ c s) = after_first (digit c) s

-- The markers from the left, as `_MARKER` finds them; the first argument is what is left of the last one.
unfoldable pub pieces : ℕ → String → List Piece
unfolding after_bracket
pieces n String.[] = []
pieces (suc n) (String.◌∷◌ c s) = pieces n s
pieces zero (String.◌∷◌ c s) = elim (after_bracket s) [
  | none ↦ plain c ∷ pieces zero s
  | some (number, more) ↦
      if eqb (code c) b'['
      then marker number (String.◌∷◌ c (take_chars more s)) ∷ pieces more s
      else plain c ∷ pieces zero s
]

abbrev pub markers : List Piece → ℕ
markers [] = 0
markers (plain c ∷ ps) = markers ps
markers (marker n raw ∷ ps) = suc (markers ps)

-- `is_abstention`
unfoldable pub is_abstention : Wording → String → Bool
unfolding pieces
is_abstention wording text =
    let norm = wording.squeezed text in
    if wording.starts_with norm "i couldn't find this in the approved knowledge available to you"
    then true
    else if ltb 0 (markers (pieces 0 text))
    then false
    else wording.contains_text norm "couldn't find this in the approved" || wording.own_words norm

-- What the loop over the markers leaves: the text, the numbers in the order of their first use, and how
-- many markers point at no source.
pub record Checked : Type 0 where
  pub text : String
  pub order : List ℕ
  pub invalid : ℕ

abbrev pub is_source : ℕ → ℕ → Bool
is_source sources n = leb 1 n && leb n sources

abbrev pub used : ℕ → List ℕ → List ℕ
used n order = if any (eqb n) order then order else order ++ (n ∷ [])

-- `_MARKER.sub(check, answer)`
unfoldable pub check : ℕ → List ℕ → List Piece → Checked
check sources order [] = record { text = ""; order = order; invalid = 0 }
check sources order (plain c ∷ ps) =
    let r = check sources order ps in record r { text = String.◌∷◌ c r.text }
check sources order (marker n raw ∷ ps) =
    let kept = check sources (used n order) ps in
    let dropped = check sources order ps in
    if is_source sources n
    then record kept { text = join raw kept.text }
    else record dropped { invalid = suc dropped.invalid }

abbrev pub get_elem? {ℓ} : {A : Type ℓ} → List A → ℕ → Option A
get_elem? [] i = none
get_elem? (x ∷ xs) zero = some x
get_elem? (x ∷ xs) (suc i) = get_elem? xs i

unfoldable pub citation : ℕ → RetrievedChunk → Citation
unfolding stable_ref
citation n c = record {
  number = n;
  doc_key = c.doc_key;
  version = c.version;
  title = c.title;
  locator = c.locator;
  ref = stable_ref c;
  snippet = take_chars 300 c.content;
}

abbrev pub with_citation : ℕ → Option RetrievedChunk → List Citation → List Citation
with_citation n none rest = rest
with_citation n (some c) rest = citation n c ∷ rest

-- The records of the numbers, each of which is at most the number of chunks.
unfoldable pub citations_of : List RetrievedChunk → List ℕ → List Citation
unfolding citation
citations_of chunks [] = []
citations_of chunks (n ∷ order) =
    with_citation n (get_elem? chunks (n - 1)) (citations_of chunks order)

-- `finalize`
unfoldable pub finalize : Wording → String → List RetrievedChunk → GroundedAnswer
unfolding is_abstention pieces check citations_of
finalize wording raw chunks =
    let answer = wording.normalize_markers raw (length chunks) in
    let (repointed, changed) = wording.repoint_citations answer chunks in
    let checked = check (length chunks) [] (pieces 0 repointed) in
    if is_abstention wording answer
    then record (plain_answer abstain true) { invalid_citations = markers (pieces 0 answer) }
    else record {
      text = wording.strip checked.text;
      citations = citations_of chunks checked.order;
      abstained = false;
      invalid_citations = checked.invalid;
      repointed_citations = changed;
    }

-- One `<source>` element, where what a document says is escaped.
unfoldable pub source_element : Wording → ℕ → RetrievedChunk → String
unfolding stable_ref
source_element wording n c = join "<source id=\"" (
    join (show n) (
      join "\" title=\"" (
        join (wording.escape true c.title) (
          join "\" ref=\"" (
            join (wording.escape true (stable_ref c)) (
              join "\" updated=\"" (
                join (wording.escape true c.doc_updated_at)
                  (join "\">\n" (join (wording.escape false c.context) "\n</source>")))))))))

unfoldable pub render_from : Wording → ℕ → List RetrievedChunk → String
unfolding source_element
render_from wording n [] = ""
render_from wording n (c ∷ []) = source_element wording n c
render_from wording n (c ∷ d ∷ cs) =
    join (source_element wording n c) (join "\n\n" (render_from wording (suc n) (d ∷ cs)))

-- `render_sources`
unfoldable pub render_sources : Wording → List RetrievedChunk → String
unfolding render_from
render_sources wording chunks = render_from wording 1 chunks

-- The three prompts of the module.
pub record Prompts : Type 0 where
  pub system_prompt : String
  pub reviewed_note : String
  pub gate_review_prompt : String

-- `build_messages`
unfoldable pub build_messages :
    Wording → Prompts → String → List RetrievedChunk → List ChatMessage → Bool → List ChatMessage
unfolding render_sources
build_messages wording prompts question chunks history reviewed =
    let user =
      join "<sources>\n"
        (join (render_sources wording chunks) (join "\n</sources>\n\nQuestion: " question)) in
    let note =
      if reviewed then record { role = "system"; content = prompts.reviewed_note } ∷ [] else [] in
    record { role = "system"; content = prompts.system_prompt }
    ∷ (history ++ (note ++ (record { role = "user"; content = user } ∷ [])))

-- `gate_review_messages`
unfoldable pub gate_review_messages :
    Wording → Prompts → String → List RetrievedChunk → List ChatMessage
unfolding render_sources
gate_review_messages wording prompts question chunks =
    record { role = "system"; content = prompts.gate_review_prompt }
    ∷ record {
      role = "user";
      content =
          join "<passages>\n"
            (join (render_sources wording chunks) (join "\n</passages>\n\nQuestion: " question));
    }
    ∷ []
