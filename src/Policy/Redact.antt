-- ===== src/Policy/Redact.antt =====
-- src/opsassist/logging_setup.py: which keys are sensitive; src/opsassist/policy/audit.py: `redact`.
-- Characters are code points, and `lower` is that of the ASCII letters.
pub mod Laws
use Prim.Native.Char.{code}
use Prim.Native.String
use novax_ai_assignment.Base.{
  ℕ, zero, suc, ◌+◌, String, Bool, true, false, ◌&&◌, ◌||◌, List, [], ◌∷◌, ◌++◌, eqb, leb, ltb, any,
  if◌then◌else◌, take_chars, count_chars, join,
}

-- JSON values. Numbers are only passed on.
mutual
  pub data Value : Type 0 where
    null : Value
    bool : Bool → Value
    num : ℕ → Value
    text : String → Value
    obj : Fields → Value
    arr : Items → Value

  pub data Fields : Type 0 where
    field : String → Value → Fields → Fields
    end : Fields

  pub data Items : Type 0 where
    cons : Value → Items → Items
    nil : Items

abbrev pub codes : String → List ℕ
codes String.[] = []
codes (String.◌∷◌ c s) = code c ∷ codes s

unfoldable pub lower : ℕ → ℕ
lower c = if leb b'A' c && leb c b'Z' then c + 32 else c

is_separator : ℕ → Bool
is_separator c = eqb c b'_' || eqb c b'-'

-- `re.split(r"[_\-]+", key.lower())`: the words between runs of separators; `word` is the one that is
-- being read, and `after` tells that the last character was a separator.
split_words : List ℕ → Bool → List ℕ → List (List ℕ)
unfolding lower is_separator
split_words word after [] = word ∷ []
split_words word after (c ∷ cs) =
    let run = split_words word true cs in
    let stop = word ∷ split_words [] true cs in
    let read = split_words (word ++ (lower c ∷ [])) false cs in
    if is_separator c then (if after then run else stop) else read

same_text : List ℕ → List ℕ → Bool
same_text [] [] = true
same_text (a ∷ as_) (b ∷ bs) = eqb a b && same_text as_ bs
same_text _ _ = false

sensitive_words : List String
sensitive_words =
    "password" ∷ "passwd" ∷ "secret" ∷ "token" ∷ "apikey" ∷ "authorization" ∷ "credential"
    ∷ "credentials" ∷ []

is_word : List ℕ → String → Bool
unfolding same_text
is_word word s = same_text word (codes s)

-- `any(a == "api" and b == "key" for a, b in pairwise(words))`
has_api_key : List (List ℕ) → Bool
unfolding is_word
has_api_key [] = false
has_api_key (a ∷ []) = false
has_api_key (a ∷ b ∷ words) = (is_word a "api" && is_word b "key") || has_api_key (b ∷ words)

unfoldable pub is_sensitive_key : String → Bool
unfolding split_words sensitive_words has_api_key is_word
is_sensitive_key key =
    let words = split_words [] false (codes key) in
    any (λ w. any (is_word w) sensitive_words) words || has_api_key words

-- `value[:n] + "…"` of a text longer than `n`
unfoldable pub cap_at : ℕ → String → String
cap_at n s = if ltb n (count_chars s) then join (take_chars n s) "…" else s

unfoldable pub cap_text : String → String
cap_text s = cap_at 500 s

unfoldable mutual
  pub redact : Value → Value
  redact null = null
  redact (bool b) = bool b
  redact (num n) = num n
  redact (text s) = text (cap_text s)
  redact (arr items) = arr (redact_items items)
  redact (obj fields) = obj (redact_fields fields)

  pub redact_items : Items → Items
  redact_items nil = nil
  redact_items (cons v items) = cons (redact v) (redact_items items)

  pub redact_fields : Fields → Fields
  redact_fields end = end
  redact_fields (field k v fields) =
      field k (if is_sensitive_key k then text "[REDACTED]" else redact v) (redact_fields fields)
