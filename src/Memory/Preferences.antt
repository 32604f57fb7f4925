-- ===== src/Memory/Preferences.antt =====
-- src/opsassist/memory.py: `validate` and the operations on a user's stored preferences.
pub mod Laws
use novax_ai_assignment.Base.{
  ℕ, ◌+◌, String, Bool, true, false, not, ◌&&◌, ◌||◌, Option, none, some, List, [], ◌∷◌, ◌++◌, ◌==◌,
  ltb, count_chars, length, keep, contains, is_empty, join, Result, ok, err, ◌>>=◌, ◌>>◌, raise_if,
  if◌then◌else◌,
}

-- Python's `strip`, the search for the patterns of a secret in knowledge/upload.py, and the list of
-- allowed keys as a message shows it.
pub record Texts : Type 0 where
  pub strip : String → String
  pub looks_secret : String → Bool
  pub listed : List String → String

pub record UserMemory : Type 0 where
  pub user_id : String
  pub key : String
  pub value : String
  pub category : String
  pub source : String

abbrev pub built_in_keys : List String
built_in_keys = "language" ∷ "timezone" ∷ "team" ∷ "response_style" ∷ "default_server" ∷ []

abbrev pub max_value_chars : ℕ
max_value_chars = 200

-- `allowed_keys`, whose values are all "preference"; `extra` is the setting, split at its commas and
-- stripped.
abbrev pub allowed_keys : List String → List String
allowed_keys extra = built_in_keys ++ keep (λ k. not (is_empty k)) extra

module _ (texts : Texts) where
  -- `validate`: the value to store, or the reason why not.
  unfoldable pub validate : List String → String → String → Result String String
  validate extra key value = do
    raise_if (not (contains (allowed_keys extra) key)) (
        join key
          (join " is not a storable preference; allowed: " (texts.listed (allowed_keys extra))))
    let stripped = texts.strip value
    raise_if (is_empty stripped || ltb max_value_chars (count_chars stripped))
        "value must be 1-200 characters"
    raise_if (texts.looks_secret stripped)
        "that value looks like a credential and will not be stored"
    ok stripped

  -- The row with a user's key.
  abbrev pub is_at : String → String → UserMemory → Bool
  is_at user_id key m = m.user_id == user_id && m.key == key

  unfoldable pub find_memory : String → String → List UserMemory → Option UserMemory
  find_memory user_id key [] = none
  find_memory user_id key (m ∷ ms) =
      if is_at user_id key m then some m else find_memory user_id key ms

  -- The update of the row that was found, or a new row.
  unfoldable pub write_memory : String → String → String → List UserMemory → List UserMemory
  write_memory user_id key value [] =
      record {
        user_id = user_id;
        key = key;
        value = value;
        category = "preference";
        source = "explicit";
      }
      ∷ []
  write_memory user_id key value (m ∷ ms) =
      if is_at user_id key m
      then record m { value = value } ∷ ms
      else m ∷ write_memory user_id key value ms

  -- `put_memory`
  unfoldable pub put_memory :
      List String → String → String → String → List UserMemory → Result String (List UserMemory)
  unfolding validate
  put_memory extra user_id key value rows = do
    checked ← validate extra key value
    ok (write_memory user_id key checked rows)

  unfoldable pub remove_memory : String → String → List UserMemory → List UserMemory
  remove_memory user_id key [] = []
  remove_memory user_id key (m ∷ ms) =
      if is_at user_id key m then ms else m ∷ remove_memory user_id key ms

  -- `delete_memory`
  unfoldable pub delete_memory : String → String → List UserMemory → Bool × List UserMemory
  delete_memory user_id key rows =
      (is_found (find_memory user_id key rows), remove_memory user_id key rows)
    where
      is_found : Option UserMemory → Bool
      is_found none = false
      is_found (some m) = true

  -- `clear_memories`: the rows of the user go, and their number is returned.
  unfoldable pub clear_memories : String → List UserMemory → ℕ × List UserMemory
  clear_memories user_id rows = (
    length (keep (λ (m : UserMemory). m.user_id == user_id) rows),
    keep (λ (m : UserMemory). not (m.user_id == user_id)) rows,
  )
