-- ===== src/Memory/Tests.antt =====
-- A stored preference, and a conversation of a few messages.
use novax_ai_assignment.Base.{
  ℕ, ◌==◌, eq_iff, ◌<◌, String, ◌≡◌, ◌≢◌, refl, true, false, none, some, List, [], ◌∷◌, arith, ok,
  All, length, drop, take, keep, ◌-◌,
}
use novax_ai_assignment.Memory.Preferences.{
  Texts, UserMemory, find_memory, put_memory, validate, write_memory,
}
use novax_ai_assignment.Memory.Preferences.Laws.{IsStorable, put_memory-ok}
use novax_ai_assignment.Memory.Window.{
  Message, Conversation, reverse, replayed, load_conversation_memory, unsummarised, update_summary,
}
use novax_ai_assignment.Memory.Window.Laws.{Newest, load_conversation_memory-Newest}
use novax_ai_assignment.Memory.Window.Summarised.{Ascending, update_summary-keeps}

abbrev texts : Texts
texts = record { strip = λ s. s; looks_secret = λ s. false; listed = λ keys. "" }

abbrev row_of : String → String → UserMemory
row_of user_id value = record {
  user_id = user_id;
  key = "language";
  value = value;
  category = "preference";
  source = "explicit";
}

abbrev other_row : UserMemory
other_row = row_of "u2" "vi"

written : put_memory texts [] "u1" "language" "en" [] ≡ ok (row_of "u1" "en" ∷ [])
unfolding put_memory validate write_memory
written = refl

put_memory-ok_example :
    All (IsStorable texts []) (row_of "u1" "en" ∷ [])
    × ((m : UserMemory) × (find_memory texts "u1" "language" (row_of "u1" "en" ∷ []) ≡ some m)
        × (m.value ≡ "en"))
put_memory-ok_example =
    put_memory-ok texts [] "u1" "language" "en" [] (row_of "u1" "en" ∷ []) tt written

abbrev first_user : String
first_user = "u1"

abbrev second_user : String
second_user = "u2"

apart : first_user ≢ second_user
apart e = let same : (first_user == second_user) ≡ true = (eq_iff first_user second_user).1 e in cc

written_after :
    put_memory texts [] "u1" "language" "en" (other_row ∷ [])
    ≡ ok (other_row ∷ row_of "u1" "en" ∷ [])
unfolding put_memory validate write_memory
written_after = refl

abbrev message : ℕ → Message
message n = record { seq = n; role = "user"; content = "hello there"; complete = true }

abbrev conversation : Conversation
conversation = record { summary = none; summary_upto_seq = none }

abbrev rows : List Message
rows =
    message 1
    ∷ message 2
    ∷ message 3
    ∷ message 4
    ∷ message 5
    ∷ message 6
    ∷ message 7
    ∷ message 8
    ∷ message 9
    ∷ message 10
    ∷ message 11
    ∷ message 12
    ∷ message 13
    ∷ message 14
    ∷ []

load_conversation_memory-Newest_example :
    Newest 7 0
      (take 10 (reverse (keep (replayed conversation) rows)))
      (reverse (load_conversation_memory conversation rows 10 7).window)
load_conversation_memory-Newest_example =
    load_conversation_memory-Newest conversation rows 10 7 (omega arith)

ordered : Ascending rows
ordered = ground arith

many : 12 < length (unsummarised conversation rows)
unfolding unsummarised
many = omega arith

update_summary-keeps_example :
    (unsummarised (update_summary (λ s. s) (λ prompt. some "a summary") conversation rows) rows
      ≡ drop (length (unsummarised conversation rows) - 12) (unsummarised conversation rows))
    × (length (
          unsummarised
            (update_summary (λ s. s) (λ prompt. some "a summary") conversation rows)
            rows)
        ≡ 12)
update_summary-keeps_example =
    update_summary-keeps (λ s. s) (λ prompt. some "a summary") conversation rows ordered many
      (λ prompt. ("a summary", refl))
