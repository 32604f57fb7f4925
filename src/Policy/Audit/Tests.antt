-- ===== src/Policy/Audit/Tests.antt =====
-- A log of three entries, hashed by a digest that keeps all that it is given, and the theorems on it.
use novax_ai_assignment.Base.{
  ℕ, ◌≡◌, ◌≢◌, refl, ap, ◌↔◌, Bool, true, false, none, some, List, [], ◌∷◌, ◌++◌, length, String,
  ◌+◌, inl, inr, ◌==◌, eq_iff, Bool-cases, arith,
}
use native.Mathlib.Decide.{ℕ_discrete}
use novax_ai_assignment.Policy.Redact.{redact, is_sensitive_key, obj, text, field, end}
use novax_ai_assignment.Policy.Audit.{
  payload_of, redacted, AuditEntry, Decision, Payload, Hashing, verify_from, AuditRow, append,
  verify_chain, record_hash, last_hash,
}
use novax_ai_assignment.Policy.Audit.Chain.{Compares, Linked-verify_from, verify_chain-append}
use novax_ai_assignment.Policy.Audit.Tampering.{
  CollisionFree, sealed_rows, last_hash-commits, verify_chain-edit,
}

String_discrete : Discrete String
String_discrete s t = elim (Bool-cases (s == t)) [
  | inl same ↦ yes ((eq_iff s t).0 same)
  | inr other ↦ no (λ e. ground (arith, eq_iff s t))
]

Payload_discrete : Discrete Payload
Payload_discrete = hlevel (ℕ_discrete, String_discrete)

Hashes_discrete : Discrete (List Payload)
Hashes_discrete = hlevel (Payload_discrete)

-- The digest is the list of what was digested.
abbrev transparent : Hashing (List Payload)
transparent = record {
  genesis = [];
  digest = λ p a. a ∷ p;
  same = λ p q. elim (Hashes_discrete p q) [ yes e ↦ true | no e ↦ false ];
}

transparent-Compares : Compares transparent
transparent-Compares a b = go (Hashes_discrete a b)
  where
    go :
        (d : Dec (a ≡ b))
        → ((elim d as (λ x. Bool) [ yes e ↦ true | no e ↦ false ]) ≡ true) ↔ (a ≡ b)
    go (yes e) = ((λ h. e), (λ h. refl))
    go (no e) = ((λ h. cc), (λ h. absurd (e h)))

transparent-CollisionFree : CollisionFree transparent
transparent-CollisionFree p q a b h = (cc, cc)

transparent-acyclic : (p : List Payload) (a : Payload) → transparent.digest p a ≢ p
transparent-acyclic p a e = let same = ap length e in omega arith

abbrev entry : String → AuditEntry
entry reason = record {
  request_id = "r1";
  actor_id = "u1";
  actor_role = "employee";
  event = "tool_call";
  decision = Decision.executed;
  tool = some "get_server_status";
  arguments = some (obj (field "password" (text "hunter2") (field "server_id" (text "srv-1") end)));
  reason = some reason;
  result = none;
  pending_action_id = none;
  action_hash = none;
}

abbrev two : List (AuditRow (List Payload))
two = append transparent (append transparent [] (entry "one") 10) (entry "two") 20

-- the log of no entries is intact, and so is what is appended to it
one-intact : (verify_chain transparent (append transparent [] (entry "one") 10)).intact ≡ true
one-intact =
    ap (λ s. s.intact)
      (verify_chain-append transparent transparent-Compares [] (entry "one") 10
        (unfold verify_chain verify_from in refl))

two-intact : (verify_chain transparent two).intact ≡ true
two-intact =
    ap (λ s. s.intact)
      (verify_chain-append transparent transparent-Compares (append transparent [] (entry "one") 10)
        (entry "two") 20 one-intact)

verify_chain-append_example :
    verify_chain transparent (append transparent two (entry "three") 30)
    ≡ record { records = length two + 1; intact = true; broken_at = none; detail = none }
verify_chain-append_example =
    verify_chain-append transparent transparent-Compares two (entry "three") 30 two-intact

abbrev row_at : ℕ → ℕ → List Payload → String → AuditRow (List Payload)
row_at id at prev reason = record {
  id = id;
  created_at = at;
  entry = entry reason;
  prev_hash = prev;
  hash = record_hash transparent prev (entry reason) at;
}

abbrev first_row : AuditRow (List Payload)
first_row = row_at 1 10 [] "one"

abbrev second_row : AuditRow (List Payload)
second_row = row_at 2 20 first_row.hash "two"

rows-intact : (verify_chain transparent ([] ++ (first_row ∷ second_row ∷ []))).intact ≡ true
unfolding verify_chain
rows-intact =
    ap (λ s. s.intact)
      (Linked-verify_from transparent transparent-Compares 2 [] (first_row ∷ second_row ∷ [])
        (record { after = refl; sealed = refl }, (record { after = refl; sealed = refl }, tt)))

-- The same log, stored without the redaction.
same_last : last_hash transparent [] two ≡ last_hash transparent [] (first_row ∷ second_row ∷ [])
unfolding append last_hash
same_last = refl

as_long : length two ≡ length (first_row ∷ second_row ∷ [])
unfolding append last_hash
as_long = refl

last_hash-commits_example : sealed_rows two ≡ sealed_rows (first_row ∷ second_row ∷ [])
last_hash-commits_example =
    last_hash-commits transparent transparent-Compares transparent-CollisionFree two
      (first_row ∷ second_row ∷ []) as_long two-intact rows-intact same_last

-- Another password under a key that is redacted.
abbrev altered : AuditEntry
altered = record (entry "one") {
  arguments = some (obj (field "password" (text "other") (field "server_id" (text "srv-1") end)));
}

verify_chain-edit_example :
    ((verify_chain transparent
        ([] ++ (record first_row { entry = altered; created_at = 10 } ∷ second_row ∷ []))).intact
      ≡ true)
    ↔ (payload_of altered 10 ≡ payload_of first_row.entry first_row.created_at)
verify_chain-edit_example =
    verify_chain-edit transparent transparent-Compares transparent-CollisionFree [] first_row
      (second_row ∷ []) altered 10 rows-intact

not_seen : payload_of altered 10 ≡ payload_of first_row.entry first_row.created_at
unfolding payload_of redacted redact is_sensitive_key
not_seen = refl
