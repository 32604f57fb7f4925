-- ===== src/Policy/Audit.antt =====
-- src/opsassist/policy/audit.py: the hash-chained audit log. `H` is the type of the hashes, and
-- `digest prev payload` stands for `sha256(prev + json.dumps(payload))`.
pub mod Chain
pub mod Tampering
mod Tests
use novax_ai_assignment.Base.{
  ℕ, suc, ◌+◌, String, Bool, true, false, not, Option, none, some, List, [], ◌∷◌, ◌++◌, length,
  if◌then◌else◌,
}
use novax_ai_assignment.Base.Text
use novax_ai_assignment.Policy.Redact.{Value, redact}

pub data Decision : Type 0 where
  allow deny pending executed error : Decision

pub record AuditEntry : Type 0 where
  pub request_id : String
  pub actor_id : String
  pub actor_role : String
  pub event : String
  pub decision : Decision
  pub tool : Option String
  pub arguments : Option Value
  pub reason : Option String
  pub result : Option Value
  pub pending_action_id : Option ℕ
  pub action_hash : Option String

redact_option : Option Value → Option Value
redact_option none = none
redact_option (some v) = some (redact v)

-- An entry with its arguments and its result redacted.
unfoldable pub redacted : AuditEntry → AuditEntry
unfolding redact_option
redacted e = record e { arguments = redact_option e.arguments; result = redact_option e.result }

-- What `record_hash` serialises: the entry, redacted, and the time.
pub record Payload : Type 0 where
  pub created_at : ℕ
  pub entry : AuditEntry

unfoldable pub payload_of : AuditEntry → ℕ → Payload
payload_of e created_at = record { created_at = created_at; entry = redacted e }

pub record Hashing (H : Type 0) : Type 0 where
  pub genesis : H
  pub digest : H → Payload → H
  pub same : H → H → Bool

-- A row of the table: the entry as it is stored, its hash and that of the row before it.
pub record AuditRow (H : Type 0) : Type 0 where
  pub id : ℕ
  pub created_at : ℕ
  pub entry : AuditEntry
  pub prev_hash : H
  pub hash : H

pub record ChainStatus : Type 0 where
  pub records : ℕ
  pub intact : Bool
  pub broken_at : Option ℕ
  pub detail : Option String

module _ {H : Type 0} (hashing : Hashing H) where
  open hashing use {genesis, digest, same}

  unfoldable pub record_hash : H → AuditEntry → ℕ → H
  record_hash prev e created_at = digest prev (payload_of e created_at)

  -- The hash of the last row, or the first hash if there is none. The rows are in the order of
  -- their ids.
  unfoldable pub last_hash : H → List (AuditRow H) → H
  last_hash prev [] = prev
  last_hash prev (row ∷ rows) = last_hash row.hash rows

  unfoldable pub last_id : ℕ → List (AuditRow H) → ℕ
  last_id n [] = n
  last_id n (row ∷ rows) = last_id row.id rows

  -- `append`: the lock makes it one step. `now` is the transaction's time.
  unfoldable pub append : List (AuditRow H) → AuditEntry → ℕ → List (AuditRow H)
  unfolding last_hash last_id
  append rows e now =
      let prev = last_hash genesis rows in
      rows
      ++ (record {
        id = last_id 0 rows + 1;
        created_at = now;
        entry = redacted e;
        prev_hash = prev;
        hash = record_hash prev e now;
      }
          ∷ [])

  broken : ℕ → AuditRow H → String → ChainStatus
  broken n row detail = record {
    records = n;
    intact = false;
    broken_at = some row.id;
    detail = some detail;
  }

  -- The loop of `verify_chain`, over the rows that are left; `n` is the number of all.
  unfoldable pub verify_from : ℕ → H → List (AuditRow H) → ChainStatus
  unfolding broken
  verify_from n prev [] = record { records = n; intact = true; broken_at = none; detail = none }
  verify_from n prev (row ∷ rows) =
      let rest = verify_from n row.hash rows in
      if not (same row.prev_hash prev)
      then broken n row "previous hash does not match"
      else if not (same row.hash (record_hash prev row.entry row.created_at))
      then broken n row "record content does not match its hash"
      else rest

  unfoldable pub verify_chain : List (AuditRow H) → ChainStatus
  verify_chain rows = verify_from (length rows) genesis rows
