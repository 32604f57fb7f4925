-- ===== src/Policy/Audit/Tampering.antt =====
-- Which changes of stored rows src/opsassist/policy/audit.py detects, given a digest without collisions.
use novax_ai_assignment.Base.{
  ℕ, ◌≡◌, ◌≢◌, refl, ap, ap₂, ◌↔◌, sym, ◌∙◌, inl, inr, true, false, List, [], ◌∷◌, ◌++◌, length,
  arith, Bool-cases,
}
use novax_ai_assignment.Policy.Audit.{
  AuditEntry, Payload, Hashing, AuditRow, payload_of, record_hash, last_hash, verify_from,
  verify_chain,
}
use novax_ai_assignment.Policy.Audit.Chain.{
  Links, Linked, Compares, verify_from-Linked, Linked-verify_from,
}

-- What a row's hash covers, which is the record as `record_hash` redacts it and not as it is stored, and
-- the row's two hashes.
pub record Sealed (H : Type 0) : Type 0 where
  pub payload : Payload
  pub prev_hash : H
  pub hash : H

abbrev pub sealed_of : {H : Type 0} → AuditRow H → Sealed H
sealed_of row = record {
  payload = payload_of row.entry row.created_at;
  prev_hash = row.prev_hash;
  hash = row.hash;
}

abbrev pub sealed_rows : {H : Type 0} → List (AuditRow H) → List (Sealed H)
sealed_rows [] = []
sealed_rows (row ∷ rows) = sealed_of row ∷ sealed_rows rows

-- Two different records, or the same record after different hashes, have different hashes.
abbrev pub CollisionFree : {H : Type 0} → Hashing H → Type 0
CollisionFree {H} hashing =
    (p q : H) (a b : Payload) → hashing.digest p a ≡ hashing.digest q b → (p ≡ q) × (a ≡ b)

module _ {H : Type 0} (hashing : Hashing H) (compares : Compares hashing) where
  module _ (free : CollisionFree hashing) where
    Linked-unique :
        (p q : H) (xs ys : List (AuditRow H))
        → length xs ≡ length ys
        → Linked hashing p xs
        → Linked hashing q ys
        → last_hash hashing p xs ≡ last_hash hashing q ys
        → (p ≡ q) × (sealed_rows xs ≡ sealed_rows ys)
    unfolding last_hash record_hash
    Linked-unique p q [] [] n h k e = (e, refl)
    Linked-unique p q [] (y ∷ ys) n h k e = absurd (omega arith)
    Linked-unique p q (x ∷ xs) [] n h k e = absurd (omega arith)
    Linked-unique p q (x ∷ xs) (y ∷ ys) n h k e =
        let (same, rest) = Linked-unique x.hash y.hash xs ys (omega arith) h.1 k.1 e in
        let (before, content) =
          free p q (payload_of x.entry x.created_at) (payload_of y.entry y.created_at)
            (sym h.0.sealed ∙ same ∙ k.0.sealed) in
        let prev : x.prev_hash ≡ y.prev_hash = h.0.after ∙ before ∙ sym k.0.after in
        (
          before,
          ap₂ ◌∷◌ (λ i. record { payload = content i; prev_hash = prev i; hash = same i }) rest,
        )

    -- The last hash commits to what the hashes cover: two intact logs with as many rows and the same last
    -- hash agree, row by row, on both hashes, on the time and on all of the record but its arguments
    -- and its result, and on these once they are redacted. The digest has no collisions and hashes
    -- are compared by what they are.
    pub last_hash-commits :
        (xs ys : List (AuditRow H))
        → length xs ≡ length ys
        → (verify_chain hashing xs).intact ≡ true
        → (verify_chain hashing ys).intact ≡ true
        → last_hash hashing hashing.genesis xs ≡ last_hash hashing hashing.genesis ys
        → sealed_rows xs ≡ sealed_rows ys
    unfolding verify_chain
    last_hash-commits xs ys n h k e =
        (Linked-unique hashing.genesis hashing.genesis xs ys n
          (verify_from-Linked hashing compares (length xs) hashing.genesis xs h)
          (verify_from-Linked hashing compares (length ys) hashing.genesis ys k) e).1

    -- The chain at a row whose record and time are replaced.
    Linked-edit :
        (prev : H) (xs : List (AuditRow H)) (row : AuditRow H) (rows : List (AuditRow H))
        (e : AuditEntry) (t : ℕ)
        → Linked hashing prev (xs ++ (row ∷ rows))
        → Linked hashing prev (xs ++ (record row { entry = e; created_at = t } ∷ rows))
          ↔ (payload_of e t ≡ payload_of row.entry row.created_at)
    unfolding record_hash
    Linked-edit prev [] row rows e t h = (
      λ k.
          (free prev prev (payload_of e t) (payload_of row.entry row.created_at)
            (sym k.0.sealed ∙ h.0.sealed)).1,
      λ same. (
        record { after = h.0.after; sealed = h.0.sealed ∙ ap (hashing.digest prev) (sym same) },
        h.1,
      ),
    )
    Linked-edit prev (x ∷ xs) row rows e t h =
        let rest = Linked-edit x.hash xs row rows e t h.1 in
        (λ k. rest.0 k.1, λ same. (h.0, rest.1 same))

    -- The record and the time of a row are overwritten in an intact log, at any place: the log stays
    -- intact exactly when the new record, redacted, with its time is the old one, redacted, with its
    -- time. So every other edit is detected, and one that redaction hides is not. The digest has no
    -- collisions and hashes are compared by what they are.
    pub verify_chain-edit :
        (xs : List (AuditRow H)) (row : AuditRow H) (rows : List (AuditRow H)) (e : AuditEntry)
        (t : ℕ)
        → (verify_chain hashing (xs ++ (row ∷ rows))).intact ≡ true
        → ((verify_chain hashing (xs ++ (record row { entry = e; created_at = t } ∷ rows))).intact
            ≡ true)
          ↔ (payload_of e t ≡ payload_of row.entry row.created_at)
    unfolding verify_chain
    verify_chain-edit xs row rows e t h =
        let edited = xs ++ (record row { entry = e; created_at = t } ∷ rows) in
        let same =
          Linked-edit hashing.genesis xs row rows e t
            (verify_from-Linked hashing compares _ hashing.genesis (xs ++ (row ∷ rows)) h) in
        (
          λ k. same.0 (verify_from-Linked hashing compares _ hashing.genesis edited k),
          λ eq.
              ap (λ s. s.intact)
                (Linked-verify_from hashing compares (length edited) hashing.genesis edited
                  (same.1 eq)),
        )

  Linked-after :
      (prev : H) (xs : List (AuditRow H)) (row : AuditRow H) (rows : List (AuditRow H))
      → Linked hashing prev (xs ++ (row ∷ rows))
      → Linked hashing (last_hash hashing prev xs) (row ∷ rows)
  unfolding last_hash
  Linked-after prev [] row rows h = h
  Linked-after prev (x ∷ xs) row rows h = Linked-after x.hash xs row rows h.1

  -- A row taken out of an intact log, other than at its end, breaks it, where no hash is the digest of
  -- a record after itself and hashes are compared by what they are.
  pub verify_chain-remove :
      ((p : H) (a : Payload) → hashing.digest p a ≢ p)
      → (xs : List (AuditRow H)) (row next : AuditRow H) (rows : List (AuditRow H))
      → (verify_chain hashing (xs ++ (row ∷ next ∷ rows))).intact ≡ true
      → (verify_chain hashing (xs ++ (next ∷ rows))).intact ≡ false
  unfolding verify_chain
  verify_chain-remove acyclic xs row next rows h =
      elim (Bool-cases
        (verify_from hashing (length (xs ++ (next ∷ rows))) hashing.genesis
          (xs ++ (next ∷ rows))).intact) [
            | inr no_ ↦ no_
            | inl intact ↦
                let whole = Linked-after hashing.genesis xs row (next ∷ rows) (
                  verify_from-Linked hashing compares _ hashing.genesis (xs ++ (row ∷ next ∷ rows))
                    h) in
                let rest = Linked-after hashing.genesis xs next rows (
                  verify_from-Linked hashing compares _ hashing.genesis (xs ++ (next ∷ rows))
                    intact) in
                absurd (
                  acyclic (last_hash hashing hashing.genesis xs)
                    (payload_of row.entry row.created_at)
                    (hash_of row whole.0 ∙ sym whole.1.0.after ∙ rest.0.after))
          ]
    where
      hash_of :
          (r : AuditRow H)
          → Links hashing (last_hash hashing hashing.genesis xs) r
          → hashing.digest (last_hash hashing hashing.genesis xs) (payload_of r.entry r.created_at)
            ≡ r.hash
      hash_of r l = unfold record_hash in sym l.sealed
