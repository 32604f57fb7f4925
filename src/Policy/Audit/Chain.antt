-- ===== src/Policy/Audit/Chain.antt =====
-- What `append` writes, `verify_chain` accepts.
use novax_ai_assignment.Base.{
  ℕ, ◌+◌, ◌≡◌, refl, ap, sym, ◌∙◌, ◌↔◌, inl, inr, true, Option, none, some, List, [], ◌∷◌, ◌++◌,
  length, length-append, Bool-cases,
}
use novax_ai_assignment.Policy.Redact.{Value}
use novax_ai_assignment.Policy.Redact.Laws.{redact_idem}
use novax_ai_assignment.Policy.Audit
use novax_ai_assignment.Policy.Audit.{
  AuditEntry, Payload, Hashing, AuditRow, ChainStatus, redacted, payload_of, record_hash, last_hash,
  append, verify_from, verify_chain,
}

redact_option_idem :
    (o : Option Value) → Audit.redact_option (Audit.redact_option o) ≡ Audit.redact_option o
unfolding Audit.redact_option
redact_option_idem none = refl
redact_option_idem (some v) = ap some (redact_idem v)

redacted_idem : (e : AuditEntry) → redacted (redacted e) ≡ redacted e
unfolding redacted
redacted_idem e = λ i. record e {
  arguments = redact_option_idem e.arguments i;
  result = redact_option_idem e.result i;
}

payload-redacted : (e : AuditEntry) (t : ℕ) → payload_of (redacted e) t ≡ payload_of e t
unfolding payload_of
payload-redacted e t = ap (λ x. record { created_at = t; entry = x }) (redacted_idem e)

-- A row that follows on from `prev` and whose hash is that of its content.
pub record Links {H : Type 0} (hashing : Hashing H) (prev : H) (row : AuditRow H) : Type 0 where
  pub after : row.prev_hash ≡ prev
  pub sealed : row.hash ≡ record_hash hashing prev row.entry row.created_at

-- A chain of such rows.
abbrev pub Linked : {H : Type 0} → Hashing H → H → List (AuditRow H) → Type 0
Linked hashing prev [] = Unit
Linked hashing prev (row ∷ rows) = Links hashing prev row × Linked hashing row.hash rows

-- Hashes are compared by their characters.
abbrev pub Compares : {H : Type 0} → Hashing H → Type 0
Compares {H} hashing = (a b : H) → (hashing.same a b ≡ true) ↔ (a ≡ b)

module _ {H : Type 0} (hashing : Hashing H) (compares : Compares hashing) where
  pub verify_from-Linked :
      (n : ℕ) (prev : H) (rows : List (AuditRow H))
      → (verify_from hashing n prev rows).intact ≡ true
      → Linked hashing prev rows
  unfolding verify_from
  verify_from-Linked n prev [] h = tt
  verify_from-Linked n prev (row ∷ rows) h = elim (Bool-cases (hashing.same row.prev_hash prev)) [
    | inr apart ↦ cc (rw (apart, verify_from) at h)
    | inl after ↦
        elim (Bool-cases
          (hashing.same row.hash (record_hash hashing prev row.entry row.created_at))) [
            | inr apart ↦ cc (rw (after, apart, verify_from) at h)
            | inl sealed ↦ (
              record { after = (compares _ _).0 after; sealed = (compares _ _).0 sealed },
              verify_from-Linked n row.hash rows (rw (after, sealed, verify_from) at h),
            )
          ]
  ]

  pub Linked-verify_from :
      (n : ℕ) (prev : H) (rows : List (AuditRow H))
      → Linked hashing prev rows
      → verify_from hashing n prev rows
        ≡ record { records = n; intact = true; broken_at = none; detail = none }
  unfolding verify_from
  Linked-verify_from n prev [] h = refl
  Linked-verify_from n prev (row ∷ rows) h =
      rw ((compares _ _).1 h.0.after, (compares _ _).1 h.0.sealed)
        (Linked-verify_from n row.hash rows h.1)

  Linked-append :
      (prev : H) (rows : List (AuditRow H)) (row : AuditRow H)
      → Linked hashing prev rows
      → Links hashing (last_hash hashing prev rows) row
      → Linked hashing prev (rows ++ (row ∷ []))
  unfolding last_hash
  Linked-append prev [] row h l = (l, tt)
  Linked-append prev (r ∷ rows) row h l = (h.0, Linked-append r.hash rows row h.1 l)

  append-Linked :
      (rows : List (AuditRow H)) (e : AuditEntry) (now : ℕ)
      → Linked hashing hashing.genesis rows
      → Linked hashing hashing.genesis (append hashing rows e now)
  unfolding append
  append-Linked rows e now h = Linked-append hashing.genesis rows _ h (record {
    after = refl;
    sealed =
        unfold record_hash in
        ap (hashing.digest (last_hash hashing hashing.genesis rows)) (sym (payload-redacted e now));
  })

  -- An intact log stays intact when an entry is appended, whatever secrets or long texts the entry
  -- holds, and the verification then counts one record more, where hashes are compared by what they are.
  pub verify_chain-append :
      (rows : List (AuditRow H)) (e : AuditEntry) (now : ℕ)
      → (verify_chain hashing rows).intact ≡ true
      → verify_chain hashing (append hashing rows e now)
        ≡ record { records = length rows + 1; intact = true; broken_at = none; detail = none }
  unfolding verify_chain append
  verify_chain-append rows e now h =
      Linked-verify_from _ hashing.genesis (append hashing rows e now)
        (append-Linked rows e now (verify_from-Linked (length rows) hashing.genesis rows h))
      ∙ ap (λ (n : ℕ). record { records = n; intact = true; broken_at = none; detail = none })
          (length-append rows _)
