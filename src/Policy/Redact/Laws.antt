-- ===== src/Policy/Redact/Laws.antt =====
-- Redaction is stable: what the log holds is redacted to itself.
use novax_ai_assignment.Base.{
  ℕ, ◌<◌, join, take_chars, ◌≡◌, refl, ap, ap₂, inl, inr, Bool, true, false, arith, ltb, ltb→lt,
  count_chars, Bool-cases, if◌then◌else◌, String,
}
use novax_ai_assignment.Base.Text.{take_chars-join}
use novax_ai_assignment.Policy.Redact.{
  Value, Items, Fields, null, bool, num, text, arr, obj, nil, cons, end, field, is_sensitive_key,
  cap_at, cap_text, redact, redact_items, redact_fields,
}

cap_at_long :
    (n : ℕ) (s : String)
    → n < count_chars s
    → cap_at n (join (take_chars n s) "…") ≡ join (take_chars n s) "…"
unfolding cap_at
cap_at_long n s h = elim (Bool-cases (ltb n (count_chars (join (take_chars n s) "…")))) [
  | inl long ↦ rw long (ap (λ t. join t "…") (take_chars-join n s "…" (omega arith)))
  | inr short ↦ rw short
]

cap_at_idem : (n : ℕ) (s : String) → cap_at n (cap_at n s) ≡ cap_at n s
cap_at_idem n s = elim (Bool-cases (ltb n (count_chars s))) [
  | inl long ↦ rw (once long) (cap_at_long n s (ltb→lt n (count_chars s) long))
  | inr short ↦ rw (whole short) (whole short)
]
  where
    once : ltb n (count_chars s) ≡ true → cap_at n s ≡ join (take_chars n s) "…"
    once long = unfold cap_at in rw long

    whole : ltb n (count_chars s) ≡ false → cap_at n s ≡ s
    whole short = unfold cap_at in rw short

cap_text_idem : (s : String) → cap_text (cap_text s) ≡ cap_text s
unfolding cap_text
cap_text_idem s = cap_at_idem 500 s

redacted_idem :
    (b : Bool) (v : Value)
    → redact (redact v) ≡ redact v
    → (if b then text "[REDACTED]" else redact (if b then text "[REDACTED]" else redact v))
      ≡ (if b then text "[REDACTED]" else redact v)
redacted_idem true v h = refl
redacted_idem false v h = h

mutual
  unfolding redact redact_items redact_fields

  redact-redact : (v : Value) → redact (redact v) ≡ redact v
  redact-redact null = refl
  redact-redact (bool b) = refl
  redact-redact (num n) = refl
  redact-redact (text s) = ap text (cap_text_idem s)
  redact-redact (arr items) = ap arr (redact_items-redact_items items)
  redact-redact (obj fields) = ap obj (redact_fields-redact_fields fields)

  redact_items-redact_items :
      (items : Items) → redact_items (redact_items items) ≡ redact_items items
  redact_items-redact_items nil = refl
  redact_items-redact_items (cons v items) =
      ap₂ cons (redact-redact v) (redact_items-redact_items items)

  redact_fields-redact_fields :
      (fields : Fields) → redact_fields (redact_fields fields) ≡ redact_fields fields
  redact_fields-redact_fields end = refl
  redact_fields-redact_fields (field k v fields) =
      ap₂ (field k) (redacted_idem (is_sensitive_key k) v (redact-redact v))
        (redact_fields-redact_fields fields)

-- Redacting what is already redacted changes nothing.
pub redact_idem : (v : Value) → redact (redact v) ≡ redact v
redact_idem v = redact-redact v
