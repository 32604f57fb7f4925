-- ===== src/Memory/Preferences/Laws.antt =====
-- What is stored of a user's preferences, by src/opsassist/memory.py.
use novax_ai_assignment.Base.{
  ◌≤◌, String, ◌≡◌, ◌≢◌, refl, sym, ap, subst, ◌∙◌, ◌⊎◌, inl, inr, Bool, true, false, not, ◌||◌,
  some, List, [], ◌∷◌, arith, eq_iff, eq_refl, count_chars, contains, is_empty, All, Bool-cases, ok,
  >>=-eq-ok, raise_if-eq-ok,
}
use novax_ai_assignment.Memory.Preferences.{
  Texts, UserMemory, allowed_keys, max_value_chars, validate, is_at, find_memory, write_memory,
  put_memory,
}

-- A value that may be stored under a key.
pub record Storable (texts : Texts) (extra : List String) (key value : String) : Type 0 where
  pub allowed : contains (allowed_keys extra) key ≡ true
  pub filled : is_empty value ≡ false
  pub short : count_chars value ≤ max_value_chars
  pub harmless : texts.looks_secret value ≡ false

module _ (texts : Texts) (extra : List String) where
  or-false : (a b : Bool) → (a || b) ≡ false → (a ≡ false) × (b ≡ false)
  or-false true b h = cc
  or-false false b h = (refl, h)

  not-false : (b : Bool) → not b ≡ false → b ≡ true
  not-false true h = refl
  not-false false h = cc

  validate-Storable :
      (key value v : String)
      → validate texts extra key value ≡ ok v
      → (v ≡ texts.strip value) × Storable texts extra key v
  unfolding validate
  validate-Storable key value v h =
      let (u, h1, r1) = >>=-eq-ok _ _ h in
      let (u', h2, r2) = >>=-eq-ok _ _ r1 in
      let (u'', h3, r3) = >>=-eq-ok _ _ r2 in
      let same : texts.strip value ≡ v = ground arith in
      let (filled, short) = or-false _ _ (raise_if-eq-ok _ _ h2) in
      (
        sym same,
        subst (Storable texts extra key) same (record {
          allowed = not-false _ (raise_if-eq-ok _ _ h1);
          filled = filled;
          short = ground arith;
          harmless = raise_if-eq-ok _ _ h3;
        }),
      )

  abbrev pub IsStorable : UserMemory → Type 0
  IsStorable m = Storable texts extra m.key m.value

  write-Storable :
      (user_id key value : String) (rows : List UserMemory)
      → Storable texts extra key value
      → All IsStorable rows
      → All IsStorable (write_memory texts user_id key value rows)
  unfolding write_memory
  write-Storable user_id key value [] ok_ h = (ok_, tt)
  write-Storable user_id key value (m ∷ ms) ok_ h = elim (Bool-cases (is_at texts user_id key m)) [
    | inr other ↦ rw other (h.0, write-Storable user_id key value ms ok_ h.1)
    | inl here ↦
        let same : key ≡ m.key = ground (arith, eq_iff m.key key) in
        rw here (subst (λ k. Storable texts extra k value) same ok_, h.1)
  ]

  find-write :
      (user_id key value : String) (rows : List UserMemory)
      → (m : UserMemory) × (find_memory texts user_id key
            (write_memory texts user_id key value rows)
          ≡ some m)
        × (m.value ≡ value)
  unfolding write_memory find_memory
  find-write user_id key value [] = rw (eq_refl user_id, eq_refl key) (_, refl, refl)
  find-write user_id key value (m ∷ ms) = elim (Bool-cases (is_at texts user_id key m)) [
    | inl here ↦ rw (here, find_memory, here) (_, refl, refl)
    | inr other ↦ rw (other, find_memory, other) (find-write user_id key value ms)
  ]

  one_row :
      (user_id key user_id' key' : String) (m : UserMemory)
      → (user_id ≢ user_id') ⊎ (key ≢ key')
      → is_at texts user_id key m ≡ true
      → is_at texts user_id' key' m ≡ false
  one_row user_id key user_id' key' m apart here = elim (Bool-cases (is_at texts user_id' key' m)) [
    | inr other ↦ other
    | inl also ↦ absurd (clash also apart)
  ]
    where
      both : (a b : String) → is_at texts a b m ≡ true → (m.user_id ≡ a) × (m.key ≡ b)
      both a b h = (ground (arith, eq_iff m.user_id a), ground (arith, eq_iff m.key b))

      clash : is_at texts user_id' key' m ≡ true → (user_id ≢ user_id') ⊎ (key ≢ key') → ⊥
      clash also (inl u) = u (sym (both user_id key here).0 ∙ (both user_id' key' also).0)
      clash also (inr k) = k (sym (both user_id key here).1 ∙ (both user_id' key' also).1)

  find-write_other :
      (user_id key user_id' key' value : String) (rows : List UserMemory)
      → (user_id ≢ user_id') ⊎ (key ≢ key')
      → find_memory texts user_id' key' (write_memory texts user_id key value rows)
        ≡ find_memory texts user_id' key' rows
  unfolding write_memory find_memory
  find-write_other user_id key user_id' key' value [] apart =
      let row : UserMemory = record {
        user_id = user_id;
        key = key;
        value = value;
        category = "preference";
        source = "explicit";
      } in
      let here : is_at texts user_id key row ≡ true = rw (eq_refl user_id, eq_refl key) in
      rw (one_row user_id key user_id' key' row apart here)
  find-write_other user_id key user_id' key' value (m ∷ ms) apart =
      elim (Bool-cases (is_at texts user_id key m)) [
        | inl here ↦ rw (here, find_memory, one_row user_id key user_id' key' m apart here)
        | inr other ↦
            rw (other, find_memory, find-write_other user_id key user_id' key' value ms apart)
      ]

  -- What a successful `put_memory` makes of a table whose values may all be stored: they still may,
  -- and the user's key now has the stripped value.
  pub put_memory-ok :
      (user_id key value : String) (rows rows' : List UserMemory)
      → All IsStorable rows
      → put_memory texts extra user_id key value rows ≡ ok rows'
      → All IsStorable rows'
        × ((m : UserMemory) × (find_memory texts user_id key rows' ≡ some m)
            × (m.value ≡ texts.strip value))
  unfolding put_memory
  put_memory-ok user_id key value rows rows' stored h =
      let (v, valid, written) = >>=-eq-ok _ _ h in
      let (stripped, storable) = validate-Storable key value v valid in
      let same : write_memory texts user_id key v rows ≡ rows' = ground arith in
      let (m, found, holds) = find-write user_id key v rows in
      (
        subst (All IsStorable) same (write-Storable user_id key v rows storable stored),
        (m, ap (find_memory texts user_id key) (sym same) ∙ found, holds ∙ stripped),
      )

  -- A successful `put_memory` leaves the row of every other user or key as it was.
  pub put_memory-others :
      (user_id key value user_id' key' : String) (rows rows' : List UserMemory)
      → (user_id ≢ user_id') ⊎ (key ≢ key')
      → put_memory texts extra user_id key value rows ≡ ok rows'
      → find_memory texts user_id' key' rows' ≡ find_memory texts user_id' key' rows
  unfolding put_memory
  put_memory-others user_id key value user_id' key' rows rows' apart h =
      let (v, valid, written) =
        >>=-eq-ok (validate texts extra key value) (λ v. ok (write_memory texts user_id key v rows))
          h in
      let same : write_memory texts user_id key v rows ≡ rows' = ground arith in
      ap (find_memory texts user_id' key') (sym same)
      ∙ find-write_other user_id key user_id' key' v rows apart
