-- ===== src/Tools/System/Rows.antt =====
-- The table of pending actions after an insertion or an update of a pending row: which rows are found.
use novax_ai_assignment.Base.{
  ℕ, ◌≡◌, ◌≢◌, sym, subst, ◌∙◌, ap, ◌⊎◌, inl, inr, Bool, true, false, Option, none, some, List, ◌∷◌,
  arith, eqb, Bool-cases, if◌then◌else◌,
}
use novax_ai_assignment.Tools.Store.{PendingAction, PendingStatus, find_pending, replace_pending}
use novax_ai_assignment.Tools.Store.Lookup.{find_pending-replace_pending}
use novax_ai_assignment.Tools.Approve.{is_pending}

pub found-cons :
    (k : ℕ) (row p : PendingAction) (ps : List PendingAction)
    → find_pending k ps ≡ some p
    → row.id ≢ k
    → find_pending k (row ∷ ps) ≡ some p
unfolding find_pending
found-cons k row p ps h apart = ground arith

pub lookup-replace :
    (k : ℕ) (row row' : PendingAction) (ps : List PendingAction)
    → find_pending row.id ps ≡ some row
    → row'.id ≡ row.id
    → find_pending k (replace_pending row' ps)
      ≡ (if eqb row.id k then some row' else find_pending k ps)
lookup-replace k row row' ps at same =
    subst
      (λ i.
        find_pending k (replace_pending row' ps)
        ≡ (if eqb i k then some row' else find_pending k ps))
      same
      (find_pending-replace_pending k row' row ps
        (subst (λ i. find_pending i ps ≡ some row) (sym same) at))

pub found-replace :
    (k : ℕ) (row row' p : PendingAction) (ps : List PendingAction)
    → find_pending row.id ps ≡ some row
    → row'.id ≡ row.id
    → find_pending k ps ≡ some p
    → row.id ≢ k
    → find_pending k (replace_pending row' ps) ≡ some p
found-replace k row row' p ps at same h apart = lookup-replace k row row' ps at same ∙ ground arith

pub was_found :
    (k : ℕ) (row row' p : PendingAction) (ps : List PendingAction)
    → find_pending row.id ps ≡ some row
    → row'.id ≡ row.id
    → find_pending k (replace_pending row' ps) ≡ some p
    → (k ≡ row.id) ⊎ (find_pending k ps ≡ some p)
was_found k row row' p ps at same h = elim (Bool-cases (eqb row.id k)) [
  | inl yes_ ↦ inl (ground arith)
  | inr no_ ↦ let found = sym (lookup-replace k row row' ps at same) ∙ h in inr (ground arith)
]

pub was_found-cons :
    (k : ℕ) (row p : PendingAction) (ps : List PendingAction)
    → find_pending k (row ∷ ps) ≡ some p
    → (k ≡ row.id) ⊎ (find_pending k ps ≡ some p)
unfolding find_pending
was_found-cons k row p ps h = elim (Bool-cases (eqb row.id k)) [
  | inl yes_ ↦ inl (ground arith)
  | inr no_ ↦ inr (ground arith)
]

pub other_row :
    (k : ℕ) (row p : PendingAction) (ps : List PendingAction)
    → find_pending row.id ps ≡ some row
    → row.status ≡ PendingStatus.pending
    → find_pending k ps ≡ some p
    → is_pending p.status ≡ false
    → row.id ≢ k
other_row k row p ps at open_ found closed eq =
    let same : some row ≡ some p = sym at ∙ ap (λ i. find_pending i ps) eq ∙ found in
    let pending : is_pending p.status ≡ true =
      subst (λ (o : Option PendingAction). test o ≡ true) same (ap is_pending open_) in
    absurd (cc)
  where
    test : Option PendingAction → Bool
    test none = true
    test (some q) = is_pending q.status
