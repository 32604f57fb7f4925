-- ===== src/Knowledge/Index/Rows.antt =====
-- The rows of documents and of chunks under the writes of src/opsassist/knowledge/ingest.py.
use novax_ai_assignment.Base.{
  ℕ, ◌+◌, ◌<◌, String, ◌≡◌, refl, true, false, ◌&&◌, Option, none, some, List, [], ◌∷◌, ◌==◌, eqb,
  All, eq_iff, arith, if◌then◌else◌,
}
use novax_ai_assignment.Knowledge.Index.{DocStatus, Document, is_active, active_doc, latest, mark}

-- What readers use of a document's active version.
pub record Facts : Type 0 where
  pub id : ℕ
  pub version : ℕ
  pub department : String
  pub classification : String
  pub digest : String
  pub model : String
  pub count : ℕ

abbrev pub facts_of : Document → Facts
facts_of d = record {
  id = d.id;
  version = d.version;
  department = d.department;
  classification = d.classification;
  digest = d.content_sha256;
  model = d.embedding_model;
  count = d.chunk_count;
}

abbrev pub facts : Option Document → Option Facts
facts none = none
facts (some d) = some (facts_of d)

-- The active version of a key.
abbrev pub current : String → List Document → Option Facts
current key ds = facts (active_doc key ds)

-- How many versions of a key are active.
unfoldable pub actives : String → List Document → ℕ
actives key [] = 0
actives key (d ∷ ds) = (if d.doc_key == key && is_active d.status then 1 else 0) + actives key ds

abbrev pub Distinct : List Document → Type 0
Distinct [] = Unit
Distinct (d ∷ ds) = All (λ e. eqb e.id d.id ≡ false) ds × Distinct ds

abbrev pub Below : ℕ → List Document → Type 0
Below n ds = All (λ d. d.id < n) ds

pub active_doc-some :
    (key : String) (ds : List Document) {d : Document}
    → active_doc key ds ≡ some d
    → (d.doc_key == key ≡ true) × (is_active d.status ≡ true)
unfolding active_doc
active_doc-some key [] h = cc
active_doc-some key (e ∷ ds) {d} h = ground (arith, active_doc-some key ds {d = d})

found_id :
    (key : String) (n : ℕ) (ds : List Document) {d : Document}
    → active_doc key ds ≡ some d
    → All (λ e. eqb e.id n ≡ false) ds
    → eqb n d.id ≡ false
unfolding active_doc
found_id key n [] h all = cc
found_id key n (e ∷ ds) {d} h all = ground (arith, found_id key n ds {d = d})

pub active_doc-lt :
    (key : String) (n : ℕ) (ds : List Document) {d : Document}
    → active_doc key ds ≡ some d
    → Below n ds
    → d.id < n
unfolding active_doc
active_doc-lt key n [] h all = cc
active_doc-lt key n (e ∷ ds) {d} h all = ground (arith, active_doc-lt key n ds {d = d})

pub active_doc-none :
    (key : String) (ds : List Document) → actives key ds ≡ 0 → active_doc key ds ≡ none
unfolding active_doc actives
active_doc-none key [] h = refl
active_doc-none key (d ∷ ds) h = ground (arith, active_doc-none key ds)

pub actives-none :
    (key : String) (ds : List Document) → active_doc key ds ≡ none → actives key ds ≡ 0
unfolding active_doc actives
actives-none key [] h = refl
actives-none key (d ∷ ds) h = ground (arith, actives-none key ds)

module _ (status : DocStatus) (inactive : is_active status ≡ false) (now : ℕ) where
  -- The row that is found is the one that the write by id changes.
  pub actives-mark :
      (key k : String) (ds : List Document) {d : Document}
      → Distinct ds
      → active_doc key ds ≡ some d
      → actives k (mark d.id status now ds) + (if key == k then 1 else 0) ≡ actives k ds
  unfolding active_doc actives mark
  actives-mark key k [] distinct h = cc
  actives-mark key k (e ∷ ds) {d} distinct h = ground (
    arith,
    eq_iff e.doc_key key,
    eq_iff e.doc_key k,
    eq_iff key k,
    found_id key e.id ds {d = d},
    actives-mark key k ds {d = d},
  )

  pub active_doc-mark :
      (key k : String) (ds : List Document) {d : Document}
      → Distinct ds
      → active_doc key ds ≡ some d
      → key == k ≡ false
      → active_doc k (mark d.id status now ds) ≡ active_doc k ds
  unfolding active_doc mark
  active_doc-mark key k [] distinct h other = cc
  active_doc-mark key k (e ∷ ds) {d} distinct h other = ground (
    arith,
    eq_iff e.doc_key key,
    eq_iff e.doc_key k,
    eq_iff key k,
    found_id key e.id ds {d = d},
    active_doc-mark key k ds {d = d},
  )

  pub latest-mark :
      (id : ℕ) (k : String) (ds : List Document) → latest k (mark id status now ds) ≡ latest k ds
  unfolding latest mark
  latest-mark id k [] = refl
  latest-mark id k (d ∷ ds) = ground (arith, latest-mark id k ds)

  fresh-mark :
      (id n : ℕ) (ds : List Document)
      → All (λ e. eqb e.id n ≡ false) ds
      → All (λ e. eqb e.id n ≡ false) (mark id status now ds)
  unfolding mark
  fresh-mark id n [] h = h
  fresh-mark id n (d ∷ ds) h = ground (arith, fresh-mark id n ds)

  pub Distinct-mark : (id : ℕ) (ds : List Document) → Distinct ds → Distinct (mark id status now ds)
  unfolding mark
  Distinct-mark id [] h = h
  Distinct-mark id (d ∷ ds) h = ground (arith, Distinct-mark id ds, fresh-mark id d.id ds)

  pub Below-mark : (id n : ℕ) (ds : List Document) → Below n ds → Below n (mark id status now ds)
  unfolding mark
  Below-mark id n [] h = h
  Below-mark id n (d ∷ ds) h = ground (arith, Below-mark id n ds)
