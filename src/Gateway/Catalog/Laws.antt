-- ===== src/Gateway/Catalog/Laws.antt =====
-- What a validated catalogue guarantees of `resolve`.
use novax_ai_assignment.Base.{
  String, ◌≡◌, refl, sym, subst, ◌∙◌, ◌⊎◌, inl, inr, Bool, true, false, not, Option, none, some,
  List, [], ◌∷◌, ◌==◌, eq_iff, arith, eqb, length, every, keep, contains, Bool-cases, Option-cases,
  Result, ok, err, ◌>>=◌, or_raise, >>=-eq-ok,
}
use novax_ai_assignment.Gateway.Catalog.{
  ModelKind, same_kind, ModelSpec, Catalog, get, find_model, model,
}
use novax_ai_assignment.Gateway.Catalog.Validate.{CatalogError, known, of_kind, has_kind, validate}
use novax_ai_assignment.Gateway.Catalog.Validate
use novax_ai_assignment.Gateway.Catalog.Resolve
use novax_ai_assignment.Gateway.Catalog.Resolve.{ResolveError, models_of, picker_order, resolve}

abbrev pub all_of_kind : ModelKind → List ModelSpec → Bool
all_of_kind kind = every (λ m. same_kind m.kind kind)

-- What a resolution may end in: targets, at least one and all of the kind asked for, or one of the
-- two errors that the code raises on purpose.
abbrev pub IsSound : ModelKind → Result ResolveError (String × List ModelSpec) → Type 0
IsSound kind (ok (route, targets)) =
    (all_of_kind kind targets ≡ true) × (eqb (length targets) 0 ≡ false)
IsSound kind (err (ResolveError.unknown_model name)) = Unit
IsSound kind (err (ResolveError.wrong_kind name)) = Unit
IsSound kind (err e) = ⊥

abbrev Loads : Catalog → ModelKind → List String → Type 0
Loads c kind ts =
    (ms : List ModelSpec) × (models_of c ts ≡ ok ms)
    × (all_of_kind kind ms ≡ true)
    × (length ms ≡ length ts)

load-of_kind :
    (c : Catalog) (kind : ModelKind) (t : String)
    → of_kind c kind t ≡ true
    → (m : ModelSpec) × (model c t ≡ some m) × (same_kind m.kind kind ≡ true)
unfolding of_kind has_kind model
load-of_kind c kind t h = elim (Option-cases (find_model t c.models)) [
  | inl e ↦ absurd (ground (arith, e))
  | inr (m, e) ↦ (m, e, ground (arith, e))
]

models_of-Loads :
    (c : Catalog) (kind : ModelKind) (ts : List String)
    → every (of_kind c kind) ts ≡ true
    → Loads c kind ts
unfolding models_of
models_of-Loads c kind [] h = ([], refl, refl, refl)
models_of-Loads c kind (t ∷ ts) h =
    let (m, found, k) = load-of_kind c kind t (ground arith) in
    let (ms, e, ks, n) = models_of-Loads c kind ts (ground arith) in
    (m ∷ ms, rw (found, models_of, e) refl, ground arith, ground arith)

every-keep :
    (p q : String → Bool) (xs : List String) → every p xs ≡ true → every p (keep q xs) ≡ true
every-keep p q [] h = refl
every-keep p q (x ∷ xs) h = ground (arith, every-keep p q xs)

every-contains :
    (p : String → Bool) (xs : List String) (x : String)
    → every p xs ≡ true
    → contains xs x ≡ true
    → p x ≡ true
every-contains p [] x h k = cc
every-contains p (y ∷ ys) x h k = ground (arith, every-contains p ys x, eq_iff y x)

-- What `validate` has checked of a route's targets.
abbrev GoodTargets : Catalog → List String → Type 0
GoodTargets c ts =
    (eqb (length ts) 0 ≡ false)
    × ((every (of_kind c ModelKind.chat) ts ≡ true)
        ⊎ (every (of_kind c ModelKind.embedding) ts ≡ true))

check_route-Good :
    (c : Catalog) (name : String) (ts : List String)
    → Validate.check_route c name ts ≡ ok tt
    → GoodTargets c ts
unfolding Validate.check_route
check_route-Good c name ts h = ground arith

get-Good :
    (c : Catalog) (name : String) (routes : List (String × List String)) (ts : List String)
    → Validate.check_routes c routes ≡ ok tt
    → get name routes ≡ some ts
    → GoodTargets c ts
unfolding Validate.check_routes get
get-Good c name [] ts h e = cc
get-Good c name ((j, us) ∷ routes) ts h e =
    let (u, first, rest) =
      >>=-eq-ok (Validate.check_route c j us) (λ _. Validate.check_routes c routes) h in
    elim (Bool-cases (j == name)) [
      | inl same ↦ ground (arith, check_route-Good c j us)
      | inr other ↦ get-Good c name routes ts rest (ground (arith, other))
    ]

check_selectable-every :
    (c : Catalog) (xs : List String)
    → Validate.check_selectable c xs ≡ ok tt
    → every (of_kind c ModelKind.chat) xs ≡ true
unfolding Validate.check_selectable
check_selectable-every c [] h = refl
check_selectable-every c (x ∷ xs) h = ground (arith, check_selectable-every c xs)

record Checked (c : Catalog) : Type 0 where
  routes : Validate.check_routes c c.routes ≡ ok tt
  selectable : Validate.check_selectable c c.selectable ≡ ok tt
  default_chat : Validate.check_default c ModelKind.chat c.defaults.chat ≡ ok tt
  default_embedding : Validate.check_default c ModelKind.embedding c.defaults.embedding ≡ ok tt

validate-Checked : (c : Catalog) → validate c ≡ ok tt → Checked c
unfolding validate
validate-Checked c h = record {
  routes = ground arith;
  selectable = ground arith;
  default_chat = ground arith;
  default_embedding = ground arith;
}

module _ (c : Catalog) (v : Checked c) where
  picked-IsSound :
      (route : String)
      → contains c.selectable route ≡ true
      → IsSound ModelKind.chat (Resolve.picked c route)
  unfolding Resolve.picked picker_order
  picked-IsSound route h =
      let all = check_selectable-every c c.selectable v.selectable in
      let (ms, e, ks, n) = models_of-Loads c ModelKind.chat (picker_order c route) (
        ground (
          arith,
          every-contains (of_kind c ModelKind.chat) c.selectable route all h,
          every-keep (of_kind c ModelKind.chat) (λ m. not (m == route)) c.selectable all,
        )) in
      rw (e, Resolve.picked) (ks, ground arith)

same_kind-eq : (a b : ModelKind) → same_kind a b ≡ true → a ≡ b
same_kind-eq a b h = ground arith

check_kind-IsSound :
    (route : String) (kind k : ModelKind) (ms : List ModelSpec)
    → eqb (length ms) 0 ≡ false
    → all_of_kind k ms ≡ true
    → IsSound kind (Resolve.check_kind route kind ms)
unfolding Resolve.check_kind
check_kind-IsSound route kind k [] n h = cc
check_kind-IsSound route kind k (m ∷ ms) n h = elim (Bool-cases (same_kind m.kind kind)) [
  | inl same ↦
      let e = same_kind-eq m.kind kind same in
      let e' = same_kind-eq m.kind k (ground arith) in
      rw (same, Resolve.check_kind) (subst (λ j. all_of_kind j (m ∷ ms) ≡ true) (sym e' ∙ e) h, n)
  | inr other ↦ rw (other, Resolve.check_kind) tt
]

module _ (c : Catalog) (v : Checked c) where
  targets-IsSound :
      (route : String) (kind k : ModelKind) (ts : List String)
      → eqb (length ts) 0 ≡ false
      → every (of_kind c k) ts ≡ true
      → IsSound kind (models_of c ts >>= Resolve.check_kind route kind)
  targets-IsSound route kind k ts n h =
      let (ms, e, ks, len) = models_of-Loads c k ts h in
      rw e (check_kind-IsSound route kind k ms (ground arith) ks)

  routed-IsSound : (route : String) (kind : ModelKind) → IsSound kind (Resolve.routed c route kind)
  unfolding Resolve.routed
  routed-IsSound route kind = elim (Option-cases (get route c.routes)) [
    | inl missing ↦ rw (missing, Resolve.routed) (single-IsSound (model c route))
    | inr (ts, e) ↦
        let (n, good) = get-Good c route c.routes ts v.routes e in
        rw (e, Resolve.routed)
          (elim good [
            | inl chat ↦ targets-IsSound route kind ModelKind.chat ts n chat
            | inr emb ↦ targets-IsSound route kind ModelKind.embedding ts n emb
          ])
  ]
    where
      single-IsSound :
          (o : Option ModelSpec)
          → IsSound kind (
              (or_raise o (ResolveError.unknown_model route) >>= λ m. ok (m ∷ []))
              >>= Resolve.check_kind route kind)
      single-IsSound none = tt
      single-IsSound (some m) = check_kind-IsSound route kind m.kind (m ∷ []) refl (ground arith)

-- On a catalogue that passed its validation, resolving any name for any kind either gives at least
-- one target, all of the kind asked for, or raises `UnknownModelError`: never a bare `KeyError` or
-- `IndexError`.
pub resolve-IsSound :
    (c : Catalog) (name : Option String) (kind : ModelKind)
    → validate c ≡ ok tt
    → IsSound kind (resolve c name kind)
unfolding resolve
resolve-IsSound c name ModelKind.embedding h =
    routed-IsSound c (validate-Checked c h) _ ModelKind.embedding
resolve-IsSound c name ModelKind.chat h =
    let route = Resolve.chosen_route c ModelKind.chat name in
    let v = validate-Checked c h in
    elim (Bool-cases (contains c.selectable route)) [
      | inl picker ↦ rw (picker, Resolve.resolve_route) (picked-IsSound c v route picker)
      | inr other ↦ rw (other, Resolve.resolve_route) (routed-IsSound c v route ModelKind.chat)
    ]
