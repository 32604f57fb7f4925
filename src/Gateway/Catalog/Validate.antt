-- ===== src/Gateway/Catalog/Validate.antt =====
-- `Catalog._validate_references`.
use novax_ai_assignment.Base.{
  ℕ, String, Bool, true, false, not, ◌&&◌, ◌||◌, Option, none, some, List, [], ◌∷◌, eqb, is_some,
  length, every, contains, Result, ok, err, ◌>>◌, raise_if,
}
use novax_ai_assignment.Gateway.Catalog.{ModelKind, same_kind, ModelSpec, Catalog, get, find_model}

pub data CatalogError : Type 0 where
  duplicate_models duplicate_selectable : CatalogError
  unknown_provider no_dimensions : String → CatalogError
  route_is_model route_empty route_unknown_model route_mixed route_not_single :
      String → CatalogError
  not_selectable default_undefined default_kind : String → CatalogError

-- `len(set(xs)) == len(xs)`
unfoldable pub distinct : List String → Bool
distinct [] = true
distinct (x ∷ xs) = not (contains xs x) && distinct xs

unfoldable pub ids : List ModelSpec → List String
ids [] = []
ids (m ∷ ms) = m.id ∷ ids ms

-- `not m.dimensions`
unfoldable pub no_dimensions_of : Option ℕ → Bool
no_dimensions_of none = true
no_dimensions_of (some n) = eqb n 0

unfoldable pub check_models : Catalog → List ModelSpec → Result CatalogError (Unit {0})
unfolding no_dimensions_of
check_models c [] = ok tt
check_models c (m ∷ ms) = do
  raise_if (not (is_some (get m.provider c.providers))) (CatalogError.unknown_provider m.id)
  raise_if (same_kind m.kind ModelKind.embedding && no_dimensions_of m.dimensions)
      (CatalogError.no_dimensions m.id)
  check_models c ms

-- Whether an id names a model, and one of this kind.
unfoldable pub has_kind : ModelKind → Option ModelSpec → Bool
has_kind kind none = false
has_kind kind (some m) = same_kind m.kind kind

unfoldable pub known : Catalog → String → Bool
known c t = is_some (find_model t c.models)

-- `by_id[t].kind == kind`
unfoldable pub of_kind : Catalog → ModelKind → String → Bool
unfolding has_kind
of_kind c kind t = has_kind kind (find_model t c.models)

unfoldable pub check_route : Catalog → String → List String → Result CatalogError (Unit {0})
unfolding known of_kind
check_route c name targets = do
  raise_if (known c name) (CatalogError.route_is_model name)
  raise_if (eqb (length targets) 0) (CatalogError.route_empty name)
  raise_if (not (every (known c) targets)) (CatalogError.route_unknown_model name)
  raise_if
      (not
        (every (of_kind c ModelKind.chat) targets || every (of_kind c ModelKind.embedding) targets))
      (CatalogError.route_mixed name)
  raise_if (every (of_kind c ModelKind.embedding) targets && not (eqb (length targets) 1))
      (CatalogError.route_not_single name)

unfoldable pub check_routes : Catalog → List (String × List String) → Result CatalogError (Unit {0})
unfolding check_route
check_routes c [] = ok tt
check_routes c ((name, targets) ∷ routes) = do check_route c name targets; check_routes c routes

unfoldable pub check_selectable : Catalog → List String → Result CatalogError (Unit {0})
unfolding of_kind
check_selectable c [] = ok tt
check_selectable c (id ∷ rest) = do
  raise_if (not (of_kind c ModelKind.chat id)) (CatalogError.not_selectable id)
  check_selectable c rest

-- `by_id[self.routes[route][0]].kind`
unfoldable pub head_kind : Catalog → ModelKind → List String → Bool
unfolding of_kind
head_kind c kind [] = false
head_kind c kind (t ∷ ts) = of_kind c kind t

unfoldable pub check_default_targets :
    Catalog → ModelKind → String → Option (List String) → Result CatalogError (Unit {0})
unfolding head_kind
check_default_targets c kind route none = err (CatalogError.default_undefined route)
check_default_targets c kind route (some targets) =
    raise_if (not (head_kind c kind targets)) (CatalogError.default_kind route)

unfoldable pub check_default : Catalog → ModelKind → String → Result CatalogError (Unit {0})
unfolding check_default_targets
check_default c kind route = check_default_targets c kind route (get route c.routes)

unfoldable pub validate : Catalog → Result CatalogError (Unit {0})
validate c = do
  raise_if (not (distinct (ids c.models))) CatalogError.duplicate_models
  check_models c c.models
  check_routes c c.routes
  check_selectable c c.selectable
  raise_if (not (distinct c.selectable)) CatalogError.duplicate_selectable
  check_default c ModelKind.chat c.defaults.chat
  check_default c ModelKind.embedding c.defaults.embedding
