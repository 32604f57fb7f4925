-- ===== src/Gateway/Catalog/Resolve.antt =====
-- `Catalog.resolve`, `check_choice` and `without_provider`.
use novax_ai_assignment.Base.{
  String, Bool, true, false, not, Option, none, some, List, [], ◌∷◌, ◌==◌, is_empty, any, keep,
  contains, Result, ok, err, ◌>>=◌, or_raise, if◌then◌else◌,
}
use novax_ai_assignment.Gateway.Catalog.{ModelKind, same_kind, ModelSpec, Catalog, get, model}

-- `key_error` and `index_error` are Python's own, and escape `resolve`.
pub data ResolveError : Type 0 where
  unknown_model wrong_kind not_selectable key_error : String → ResolveError
  index_error : ResolveError

unfoldable pub default_route : Catalog → ModelKind → String
default_route c ModelKind.chat = c.defaults.chat
default_route c ModelKind.embedding = c.defaults.embedding

-- `name or default`: an empty name counts as absent.
unfoldable pub chosen_route : Catalog → ModelKind → Option String → String
unfolding default_route
chosen_route c kind none = default_route c kind
chosen_route c kind (some name) = if is_empty name then default_route c kind else name

unfoldable pub models_of : Catalog → List String → Result ResolveError (List ModelSpec)
models_of c [] = ok []
models_of c (t ∷ ts) = do
  m ← or_raise (model c t) (ResolveError.key_error t)
  ms ← models_of c ts
  ok (m ∷ ms)

unfoldable pub single : Catalog → String → Result ResolveError (List ModelSpec)
single c route = do m ← or_raise (model c route) (ResolveError.unknown_model route); ok (m ∷ [])

unfoldable pub route_targets :
    Catalog → String → Option (List String) → Result ResolveError (List ModelSpec)
unfolding single
route_targets c route none = single c route
route_targets c route (some targets) = models_of c targets

unfoldable pub check_kind :
    String → ModelKind → List ModelSpec → Result ResolveError (String × List ModelSpec)
check_kind route kind [] = err ResolveError.index_error
check_kind route kind (m ∷ ms) =
    if not (same_kind m.kind kind) then err (ResolveError.wrong_kind route) else ok (route, m ∷ ms)

unfoldable pub is_chat : ModelKind → Bool
is_chat ModelKind.chat = true
is_chat ModelKind.embedding = false

-- The picker's model first, then the other picker models in their order.
unfoldable pub picker_order : Catalog → String → List String
picker_order c route = route ∷ keep (λ m. not (m == route)) c.selectable

unfoldable pub picked : Catalog → String → Result ResolveError (String × List ModelSpec)
unfolding picker_order
picked c route = do ms ← models_of c (picker_order c route); ok (route, ms)

unfoldable pub routed : Catalog → String → ModelKind → Result ResolveError (String × List ModelSpec)
unfolding route_targets check_kind
routed c route kind = do
  targets ← route_targets c route (get route c.routes)
  check_kind route kind targets

unfoldable pub resolve_route :
    Catalog → String → ModelKind → Result ResolveError (String × List ModelSpec)
unfolding is_chat picked routed
resolve_route c route kind = elim (is_chat kind) [
  | true ↦ if contains c.selectable route then picked c route else routed c route kind
  | false ↦ routed c route kind
]

unfoldable pub resolve :
    Catalog → Option String → ModelKind → Result ResolveError (String × List ModelSpec)
unfolding chosen_route resolve_route
resolve c name kind = resolve_route c (chosen_route c kind name) kind

unfoldable pub check_choice : Catalog → Option String → Bool → Result ResolveError (Unit {0})
unfolding resolve
check_choice c none allow_any = ok tt
check_choice c (some name) allow_any =
    if contains c.selectable name
    then ok tt
    else if not allow_any
    then err (ResolveError.not_selectable name)
    else (do targets ← resolve c (some name) ModelKind.chat; ok tt)

unfoldable pub kept_model : List ModelSpec → String → Bool
kept_model ms t = any (λ m. m.id == t) ms

unfoldable pub kept_routes :
    List ModelSpec → List (String × List String) → List (String × List String)
unfolding kept_model
kept_routes ms [] = []
kept_routes ms ((name, targets) ∷ routes) =
    let rest = kept_routes ms routes in
    if any (kept_model ms) targets then (name, keep (kept_model ms) targets) ∷ rest else rest

-- The constructor's validation of the new catalogue is `validate`.
unfoldable pub without_provider : Catalog → String → Catalog
unfolding kept_routes
without_provider c provider =
    let models = keep (λ m. not (m.provider == provider)) c.models in
    record {
      providers = keep (λ p. not (p.0 == provider)) c.providers;
      models = models;
      routes = kept_routes models c.routes;
      defaults = c.defaults;
      selectable = keep (kept_model models) c.selectable;
    }
