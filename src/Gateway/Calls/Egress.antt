-- ===== src/Gateway/Calls/Egress.antt =====
-- Data that must stay on the box goes to no provider that sends it away.
use novax_ai_assignment.Base.{
  ℕ, ◌+◌, subst, String, ◌≡◌, refl, inl, inr, false, Option, none, some, List, [], ◌∷◌, eq_refl,
  arith, All, contains, Bool-cases, Result, ok, err,
}
use novax_ai_assignment.Gateway.Catalog
use novax_ai_assignment.Gateway.Catalog.{ModelKind, ModelSpec, Catalog, ProviderConfig}
use novax_ai_assignment.Gateway.Catalog.Resolve.{ResolveError, resolve}
use novax_ai_assignment.Gateway.Records.{ChatParams}
use novax_ai_assignment.Gateway.Run.{Env, World, Sent, Answer}
use novax_ai_assignment.Gateway.Run.Requests.{IsDue, run-IsDue}
use novax_ai_assignment.Gateway.Calls
use novax_ai_assignment.Gateway.Calls.{
  Gateway, Outcome, ChatMessage, ChatResult, egress_ids, egress_blocked, chat,
}

-- The provider of the model is configured, and keeps data on the box.
abbrev pub StaysLocal : Catalog → ModelSpec → Type 0
StaysLocal c m =
    (p : ProviderConfig) × (Catalog.get m.provider c.providers ≡ some p) × (p.data_egress ≡ false)

module _ (c : Catalog) where
  weaken :
      (specs : List ModelSpec) (x : String) (ids : List String)
      → All (λ t. contains ids t.id ≡ false → StaysLocal c t) specs
      → All (λ t. contains (x ∷ ids) t.id ≡ false → StaysLocal c t) specs
  weaken [] x ids h = tt
  weaken (t ∷ ts) x ids h = ((λ out. h.0 (ground (arith, out))), weaken ts x ids h.1)

  abbrev LocalOutside : List ModelSpec → List String → Type 0
  LocalOutside specs ids = All (λ t. contains ids t.id ≡ false → StaysLocal c t) specs

  add_egress-local :
      (t : ModelSpec) (ts : List ModelSpec) (found : Option ProviderConfig)
      (rest : Option (List String)) (ids : List String)
      → Catalog.get t.provider c.providers ≡ found
      → ((ids' : List String) → rest ≡ some ids' → LocalOutside ts ids')
      → Calls.add_egress t found rest ≡ some ids
      → LocalOutside (t ∷ ts) ids
  unfolding Calls.add_egress
  add_egress-local t ts none rest ids f ih e = cc
  add_egress-local t ts (some p) none ids f ih e = cc
  add_egress-local t ts (some p) (some ids') ids f ih e = elim (Bool-cases p.data_egress) [
    | inl away ↦
        let same : t.id ∷ ids' ≡ ids = ground (arith, away, e) in
        subst (LocalOutside (t ∷ ts)) same
          ((λ out. absurd (ground (arith, eq_refl t.id, out))), weaken ts t.id ids' (ih ids' refl))
    | inr local ↦
        let same : ids' ≡ ids = ground (arith, local, e) in
        subst (LocalOutside (t ∷ ts)) same ((λ out. (p, f, local)), ih ids' refl)
  ]

  egress_ids-local :
      (specs : List ModelSpec) (ids : List String)
      → egress_ids c specs ≡ some ids
      → LocalOutside specs ids
  unfolding egress_ids
  egress_ids-local [] ids e = tt
  egress_ids-local (t ∷ ts) ids e =
      add_egress-local t ts (Catalog.get t.provider c.providers) (egress_ids c ts) ids refl
        (egress_ids-local ts) e

abbrev pub LocalRequest : Catalog → Sent → Type 0
LocalRequest c s = StaysLocal c s.model

All-map {ℓ} :
    {A : Type ℓ} (P Q : A → Type 0) → ((a : A) → P a → Q a) → (xs : List A) → All P xs → All Q xs
All-map P Q f [] h = tt
All-map P Q f (x ∷ xs) h = (f x h.0, All-map P Q f xs h.1)

module _ (g : Gateway) (env : Env ChatResult) (w : World) (none_sent : w.sent ≡ []) where
  blocked-local :
      (route : String) (targets : List ModelSpec) (blocked : Option (List String))
      → egress_ids g.catalog targets ≡ blocked
      → All
          (LocalRequest g.catalog)
          (Calls.run_blocked env ModelKind.chat route targets g.request_deadline_s w blocked).1.sent
  unfolding Calls.run_blocked
  blocked-local route targets none e = rw none_sent tt
  blocked-local route targets (some ids) e =
      All-map (IsDue (StaysLocal g.catalog) ids (w.now + g.request_deadline_s))
        (LocalRequest g.catalog) (λ s d. d.fits) _
        (run-IsDue env (StaysLocal g.catalog) ModelKind.chat targets g.request_deadline_s ids w
          (egress_ids-local g.catalog targets ids e) none_sent)

  chat_targets-local :
      (r : Result ResolveError (String × List ModelSpec))
      → All (LocalRequest g.catalog) (Calls.chat_targets g env false w r).1.sent
  unfolding Calls.chat_targets egress_blocked
  chat_targets-local (err e) = rw none_sent tt
  chat_targets-local (ok (route, targets)) =
      blocked-local route targets (egress_ids g.catalog targets) refl

-- A chat call that forbids egress sends its messages only to models whose provider is configured as
-- keeping data on the box, whatever model or route was asked for, whatever fails on the way, and
-- whatever other requests do meanwhile, where none was sent before.
pub chat-LocalRequest :
    (g : Gateway)
    (chats : String → Option (String → List ChatMessage → ChatParams → ℕ → Answer ChatResult))
    (route : Option String) (messages : List ChatMessage) (params : ChatParams) (w : World)
    → w.sent ≡ []
    → All (LocalRequest g.catalog) (chat g chats route messages params false w).1.sent
unfolding chat
chat-LocalRequest g chats route messages params w h =
    chat_targets-local g _ w h (resolve g.catalog route ModelKind.chat)
