-- ===== src/Agent/Route/Triggers.antt =====
-- The tool that an identifier in a question names: `triggered_skill` of src/opsassist/tools/registry.py.
use novax_ai_assignment.Base.{
  String, ◌≡◌, refl, sym, ap, subst, inl, inr, true, false, Option, none, some, List, [], ◌∷◌, ◌++◌,
  arith, All, All-append, Bool-cases,
}
use novax_ai_assignment.Policy.Redact.{Value, obj, text, field, end}
use novax_ai_assignment.Tools.Registry.{Tool, tool_name, spec_of, effect, reads}
use novax_ai_assignment.Agent.Intent
use novax_ai_assignment.Agent.Intent.{
  Reading, tools, asks_for, asks_about_rules, asks_for_unsupported_action, asks_for_record,
  reads_with_invalid_arguments, misreads, triggered_skill, found_by, found_in, one_found,
}
use novax_ai_assignment.Agent.Route
use novax_ai_assignment.Agent.Route.{
  Decision, same_route, without_tool, chosen_reads, read_decision, parse_decision, guard_record,
  guard_rules, guard_action, guard_arguments, guards, by_model, by_trigger, classify,
}

All-split :
    (P : Tool × Value → Type 0) (xs ys : List (Tool × Value))
    → All P (xs ++ ys)
    → All P xs × All P ys
All-split P [] ys h = (tt, h)
All-split P (x ∷ xs) ys h = let (hx, hy) = All-split P xs ys h.1 in ((h.0, hx), hy)

module _ (reading : Reading) (question : String) where
  -- The question has an identifier of the kind that a tool which only reads is looked up by.
  pub record Matches (t : Tool) : Type 0 where
    pub format : String
    pub argument : String
    pub identifier : String
    pub has_trigger : (spec_of t).trigger ≡ some (format, argument)
    pub occurs : reading.trigger format question ≡ some identifier
    pub only_reads : reads (effect t) ≡ true
    pub harmless : (spec_of t).sensitive ≡ false

  -- The call of a tool with the identifier that the question has.
  abbrev pub call_of : (t : Tool) → Matches t → Tool × Value
  call_of t m = (t, obj (field m.argument (text m.identifier) end))

  -- The one tool that an identifier in the question names, with this identifier.
  pub record Triggered (d : Decision) : Type 0 where
    pub tool : Tool
    pub matches : Matches tool
    pub named : d.tool ≡ some (tool_name tool)
    pub looked_up : d.arguments ≡ (call_of tool matches).1
    pub alone : (t : Tool) → Matches t → t ≡ tool

  -- What `triggered_skill` collects is the calls that match, and all of them.
  abbrev IsCall : Tool × Value → Type 0
  IsCall f = (m : Matches f.0) × (f.1 ≡ (call_of f.0 m).1)

  found_by-IsCall :
      (t : Tool) (trigger : Option (String × String))
      → (spec_of t).trigger ≡ trigger
      → All IsCall (found_by reading question t trigger)
  unfolding found_by
  found_by-IsCall t none e = tt
  found_by-IsCall t (some (format, argument)) e = elim (Bool-cases (spec_of t).sensitive) [
    | inl yes_ ↦ rw yes_ tt
    | inr harmless ↦ elim (Bool-cases (reads (effect t))) [
      | inr no_ ↦ rw (harmless, no_) tt
      | inl only ↦ rw (harmless, only) (one (reading.trigger format question) refl only harmless)
    ]
  ]
    where
      one :
          (r : Option String)
          → reading.trigger format question ≡ r
          → reads (effect t) ≡ true
          → (spec_of t).sensitive ≡ false
          → All IsCall (Intent.matched reading t argument r)
      one none occurs only harmless = unfold Intent.matched in tt
      one (some s) occurs only harmless =
          unfold Intent.matched in
          (
            (
              record {
                format = format;
                argument = argument;
                identifier = s;
                has_trigger = e;
                occurs = occurs;
                only_reads = only;
                harmless = harmless;
              },
              refl,
            ),
            tt,
          )

  found_in-IsCall : (ts : List Tool) → All IsCall (found_in reading question ts)
  unfolding found_in
  found_in-IsCall [] = tt
  found_in-IsCall (t ∷ ts) =
      All-append IsCall _ _ (found_by-IsCall t (spec_of t).trigger refl) (found_in-IsCall ts)

  module _ (P : Tool × Value → Type 0) where
    found_by-holds :
        (t : Tool) (m : Matches t)
        → All P (found_by reading question t (spec_of t).trigger)
        → P (call_of t m)
    unfolding found_by Intent.matched
    found_by-holds t m h = (rw (m.has_trigger, m.harmless, m.only_reads, m.occurs) at h).0

    found_in-holds :
        (ts : List Tool)
        → All P (found_in reading question ts)
        → All (λ t. (m : Matches t) → P (call_of t m)) ts
    unfolding found_in
    found_in-holds [] h = tt
    found_in-holds (t ∷ ts) h =
        let (here, later) = All-split P (found_by reading question t (spec_of t).trigger) _ h in
        (λ m. found_by-holds t m here, found_in-holds ts later)

  each : (P : Tool → Type 0) → All P tools → (t : Tool) → P t
  each P h Tool.search_internal_docs = h.0
  each P h Tool.get_server_status = h.1.0
  each P h Tool.create_support_ticket = h.1.1.0
  each P h Tool.get_support_ticket = h.1.1.1.0
  each P h Tool.create_vpn_profile = h.1.1.1.1.0

  one_found-alone :
      (founds : List (Tool × Value)) (f : Tool × Value)
      → one_found reading founds ≡ some f
      → founds ≡ f ∷ []
  unfolding one_found
  one_found-alone [] f e = cc
  one_found-alone (g ∷ []) f e = let same : g ≡ f = ground arith in ap (λ x. x ∷ []) same
  one_found-alone (g ∷ g' ∷ gs) f e = cc

  pub triggered_skill-Triggered :
      (f : Tool × Value)
      → triggered_skill reading question ≡ some f
      → Triggered
          (record { route = Route.Route.tool; tool = some (tool_name f.0); arguments = f.1 })
  unfolding triggered_skill
  triggered_skill-Triggered f e =
      let only : found_in reading question tools ≡ f ∷ [] = one_found-alone _ f e in
      let (m, value) = (subst (All IsCall) only (found_in-IsCall tools)).0 in
      record {
        tool = f.0;
        matches = m;
        named = refl;
        looked_up = value;
        alone = λ t m'.
            each (λ t. (m : Matches t) → t ≡ f.0)
              (found_in-holds (λ g. g.0 ≡ f.0) tools
                (subst (All (λ (g : Tool × Value). g.0 ≡ f.0)) (sym only) (refl, tt)))
              t m';
      }
