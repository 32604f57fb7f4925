-- ===== src/Agent/Route/Laws.antt =====
-- When the router of src/opsassist/agent/graph.py sends a question to a tool.
use novax_ai_assignment.Base.{
  String, ◌≡◌, refl, sym, ap, ◌∙◌, subst, ◌⊎◌, inl, inr, Bool, true, false, not, ◌&&◌, Option, none,
  some, List, [], ◌∷◌, any, contains, Bool-cases, Option-cases, if◌then◌else◌,
}
use novax_ai_assignment.Policy.Redact.{Value, Fields, obj, text}
use novax_ai_assignment.Tools.Registry.{Tool, tool_of, spec_of, effect, reads}
use novax_ai_assignment.Agent.Intent
use novax_ai_assignment.Agent.Intent.{
  Reading, tools, asks_for, asks_about_rules, asks_for_unsupported_action, asks_for_record,
  reads_with_invalid_arguments, misreads, triggered_skill, found_by, found_in, one_found,
}
use novax_ai_assignment.Agent.Route
use novax_ai_assignment.Agent.Route.{
  Decision, same_route, without_tool, chosen_reads, read_decision, parse_decision, guard_record,
  guard_rules, guard_action, guard_arguments, guards, by_model, by_trigger, classify,
}
use novax_ai_assignment.Agent.Route.Triggers.{Triggered, triggered_skill-Triggered}

module _ (reading : Reading) (question : String) where
  -- A tool of the registry that the model chose and the checks let through, where no identifier in the
  -- question decides.
  pub record Chosen (reply : Option String) (d : Decision) : Type 0 where
    pub content : String
    pub name : String
    pub tool : Tool
    pub said : reply ≡ some content
    pub as_said : d ≡ parse_decision reading content
    pub named : d.tool ≡ some name
    pub known : tool_of name ≡ some tool
    pub asked_for :
        ((spec_of tool).names_record ≡ [])
        ⊎ (any (contains (reading.words question)) (spec_of tool).names_record ≡ true)
    pub supported : (reads (effect tool) && asks_for_unsupported_action reading question) ≡ false
    pub accepted : (reads (effect tool) && not (reading.accepts tool d.arguments)) ≡ false

  keep_if :
      (test : Bool) (r : Route.Route) (d : Decision)
      → same_route r Route.Route.tool ≡ false
      → (if test then without_tool r else d).route ≡ Route.Route.tool
      → test ≡ false
  keep_if true r d other h = let eq : same_route r Route.Route.tool ≡ true = rw h in cc
  keep_if false r d other h = refl

  and_false : (a b : Bool) → (a && b) ≡ false → a ≡ true → b ≡ false
  and_false true b h t = h
  and_false false b h t = cc

  is_tool : (d : Decision) → d.route ≡ Route.Route.tool → same_route d.route Route.Route.tool ≡ true
  is_tool d h = ap (λ r. same_route r Route.Route.tool) h

  kept_record :
      (d : Decision)
      → (guard_record reading question d).route ≡ Route.Route.tool
      → (guard_record reading question d ≡ d) × (Route.not_asked reading d.tool question ≡ false)
  unfolding guard_record
  kept_record d h =
      let off = keep_if _ Route.Route.knowledge d refl h in
      let same : guard_record reading question d ≡ d = rw off in
      (same, and_false _ _ off (is_tool d (ap (λ (x : Decision). x.route) (sym same) ∙ h)))

  kept_rules :
      (d : Decision)
      → (guard_rules reading question d).route ≡ Route.Route.tool
      → guard_rules reading question d ≡ d
  unfolding guard_rules
  kept_rules d h = let off = keep_if _ Route.Route.knowledge d refl h in rw off

  kept_action :
      (d : Decision)
      → (guard_action reading question d).route ≡ Route.Route.tool
      → (guard_action reading question d ≡ d)
        × ((chosen_reads d.tool && asks_for_unsupported_action reading question) ≡ false)
  unfolding guard_action
  kept_action d h =
      let off = keep_if _ Route.Route.refuse d refl h in
      let same : guard_action reading question d ≡ d = rw off in
      (same, and_false _ _ off (is_tool d (ap (λ (x : Decision). x.route) (sym same) ∙ h)))

  kept_arguments :
      (d : Decision)
      → (guard_arguments reading d).route ≡ Route.Route.tool
      → (guard_arguments reading d ≡ d) × (Route.misread reading d.tool d.arguments ≡ false)
  unfolding guard_arguments
  kept_arguments d h =
      let off = keep_if _ Route.Route.knowledge d refl h in
      let same : guard_arguments reading d ≡ d = rw off in
      (same, and_false _ _ off (is_tool d (ap (λ (x : Decision). x.route) (sym same) ∙ h)))

  record Passed (d : Decision) : Type 0 where
    same : guards reading question d ≡ d
    asked : Route.not_asked reading d.tool question ≡ false
    able : (chosen_reads d.tool && asks_for_unsupported_action reading question) ≡ false
    read : Route.misread reading d.tool d.arguments ≡ false

  guards-Passed : (d : Decision) → (guards reading question d).route ≡ Route.Route.tool → Passed d
  unfolding guards
  guards-Passed d h =
      let x1 = guard_record reading question d in
      let x2 = guard_rules reading question x1 in
      let x3 = guard_action reading question x2 in
      let (e4, t4) = kept_arguments x3 h in
      let h3 : x3.route ≡ Route.Route.tool = ap (λ (x : Decision). x.route) (sym e4) ∙ h in
      let (e3, t3) = kept_action x2 h3 in
      let h2 : x2.route ≡ Route.Route.tool = ap (λ (x : Decision). x.route) (sym e3) ∙ h3 in
      let e2 = kept_rules x1 h2 in
      let (e1, t1) = kept_record d (ap (λ (x : Decision). x.route) (sym e2) ∙ h2) in
      let to_d : x3 ≡ d = e3 ∙ e2 ∙ e1 in
      record {
        same = e4 ∙ to_d;
        asked = t1;
        able =
            subst
              (λ (x : Decision).
                (chosen_reads x.tool && asks_for_unsupported_action reading question) ≡ false)
              (e2 ∙ e1) t3;
        read = subst (λ (x : Decision). Route.misread reading x.tool x.arguments ≡ false) to_d t4;
      }

  known_name-known :
      (v : Option Value) (name : String)
      → Route.known_name v ≡ some name
      → (t : Tool) × (tool_of name ≡ some t)
  unfolding Route.known_name
  known_name-known (some (text s)) name h = elim (Option-cases (tool_of s)) [
    | inl unknown ↦ cc (rw unknown at h)
    | inr (t, known) ↦
        let same : some s ≡ some name = rw known at h in
        (t, ap (λ (o : Option String). lookup o) (sym same) ∙ known)
  ]
    where
      lookup : Option String → Option Tool
      lookup none = none
      lookup (some s) = tool_of s
  known_name-known _ name h = cc

  with_known-known :
      (fields : Fields) (r : Option String)
      → (Route.with_known fields r).route ≡ Route.Route.tool
      → (name : String) × ((Route.with_known fields r).tool ≡ some name) × (r ≡ some name)
  unfolding Route.with_known
  with_known-known fields none h = cc
  with_known-known fields (some name) h = (name, refl, refl)

  -- a decision for a tool that was read from the model's answer names one of the registry
  read_decision-known :
      (v : Option Value)
      → (read_decision v).route ≡ Route.Route.tool
      → (name : String) × ((t : Tool) × ((read_decision v).tool ≡ some name)
          × (tool_of name ≡ some t))
  unfolding read_decision
  read_decision-known (some (obj fields)) h =
      elim (Bool-cases (Route.is_text "refuse" (Route.get_field "route" fields))) [
        | inl refused ↦ cc (rw refused at h)
        | inr t1 ↦ elim (Bool-cases (Route.is_text "tool" (Route.get_field "route" fields))) [
          | inr other ↦ cc (rw (t1, other) at h)
          | inl t2 ↦
              let (name, named, of_) = with_known-known fields _ (rw (t1, t2) at h) in
              let (t, known) = known_name-known _ name of_ in rw (t1, t2) (name, (t, named, known))
        ]
      ]
  read_decision-known _ h = cc

  not-false : (b : Bool) → not b ≡ false → b ≡ true
  not-false true h = refl
  not-false false h = cc

  asks_for-cases :
      (t : Tool)
      → asks_for reading (some t) question ≡ true
      → ((spec_of t).names_record ≡ [])
        ⊎ (any (contains (reading.words question)) (spec_of t).names_record ≡ true)
  unfolding asks_for
  asks_for-cases t h = by_names (spec_of t).names_record h
    where
      by_names :
          (names : List String)
          → Intent.record_asked reading names (reading.words question) ≡ true
          → (names ≡ []) ⊎ (any (contains (reading.words question)) names ≡ true)
      by_names [] h = inl refl
      by_names (n ∷ names) h = inr (unfold Intent.record_asked in h)

  Passed-Chosen :
      (content name : String) (t : Tool)
      → Passed (parse_decision reading content)
      → (parse_decision reading content).tool ≡ some name
      → tool_of name ≡ some t
      → Chosen (some content) (parse_decision reading content)
  unfolding Route.not_asked Route.misread chosen_reads Route.reads_only asks_for_record
      reads_with_invalid_arguments misreads
  Passed-Chosen content name t passed named known =
      let d = parse_decision reading content in
      let asked : Route.not_asked reading (some name) question ≡ false =
        subst (λ o. Route.not_asked reading o question ≡ false) named passed.asked in
      let able : (chosen_reads (some name) && asks_for_unsupported_action reading question)
          ≡ false =
        subst (λ o. (chosen_reads o && asks_for_unsupported_action reading question) ≡ false) named
          passed.able in
      let read : Route.misread reading (some name) d.arguments ≡ false =
        subst (λ o. Route.misread reading o d.arguments ≡ false) named passed.read in
      record {
        content = content;
        name = name;
        tool = t;
        said = refl;
        as_said = refl;
        named = named;
        known = known;
        asked_for = asks_for-cases t (not-false _ (rw known at asked));
        supported = rw known at able;
        accepted = rw known at read;
      }

  parse_decision-known :
      (content : String)
      → (parse_decision reading content).route ≡ Route.Route.tool
      → (name : String) × ((t : Tool) × ((parse_decision reading content).tool ≡ some name)
          × (tool_of name ≡ some t))
  unfolding parse_decision
  parse_decision-known content h = read_decision-known (reading.first_object content) h

  model-Chosen :
      (reply : Option String)
      → (by_model reading question reply).route ≡ Route.Route.tool
      → Chosen reply (by_model reading question reply)
  unfolding by_model
  model-Chosen none h = cc
  model-Chosen (some content) h =
      let passed = guards-Passed (parse_decision reading content) h in
      let (name, (t, named, known)) =
        parse_decision-known content (ap (λ (x : Decision). x.route) (sym passed.same) ∙ h) in
      subst (Chosen (some content)) (sym passed.same)
        (Passed-Chosen content name t passed named known)

  by_trigger-IsAsked :
      (reply : Option String) (r : Option (Tool × Value))
      → triggered_skill reading question ≡ r
      → (by_trigger reading question reply r).route ≡ Route.Route.tool
      → Triggered reading question (by_trigger reading question reply r)
        ⊎ ((r ≡ none) × Chosen reply (by_trigger reading question reply r))
  unfolding by_trigger
  by_trigger-IsAsked reply none e h = inr (refl, model-Chosen reply h)
  by_trigger-IsAsked reply (some (t, v)) e h =
      inl (triggered_skill-Triggered reading question (t, v) e)

  -- A question goes to a tool only if it is no small talk, and in two ways. Either it has the identifier
  -- of exactly one tool that only reads and is not sensitive, and this tool is called with that
  -- identifier; or no tool is found so, and the decision is what the model's answer says, which names a
  -- tool of the registry and passed the checks: a tool that has record words has one of them in the
  -- question, and a tool that reads does not stand in for an action that no tool performs and has valid
  -- arguments.
  pub classify-IsAsked :
      (reply : Option String)
      → (classify reading question reply).route ≡ Route.Route.tool
      → (reading.greets question ≡ false)
        × (Triggered reading question (classify reading question reply)
            ⊎ ((triggered_skill reading question ≡ none)
                × Chosen reply (classify reading question reply)))
  unfolding classify
  classify-IsAsked reply h = elim (Bool-cases (reading.greets question)) [
    | inl greets ↦ cc (rw greets at h)
    | inr no_ ↦ (
      no_,
      rw no_ (by_trigger-IsAsked reply (triggered_skill reading question) refl (rw no_ at h)),
    )
  ]
