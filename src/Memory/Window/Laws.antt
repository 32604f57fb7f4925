-- ===== src/Memory/Window/Laws.antt =====
-- What a conversation's memory holds, by src/opsassist/memory.py.
use novax_ai_assignment.Base.{
  ℕ, zero, suc, ◌+◌, ◌≤◌, ◌<◌, ◌≡◌, refl, sym, ap, subst, ◌∙◌, inl, inr, false, List, [], ◌∷◌, ◌++◌,
  map, arith, ltb, leb, take, keep, max, Bool-cases,
}
use novax_ai_assignment.Gateway.Calls.{ChatMessage}
use novax_ai_assignment.Memory.Window.{
  Message, Conversation, reverse, replayed, cost, as_message, fill, load_conversation_memory,
}

abbrev pub total_cost : List Message → ℕ
total_cost [] = 0
total_cost (m ∷ ms) = cost m + total_cost ms

-- The next row would not fit, or there is none.
abbrev pub Stops : ℕ → ℕ → List Message → Type 0
Stops budget used [] = Unit
Stops budget used (m ∷ ms) = budget < used + cost m

-- The newest messages of some rows, as many as fit the budget, and no more than can be: the next one
-- would not fit, or there is none.
pub record Newest (budget used : ℕ) (rows : List Message) (window : List ChatMessage) : Type 0 where
  pub taken : List Message
  pub rest : List Message
  pub split : rows ≡ taken ++ rest
  pub shown : window ≡ map as_message taken
  pub within : used + total_cost taken ≤ max used budget
  pub most : Stops budget (used + total_cost taken) rest

fill-Newest :
    (budget used : ℕ) (rows : List Message) → Newest budget used rows (fill budget used rows)
unfolding fill
fill-Newest budget used [] = record {
  taken = [];
  rest = [];
  split = refl;
  shown = refl;
  within = omega arith;
  most = tt;
}
fill-Newest budget used (m ∷ rows) = elim (Bool-cases (ltb budget (used + cost m))) [
  | inl over ↦ rw over (record {
    taken = [];
    rest = m ∷ rows;
    split = refl;
    shown = refl;
    within = omega arith;
    most = ground arith;
  })
  | inr room ↦
      let n = fill-Newest budget (used + cost m) rows in
      rw room (record {
        taken = m ∷ n.taken;
        rest = n.rest;
        split = ap (λ t. m ∷ t) n.split;
        shown = ap (λ t. as_message m ∷ t) n.shown;
        within = let w = n.within in ground arith;
        most = subst (λ k. Stops budget k n.rest) (omega arith) n.most;
      })
]

reverse-append {ℓ} : {A : Type ℓ} (xs : List A) (x : A) → reverse (xs ++ (x ∷ [])) ≡ x ∷ reverse xs
reverse-append [] x = refl
reverse-append (y ∷ xs) x = ap (λ t. t ++ (y ∷ [])) (reverse-append xs x)

reverse-reverse {ℓ} : {A : Type ℓ} (xs : List A) → reverse (reverse xs) ≡ xs
reverse-reverse [] = refl
reverse-reverse (x ∷ xs) = reverse-append (reverse xs) x ∙ ap (λ t. x ∷ t) (reverse-reverse xs)

-- The window of a conversation, read from its newest message back, is the newest of the complete
-- messages that no summary stands for, at most `max_messages` of them, as many as fit the budget of
-- tokens and no fewer, where the budget is not zero.
pub load_conversation_memory-Newest :
    (c : Conversation) (rows : List Message) (max_messages token_budget : ℕ)
    → 1 ≤ token_budget
    → Newest token_budget 0
        (take max_messages (reverse (keep (replayed c) rows)))
        (reverse (load_conversation_memory c rows max_messages token_budget).window)
unfolding load_conversation_memory
load_conversation_memory-Newest c rows zero token_budget h = record {
  taken = [];
  rest = [];
  split = refl;
  shown = refl;
  within = omega arith;
  most = tt;
}
load_conversation_memory-Newest c rows (suc n) token_budget h =
    let one : leb (suc n) 0 ≡ false = ground arith in
    let two : leb token_budget 0 ≡ false = ground arith in
    let found = take (suc n) (reverse (keep (replayed c) rows)) in
    rw (one, two)
      (subst (Newest token_budget 0 found) (sym (reverse-reverse (fill token_budget 0 found)))
        (fill-Newest token_budget 0 found))
