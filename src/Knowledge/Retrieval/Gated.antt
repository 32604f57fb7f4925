-- ===== src/Knowledge/Retrieval/Gated.antt =====
-- The relevance gate of src/opsassist/knowledge/retrieval.py.
use novax_ai_assignment.Base.{
  ℕ, max, ◌+◌, ◌≤◌, ◌≡◌, refl, Bool, true, not, ◌&&◌, Option, none, some, List, [], ◌∷◌, length,
  take, All, All-imp, All-both, All-take, arith, ◌≢◌, ◌⊎◌, length-take-le, take-cases, inl, inr,
  Bool-cases,
}
use novax_ai_assignment.Knowledge.Retrieval.{
  Table, RetrievedChunk, Candidate, RetrievalSettings, RetrievalResult, to_chunk, larger, best_of,
  or_zero_similarity, passes, nearly, kept_of, kept, missed, distinct_sections, limit_of, no_misses,
  threshold_of, gate,
}
use novax_ai_assignment.Knowledge.Retrieval.Sections.{
  IsSorted, Distinct, covers, distinct_sections-All, distinct_sections-IsSorted,
  distinct_sections-Distinct, distinct_sections-covers, IsSorted-take, Distinct-take, no_misses-All,
}

-- No candidate has a similarity above a bound.
abbrev pub Bounded : ℕ → List Candidate → Type 0
Bounded bound fused = All (λ (d : Candidate). (t : ℕ) → d.similarity ≡ some t → t ≤ bound) fused

-- A similarity of at least the threshold, and within the margin of every candidate's.
abbrev pub Admitted : ℕ → ℕ → List Candidate → Option ℕ → Type 0
Admitted threshold margin fused o =
    (s : ℕ) × (o ≡ some s) × (threshold ≤ s) × Bounded (s + margin) fused

abbrev AtMost : ℕ → Option ℕ → Type 0
AtMost t o = (b : ℕ) × (o ≡ some b) × (t ≤ b)

AtMost-larger_left : (t : ℕ) (b : Option ℕ) → AtMost t (larger (some t) b)
AtMost-larger_left t none = (t, refl, omega arith)
AtMost-larger_left t (some b) = (max t b, refl, omega arith)

AtMost-larger_right : (t : ℕ) (a b : Option ℕ) → AtMost t b → AtMost t (larger a b)
AtMost-larger_right t none b h = h
AtMost-larger_right t (some a) none (m, e, le) = cc
AtMost-larger_right t (some a) (some b) (m, e, le) = (max a b, refl, ground arith)

-- No similarity is above the best.
best_of-AtMost :
    (fused : List Candidate)
    → All (λ (d : Candidate). (t : ℕ) → d.similarity ≡ some t → AtMost t (best_of fused)) fused
unfolding best_of
best_of-AtMost [] = tt
best_of-AtMost (c ∷ cs) = (
  λ t e. rw e (AtMost-larger_left t (best_of cs)),
  All-imp (λ (d : Candidate). (t : ℕ) → d.similarity ≡ some t → AtMost t (best_of cs)) _
      (λ d h t e. AtMost-larger_right t c.similarity (best_of cs) (h t e)) cs (best_of-AtMost cs),
)

larger-le :
    (bound : ℕ) (a b : Option ℕ)
    → ((t : ℕ) → a ≡ some t → t ≤ bound)
    → ((t : ℕ) → b ≡ some t → t ≤ bound)
    → (t : ℕ) → larger a b ≡ some t
    → t ≤ bound
larger-le bound none b ha hb t e = hb t e
larger-le bound (some a) none ha hb t e = ha t e
larger-le bound (some a) (some b) ha hb t e = ground (arith, ha a refl, hb b refl)

-- The best is one of the similarities.
best_of-le :
    (bound : ℕ) (fused : List Candidate)
    → Bounded bound fused
    → (b : ℕ) → best_of fused ≡ some b
    → b ≤ bound
unfolding best_of
best_of-le bound [] h b e = cc
best_of-le bound (c ∷ cs) h b e =
    larger-le bound c.similarity (best_of cs) h.0 (best_of-le bound cs h.1) b e

module _ (P : RetrievedChunk → Type 0) (keeps : Candidate → Bool) where
  kept_of-All :
      (cs : List Candidate)
      → ((c : Candidate) → keeps c ≡ true → P (to_chunk c))
      → All P (kept_of keeps cs)
  unfolding kept_of
  kept_of-All [] h = tt
  kept_of-All (c ∷ cs) h = elim (Bool-cases (keeps c)) [
    | inl on ↦ rw on (h c on, kept_of-All cs h)
    | inr off ↦ rw off (kept_of-All cs h)
  ]

  All-kept_of :
      (cs : List Candidate)
      → All P (kept_of keeps cs)
      → All (λ c. keeps c ≡ true → P (to_chunk c)) cs
  unfolding kept_of
  All-kept_of [] h = tt
  All-kept_of (c ∷ cs) h = elim (Bool-cases (keeps c)) [
    | inl on ↦
        let (hc, rest) : P (to_chunk c) × All P (kept_of keeps cs) = rw on at h in
        ((λ e. hc), All-kept_of cs rest)
    | inr off ↦ ((λ on. cc (on, off)), All-kept_of cs (rw off at h))
  ]

and-right : (a b : Bool) → not a && b ≡ true → b ≡ true
and-right a b h = ground arith

-- What the gate makes of the candidates.
pub record IsGated (settings : RetrievalSettings) (min_relevance top_k : Option ℕ)
    (fused : List Candidate) (r : RetrievalResult) : Type 0 where
  pub admitted :
      All
        (λ (x : RetrievedChunk).
          Admitted
            (threshold_of min_relevance)
            settings.retrieval_relative_margin
            fused
            x.similarity)
        r.chunks
  pub sorted : IsSorted r.chunks
  pub distinct : Distinct r.chunks
  pub few : length r.chunks ≤ limit_of top_k settings.retrieval_top_k
  pub complete :
      (length r.chunks ≡ limit_of top_k settings.retrieval_top_k)
      ⊎ All
          (λ (c : Candidate).
            Admitted
              (threshold_of min_relevance)
              settings.retrieval_relative_margin
              fused
              c.similarity
            → covers r.chunks (to_chunk c) ≡ true)
          fused
  pub near :
      All
        (λ (x : RetrievedChunk).
          (settings.gate_review_margin ≢ 0)
          × (threshold_of min_relevance
              ≤ or_zero_similarity x.similarity + settings.gate_review_margin))
        r.near_misses
  pub few_near : length r.near_misses ≤ settings.gate_review_max
  pub exclusive :
      (r.near_misses ≡ [])
      ⊎ All
          (λ (c : Candidate).
            ¬ Admitted
              (threshold_of min_relevance)
              settings.retrieval_relative_margin
              fused
              c.similarity)
          fused

module _ (settings : RetrievalSettings) (min_relevance : Option ℕ) (fused : List Candidate) where
  abbrev threshold : ℕ
  threshold = threshold_of min_relevance

  abbrev margin : ℕ
  margin = settings.retrieval_relative_margin

  abbrev test : Option ℕ → Bool
  test o = passes settings threshold (or_zero_similarity (best_of fused)) o

  -- The code's test and its meaning.
  passes-Admitted : (o : Option ℕ) → test o ≡ true → Admitted threshold margin fused o
  unfolding passes
  passes-Admitted none h = cc
  passes-Admitted (some s) h = (
    s,
    refl,
    ground arith,
    All-imp (λ (d : Candidate). (t : ℕ) → d.similarity ≡ some t → AtMost t (best_of fused)) _
        (λ d below t e. let (b, is, le) = below t e in within b t is le) fused
        (best_of-AtMost fused),
  )
    where
      within : (b t : ℕ) → best_of fused ≡ some b → t ≤ b → t ≤ s + margin
      within b t is le = ground arith

  Admitted-passes :
      (c : Candidate)
      → ((t : ℕ) → c.similarity ≡ some t → AtMost t (best_of fused))
      → Admitted threshold margin fused c.similarity
      → test c.similarity ≡ true
  unfolding passes
  Admitted-passes c below (s, e, le, bounded) =
      let (b, is, le') = below s e in
      let top = best_of-le (s + margin) fused bounded b is in rw (e, is) (ground arith)

  nearly-parts :
      (o : Option ℕ)
      → nearly settings threshold o ≡ true
      → (settings.gate_review_margin ≢ 0)
        × (threshold ≤ or_zero_similarity o + settings.gate_review_margin)
  unfolding nearly
  nearly-parts o h = ((λ z. ground arith), ground arith)

  module _ (top_k : Option ℕ) (tables : List Table) where
    abbrev result : RetrievalResult
    result = gate settings min_relevance top_k tables fused

    abbrev limit : ℕ
    limit = limit_of top_k settings.retrieval_top_k

    abbrev sections : List RetrievedChunk
    sections = distinct_sections (kept settings min_relevance fused)

    abbrev near : List RetrievedChunk
    near = distinct_sections (missed settings min_relevance fused)

    admitted : All (λ (x : RetrievedChunk). Admitted threshold margin fused x.similarity) sections
    unfolding kept to_chunk
    admitted = distinct_sections-All _ _ (
        kept_of-All _ (λ (c : Candidate). test c.similarity) fused
          (λ c on. passes-Admitted c.similarity on))

    near_enough :
        All
          (λ (x : RetrievedChunk).
            (settings.gate_review_margin ≢ 0)
            × (threshold ≤ or_zero_similarity x.similarity + settings.gate_review_margin))
          near
    unfolding missed to_chunk
    near_enough = distinct_sections-All _ _ (
        kept_of-All _
          (λ (c : Candidate). not (test c.similarity) && nearly settings threshold c.similarity)
          fused (λ c on. is_near c on))
      where
        is_near :
            (c : Candidate)
            → not (test c.similarity) && nearly settings threshold c.similarity ≡ true
            → (settings.gate_review_margin ≢ 0)
              × (threshold ≤ or_zero_similarity c.similarity + settings.gate_review_margin)
        is_near c on =
            nearly-parts c.similarity
              (and-right (test c.similarity) (nearly settings threshold c.similarity) on)

    covered :
        All
          (λ (c : Candidate).
            Admitted threshold margin fused c.similarity → covers sections (to_chunk c) ≡ true)
          fused
    unfolding kept
    covered =
        All-imp _ _ (λ c h a. h.0 (Admitted-passes c h.1 a)) fused
          (All-both
            (λ (c : Candidate). test c.similarity ≡ true → covers sections (to_chunk c) ≡ true) _
            fused
            (All-kept_of (λ x. covers sections x ≡ true) (λ (c : Candidate). test c.similarity)
              fused (distinct_sections-covers (kept settings min_relevance fused)))
            (best_of-AtMost fused))

    complete_result :
        (length (take limit sections) ≡ limit)
        ⊎ All
            (λ (c : Candidate).
              Admitted threshold margin fused c.similarity
              → covers (take limit sections) (to_chunk c) ≡ true)
            fused
    complete_result = elim (take-cases limit sections) [
      | inl whole ↦ inr (rw whole covered)
      | inr full ↦ inl full
    ]

    few_misses :
        (l : List RetrievedChunk)
        → length (no_misses l (take settings.gate_review_max near)) ≤ settings.gate_review_max
    few_misses [] = length-take-le settings.gate_review_max near
    few_misses (x ∷ l) = omega arith

    nothing_admitted :
        (l : List RetrievedChunk)
        → l ≡ sections
        → (no_misses l (take settings.gate_review_max near) ≡ [])
          ⊎ All (λ (c : Candidate). ¬ Admitted threshold margin fused c.similarity) fused
    nothing_admitted [] e = inr (
        All-imp
          (λ (c : Candidate).
            Admitted threshold margin fused c.similarity → covers sections (to_chunk c) ≡ true)
          _ (λ c h a. cc (e, h a)) fused covered)
    nothing_admitted (x ∷ l) e = inl refl

    -- Of the candidates, the gate hands to the model at most the asked number of sections, each once and
    -- the best score first; each has a similarity of at least the model's threshold that no
    -- candidate's exceeds by more than the margin; and, unless the result is full, every candidate like
    -- that is there, or a chunk of its section that scores as well. Near misses are offered only where
    -- there is no such candidate: at most `gate_review_max`, each at most the review's margin
    -- below the threshold, and none where that margin is 0.
    pub gate-IsGated :
        IsGated settings min_relevance top_k fused (gate settings min_relevance top_k tables fused)
    unfolding gate
    gate-IsGated = record {
      admitted = All-take _ limit sections admitted;
      sorted =
          IsSorted-take limit sections
            (distinct_sections-IsSorted (kept settings min_relevance fused));
      distinct =
          Distinct-take limit sections
            (distinct_sections-Distinct (kept settings min_relevance fused));
      few = length-take-le limit sections;
      complete = complete_result;
      near = no_misses-All _ sections _ (All-take _ settings.gate_review_max near near_enough);
      few_near = few_misses sections;
      exclusive = nothing_admitted sections refl;
    }
