-- ===== src/Memory/Window/Summarised.antt =====
-- What `update_summary` of src/opsassist/memory.py leaves to be replayed.
use novax_ai_assignment.Base.{
  ℕ, zero, suc, ◌-◌, ◌≤◌, ◌<◌, String, ◌≡◌, refl, sym, ap, subst, ◌∙◌, inl, inr, Bool, true, false,
  ◌&&◌, Option, none, some, List, [], ◌∷◌, ◌++◌, arith, ltb, leb, length, take, drop, keep, All,
  Bool-cases,
}
use novax_ai_assignment.Gateway.Calls.{ChatMessage}
use novax_ai_assignment.Memory.Window
use novax_ai_assignment.Memory.Window.{
  Message, Conversation, summary_trigger_messages, unsummarised, last_seq, summarise, fold,
  update_summary,
}

abbrev pub Ascending : List Message → Type 0
Ascending [] = Unit
Ascending (m ∷ ms) = All (λ (n : Message). m.seq < n.seq) ms × Ascending ms

keep-yes :
    (p : Message → Bool) (m : Message) (ms : List Message)
    → p m ≡ true
    → keep p (m ∷ ms) ≡ m ∷ keep p ms
keep-yes p m ms h =
    subst
      (λ b.
        elim b as (λ x. List Message) [ true ↦ m ∷ keep p ms | false ↦ keep p ms ] ≡ m ∷ keep p ms)
      (sym h) refl

keep-no :
    (p : Message → Bool) (m : Message) (ms : List Message)
    → p m ≡ false
    → keep p (m ∷ ms) ≡ keep p ms
keep-no p m ms h =
    subst
      (λ b. elim b as (λ x. List Message) [ true ↦ m ∷ keep p ms | false ↦ keep p ms ] ≡ keep p ms)
      (sym h) refl

All-keep :
    (P : Message → Type 0) (p : Message → Bool) (ms : List Message) → All P ms → All P (keep p ms)
All-keep P p [] h = tt
All-keep P p (m ∷ ms) h = elim (Bool-cases (p m)) [
  | inl yes_ ↦ subst (All P) (sym (keep-yes p m ms yes_)) (h.0, All-keep P p ms h.1)
  | inr no_ ↦ subst (All P) (sym (keep-no p m ms no_)) (All-keep P p ms h.1)
]

keep-Ascending : (p : Message → Bool) (ms : List Message) → Ascending ms → Ascending (keep p ms)
keep-Ascending p [] h = tt
keep-Ascending p (m ∷ ms) h = elim (Bool-cases (p m)) [
  | inl yes_ ↦
      subst Ascending (sym (keep-yes p m ms yes_))
        (All-keep (λ n. m.seq < n.seq) p ms h.0, keep-Ascending p ms h.1)
  | inr no_ ↦ subst Ascending (sym (keep-no p m ms no_)) (keep-Ascending p ms h.1)
]

All-keep_test : (p : Message → Bool) (ms : List Message) → All (λ m. p m ≡ true) (keep p ms)
All-keep_test p [] = tt
All-keep_test p (m ∷ ms) = elim (Bool-cases (p m)) [
  | inl yes_ ↦ subst (All (λ m. p m ≡ true)) (sym (keep-yes p m ms yes_)) (yes_, All-keep_test p ms)
  | inr no_ ↦ subst (All (λ m. p m ≡ true)) (sym (keep-no p m ms no_)) (All-keep_test p ms)
]

keep-keep :
    (p q r : Message → Bool)
    → ((m : Message) → r m ≡ (p m && q m))
    → (ms : List Message) → keep r ms ≡ keep q (keep p ms)
keep-keep p q r same [] = refl
keep-keep p q r same (m ∷ ms) = elim (Bool-cases (p m)) [
  | inr no_ ↦
      keep-no r m ms (same m ∙ rw no_)
      ∙ keep-keep p q r same ms
      ∙ ap (keep q) (sym (keep-no p m ms no_))
  | inl yes_ ↦
      let opened = ap (keep q) (keep-yes p m ms yes_) in
      elim (Bool-cases (q m)) [
        | inl yes2_ ↦
            keep-yes r m ms (same m ∙ rw (yes_, yes2_))
            ∙ ap (λ t. m ∷ t) (keep-keep p q r same ms)
            ∙ sym (opened ∙ keep-yes q m (keep p ms) yes2_)
        | inr no2_ ↦
            keep-no r m ms (same m ∙ rw (yes_, no2_))
            ∙ keep-keep p q r same ms
            ∙ sym (opened ∙ keep-no q m (keep p ms) no2_)
      ]
]

keep-later :
    (n : ℕ) (ms : List Message)
    → All (λ (m : Message). n < m.seq) ms
    → keep (λ m. ltb n m.seq) ms ≡ ms
keep-later n [] h = refl
keep-later n (m ∷ ms) h =
    let later : ltb n m.seq ≡ true = let lt = h.0 in ground arith in
    keep-yes (λ m. ltb n m.seq) m ms later ∙ ap (λ t. m ∷ t) (keep-later n ms h.1)

last_seq-gt :
    (n : ℕ) (m : Message) (ms rest : List Message)
    → All (λ (x : Message). n < x.seq) (m ∷ ms ++ rest)
    → n < last_seq m ms
last_seq-gt n m [] rest h = h.0
last_seq-gt n m (x ∷ ms) rest h = last_seq-gt n x ms rest h.1

last_seq-ge :
    (m : Message) (ms rest : List Message) → Ascending (m ∷ ms ++ rest) → m.seq ≤ last_seq m ms
last_seq-ge m [] rest h = omega arith
last_seq-ge m (n ∷ ms) rest h = let lt = last_seq-gt m.seq n ms rest h.0 in omega arith

-- Of rows in order, those after the last of a first part are the rest.
keep-rest :
    (m : Message) (ms rest : List Message)
    → Ascending (m ∷ ms ++ rest)
    → keep (λ x. ltb (last_seq m ms) x.seq) (m ∷ ms ++ rest) ≡ rest
keep-rest m [] rest h =
    let not_self : ltb m.seq m.seq ≡ false = ground arith in
    keep-no (λ x. ltb m.seq x.seq) m rest not_self ∙ keep-later m.seq rest h.0
keep-rest m (n ∷ ms) rest h =
    let before = last_seq-gt m.seq n ms rest h.0 in
    let not_self : ltb (last_seq n ms) m.seq ≡ false = ground arith in
    keep-no (λ x. ltb (last_seq n ms) x.seq) m (n ∷ ms ++ rest) not_self ∙ keep-rest n ms rest h.1

take-drop {ℓ} : {A : Type ℓ} (n : ℕ) (xs : List A) → take n xs ++ drop n xs ≡ xs
take-drop zero xs = refl
take-drop (suc n) [] = refl
take-drop (suc n) (x ∷ xs) = ap (λ t. x ∷ t) (take-drop n xs)

length-drop {ℓ} : {A : Type ℓ} (n : ℕ) (xs : List A) → length (drop n xs) ≡ length xs - n
length-drop zero xs = omega arith
length-drop (suc n) [] = omega arith
length-drop (suc n) (x ∷ xs) = omega (arith, length-drop n xs)

length-take {ℓ} : {A : Type ℓ} (n : ℕ) (xs : List A) → n ≤ length xs → length (take n xs) ≡ n
length-take zero xs h = refl
length-take (suc n) [] h = absurd (omega arith)
length-take (suc n) (x ∷ xs) h = omega (arith, length-take n xs (omega arith))

-- The messages up to the last of `m ∷ ms` are the ones that a new summary stands for.
unsummarised-after :
    (c c' : Conversation) (rows : List Message) (m : Message) (ms rest : List Message)
    → Ascending rows
    → unsummarised c rows ≡ m ∷ ms ++ rest
    → c'.summary_upto_seq ≡ some (last_seq m ms)
    → unsummarised c' rows ≡ rest
unfolding unsummarised
unsummarised-after c c' rows m ms rest ordered split upto =
    let p : Message → Bool = λ x. x.complete && ltb (Window.or_zero c.summary_upto_seq) x.seq in
    let q : Message → Bool = λ x. ltb (last_seq m ms) x.seq in
    let r : Message → Bool = λ x. x.complete && ltb (Window.or_zero c'.summary_upto_seq) x.seq in
    let sorted = subst Ascending split (keep-Ascending p rows ordered) in
    let open_ = subst (All (λ x. p x ≡ true)) split (All-keep_test p rows) in
    let later : Window.or_zero c.summary_upto_seq < m.seq = let first = open_.0 in ground arith in
    let at_last : m.seq ≤ last_seq m ms = last_seq-ge m ms rest sorted in
    let same : (x : Message) → r x ≡ (p x && q x) = λ x. rw upto (ground arith) in
    keep-keep p q r same rows ∙ ap (keep q) split ∙ keep-rest m ms rest sorted

summarise-upto :
    (strip : String → String) (chat : List ChatMessage → Option String) (c : Conversation)
    (m : Message) (ms : List Message)
    → ((prompt : List ChatMessage) → (s : String) × (chat prompt ≡ some s))
    → (summarise strip chat c (m ∷ ms)).summary_upto_seq ≡ some (last_seq m ms)
unfolding summarise
summarise-upto strip chat c m ms answers = go (chat _) (answers _)
  where
    go :
        (r : Option String)
        → (s : String) × (r ≡ some s)
        → (fold strip c m ms r).summary_upto_seq ≡ some (last_seq m ms)
    go none h = let eq = h.1 in cc
    go (some s) h = unfold fold in refl

-- Where more than 12 complete messages are not marked as summarised and the model answers, all but
-- the last 12 are marked, and exactly these 12 are left, in rows that are in the order of their
-- numbers.
pub update_summary-keeps :
    (strip : String → String) (chat : List ChatMessage → Option String) (c : Conversation)
    (rows : List Message)
    → Ascending rows
    → 12 < length (unsummarised c rows)
    → ((prompt : List ChatMessage) → (s : String) × (chat prompt ≡ some s))
    → (unsummarised (update_summary strip chat c rows) rows
        ≡ drop (length (unsummarised c rows) - 12) (unsummarised c rows))
      × (length (unsummarised (update_summary strip chat c rows) rows) ≡ 12)
unfolding update_summary
update_summary-keeps strip chat c rows ordered many answers =
    let open_ = unsummarised c rows in
    let n = length open_ - 12 in
    let kept =
      go (take n open_) (drop n open_) (take-drop n open_)
        (let taken = length-take n open_ (omega arith) in omega arith) in
    let few : leb (length open_) summary_trigger_messages ≡ false = ground arith in
    rw few (kept, ap length kept ∙ length-drop n open_ ∙ omega arith)
  where
    go :
        (older rest : List Message)
        → older ++ rest ≡ unsummarised c rows
        → 1 ≤ length older
        → unsummarised (summarise strip chat c older) rows ≡ rest
    go [] rest split h = absurd (omega arith)
    go (m ∷ ms) rest split h =
        unsummarised-after c (summarise strip chat c (m ∷ ms)) rows m ms rest ordered (sym split)
          (summarise-upto strip chat c m ms answers)
