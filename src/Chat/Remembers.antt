-- ===== src/Chat/Remembers.antt =====
-- What a conversation remembers of the documents that it has used, src/opsassist/api/chat.py.
use mathlib.Core.Option.{some_inj}
use text.Mathlib.TextEquality.{eq_iff}
use novax_ai_assignment.Base.{
  ℕ, String, ◌≡◌, refl, ap, sym, ◌∙◌, Bool, true, false, Option, none, some, List, [], ◌∷◌, eqb,
  leb, ltb, arith, if-both, if◌then◌else◌, subst,
}
use novax_ai_assignment.Config.{rank, highest, most_sensitive, allows_egress}
use novax_ai_assignment.Knowledge.Retrieval.{RetrievalResult}
use novax_ai_assignment.Agent.Service.{max_classification}
use novax_ai_assignment.Conversations.{Conversation, ChatDb, get_conversation, put_conversation}
use novax_ai_assignment.Chat.{Prepared, same_class, raise_to, remember_context, egress_allowed}

-- What a classification allows.
abbrev pub Allows : String → Option String → Type 0
Allows limit c = allows_egress limit c ≡ true

most_sensitive-Allows :
    (limit : String) (a b : Option String)
    → Allows limit (most_sensitive a b)
    → Allows limit a × Allows limit b
unfolding most_sensitive allows_egress highest
most_sensitive-Allows limit none none h = (refl, refl)
most_sensitive-Allows limit (some a) none h = (h, refl)
most_sensitive-Allows limit none (some b) h = (refl, h)
most_sensitive-Allows limit (some a) (some b) h = by_order (ltb (rank a) (rank b)) refl h
  where
    by_order :
        (t : Bool)
        → ltb (rank a) (rank b) ≡ t
        → leb (rank (if t then b else a)) (rank limit) ≡ true
        → (leb (rank a) (rank limit) ≡ true) × (leb (rank b) (rank limit) ≡ true)
    by_order true e h = (ground arith, h)
    by_order false e h = (h, ground arith)

same_class-eq : (a b : Option String) → same_class a b ≡ true → a ≡ b
same_class-eq none none h = refl
same_class-eq (some a) (some b) h = ap some ((eq_iff a b).0 h)
same_class-eq none (some b) h = cc (h)
same_class-eq (some a) none h = cc (h)

get_conversation-id :
    (id : ℕ) (cs : List Conversation) (d : Conversation)
    → get_conversation id cs ≡ some d
    → d.id ≡ id
unfolding get_conversation
get_conversation-id id [] d h = cc (h)
get_conversation-id id (x ∷ cs) d h = ground (arith, get_conversation-id id cs d)

get-put :
    (c : Conversation) (id : ℕ) (cs : List Conversation) (d : Conversation)
    → get_conversation id cs ≡ some d
    → c.id ≡ id
    → get_conversation id (put_conversation c cs) ≡ some c
unfolding get_conversation put_conversation
get-put c id [] d h same = cc (h)
get-put c id (x ∷ cs) d h same =
    if-both (λ l. get_conversation id l ≡ some c) (eqb x.id c.id) (λ e. ground arith)
      (λ e. ground (arith, get-put c id cs d))

module _ (limit : String) (prep : Prepared) (db : ChatDb) (c : Conversation)
    (found : get_conversation prep.conversation_id db.conversations ≡ some c)
    (kept : Allows limit c.context_classification → Allows limit prep.context_classification) where
  -- What the conversation's row allows later, it allowed before, and allows for what was used.
  abbrev Later : Option String → ChatDb → Type 0
  Later o db' =
      (c' : Conversation)
      → get_conversation prep.conversation_id db'.conversations ≡ some c'
      → Allows limit c'.context_classification
      → Allows limit o × Allows limit c.context_classification

  unchanged :
      (c' : Conversation)
      → get_conversation prep.conversation_id db.conversations ≡ some c'
      → c' ≡ c
  unchanged c' is = some_inj.0 (sym is ∙ found)

  raised-Later : (o : Option String) → Later o (raise_to o (some c) db)
  unfolding raise_to
  raised-Later o c' is allows =
      let put =
        get-put (record c { context_classification = most_sensitive c.context_classification o })
          prep.conversation_id db.conversations c found
          (get_conversation-id prep.conversation_id db.conversations c found) in
      let both =
        most_sensitive-Allows limit c.context_classification o
          (subst (λ x. Allows limit x.context_classification) (some_inj.0 (sym is ∙ put)) allows) in
      (both.1, both.0)

  remembered-Later : (o : Option String) → Later o (remember_context prep o db)
  unfolding remember_context allows_egress
  remembered-Later none = λ c' is allows.
      (refl, subst (λ x. Allows limit x.context_classification) (unchanged c' is) allows)
  remembered-Later (some current) =
      if-both (Later (some current))
        (same_class (most_sensitive prep.context_classification (some current))
          prep.context_classification)
        (λ e c' is allows.
          let before =
            subst (λ x. Allows limit x.context_classification) (unchanged c' is) allows in
          (
            (most_sensitive-Allows limit prep.context_classification (some current)
                (subst (Allows limit) (sym (same_class-eq _ _ e)) (kept before))).1,
            before,
          ))
        (λ e.
          subst (λ x. Later (some current) (raise_to (some current) x db)) (sym found)
            (raised-Later (some current)))

  -- An answer of a later turn may leave the box only if the conversation's row allowed that before, and
  -- the most sensitive document that an earlier turn used allows it. It is supposed that the row was
  -- there when the earlier turn remembered its context, that what the earlier turn had read of it allows
  -- egress wherever the row does, and that the later turn reads the row as the earlier one left it.
  pub remember_context-Blocks :
      (r : RetrievalResult) (c' : Conversation) (later : Prepared) (r' : RetrievalResult)
      → get_conversation prep.conversation_id
          (remember_context prep (max_classification r.chunks) db).conversations
        ≡ some c'
      → later.context_classification ≡ c'.context_classification
      → egress_allowed limit later r' ≡ true
      → Allows limit (max_classification r.chunks) × Allows limit c.context_classification
  unfolding egress_allowed
  remember_context-Blocks r c' later r' is reads allowed =
      remembered-Later (max_classification r.chunks) c' is (
        subst (Allows limit) reads
          (most_sensitive-Allows limit later.context_classification (max_classification r'.chunks)
            allowed).0)
