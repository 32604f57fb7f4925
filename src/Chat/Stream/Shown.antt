-- ===== src/Chat/Stream/Shown.antt =====
-- What the events of `chat_stream`, src/opsassist/api/chat.py, show a client, and how a predicate of the
-- generator's states passes through its steps.
use novax_ai_assignment.Base.{
  ℕ, zero, suc, String, ◌≡◌, refl, ap, Option, none, some, List, [], ◌∷◌, ◌++◌, All,
}
use novax_ai_assignment.Gateway.Stream.{concat_texts}
use novax_ai_assignment.Conversations.{MessageStatus, ChatDb}
use novax_ai_assignment.Chat.{ChatRequest}
use novax_ai_assignment.Chat.Written.{Replied}
use novax_ai_assignment.Chat.Stream.{
  Sse, meta, model, delta, done, error, Going, Flow, next, halt, then_do, hand_out, emit,
}

-- The texts of the deltas, in their order.
abbrev pub deltas_of : List Sse → List String
deltas_of [] = []
deltas_of (delta s ∷ es) = s ∷ deltas_of es
deltas_of (e ∷ es) = deltas_of es

abbrev pub Untold : Sse → Type 0
Untold (done text citations grounded abstained action) = ⊥
Untold _ = Unit

abbrev pub Says : String → Sse → Type 0
Says text (done t citations grounded abstained action) = t ≡ text
Says text _ = Unit

-- A complete message is what the client is told at the end; another one is what it was shown so far.
abbrev pub Shows : MessageStatus → String → List Sse → Type 0
Shows MessageStatus.complete text sent = All (Says text) sent
Shows _ text sent = (text ≡ concat_texts (deltas_of sent)) × All Untold sent

-- Exactly one message of the assistant, behind the user's.
pub record Stored (db : ChatDb) (body : ChatRequest) (id : ℕ) (sent : List Sse) (db' : ChatDb)
    : Type 0 where
  pub status : MessageStatus
  pub text : String
  pub replied : Replied db body text status id db'
  pub shows : Shows status text sent

pub deltas-delta :
    (es : List Sse) (s : String) → deltas_of (es ++ (delta s ∷ [])) ≡ deltas_of es ++ (s ∷ [])
deltas-delta [] s = refl
deltas-delta (delta t ∷ es) s = ap (λ l. t ∷ l) (deltas-delta es s)
deltas-delta (meta n ∷ es) s = deltas-delta es s
deltas-delta (model a b c ∷ es) s = deltas-delta es s
deltas-delta (done a b c d e ∷ es) s = deltas-delta es s
deltas-delta (error a b ∷ es) s = deltas-delta es s

pub deltas-silent : (es fs : List Sse) → deltas_of fs ≡ [] → deltas_of (es ++ fs) ≡ deltas_of es
deltas-silent [] fs h = h
deltas-silent (delta t ∷ es) fs h = ap (λ l. t ∷ l) (deltas-silent es fs h)
deltas-silent (meta n ∷ es) fs h = deltas-silent es fs h
deltas-silent (model x y z ∷ es) fs h = deltas-silent es fs h
deltas-silent (done x y z u v ∷ es) fs h = deltas-silent es fs h
deltas-silent (error x y ∷ es) fs h = deltas-silent es fs h

pub Untold-Says : (text : String) (e : Sse) → Untold e → Says text e
Untold-Says text (meta n) h = tt
Untold-Says text (model a b c) h = tt
Untold-Says text (delta s) h = tt
Untold-Says text (error a b) h = tt
Untold-Says text (done a b c d e) h = absurd h

abbrev pub Of : (Going → Type 0) → Flow → Type 0
Of P (next s) = P s
Of P (halt s) = P s

pub emit-Of :
    (P : Going → Type 0) (e : Sse) (s : Going)
    → ((reads : Option ℕ) → P (record s { sent = s.sent ++ (e ∷ []); reads = reads }))
    → Of P (emit e s)
unfolding emit
emit-Of P e s h = by_reads s.reads refl
  where
    by_reads : (r : Option ℕ) → s.reads ≡ r → Of P (hand_out e s r)
    by_reads none same = h s.reads
    by_reads (some zero) same = h s.reads
    by_reads (some (suc n)) same = h (some n)

pub then_do-Of :
    (P Q : Going → Type 0) (f : Flow) (k : Going → Flow)
    → Of P f
    → ((s : Going) → P s → Q s)
    → ((s : Going) → P s → Of Q (k s))
    → Of Q (then_do f k)
then_do-Of P Q (next s) k h keep go = go s h
then_do-Of P Q (halt s) k h keep go = keep s h
