-- ===== src/Knowledge/Chunking/Numbers.antt =====
-- The numbers of the chunks that src/opsassist/knowledge/chunking.py makes of a document.
use novax_ai_assignment.Base.{ℕ, ◌+◌, String, ◌≡◌, refl, List, [], ◌∷◌, ◌++◌, length, arith, subst}
use novax_ai_assignment.Knowledge.Chunking.{
  Block, Chunk, ChunkingConfig, TextUnit, tokens_of, body_of, locator_for, pack_units, make_chunk,
  chunks_of, chunk_parents, chunk_document, split_units,
}

-- Chunks whose index counts up from a number, and whose token count is that of the text.
abbrev pub Numbered : ℕ → List Chunk → Type 0
Numbered n [] = Unit
Numbered n (c ∷ cs) = ((c.index ≡ n) × (c.token_count ≡ tokens_of c.text)) × Numbered (n + 1) cs

Numbered-append :
    (n : ℕ) (xs ys : List Chunk)
    → Numbered n xs
    → Numbered (n + length xs) ys
    → Numbered n (xs ++ ys)
Numbered-append n [] ys hx hy = subst (λ k. Numbered k ys) (omega arith) hy
Numbered-append n (x ∷ xs) ys hx hy =
    (hx.0, Numbered-append (n + 1) xs ys hx.1 (subst (λ k. Numbered k ys) (omega arith) hy))

chunks_of-Numbered :
    (title : String) (parent n : ℕ) (context locator : String) (groups : List (List TextUnit))
    → Numbered n (chunks_of title parent n context locator groups)
unfolding chunks_of make_chunk
chunks_of-Numbered title parent n context locator [] = tt
chunks_of-Numbered title parent n context locator ([] ∷ groups) =
    chunks_of-Numbered title parent n context locator groups
chunks_of-Numbered title parent n context locator ((u ∷ us) ∷ groups) =
    ((refl, refl), chunks_of-Numbered title parent (n + 1) context locator groups)

chunk_parents-Numbered :
    (title : String) (target parent n : ℕ) (parents : List (List TextUnit))
    → Numbered n (chunk_parents title target parent n parents)
unfolding chunk_parents
chunk_parents-Numbered title target parent n [] = tt
chunk_parents-Numbered title target parent n ([] ∷ parents) =
    chunk_parents-Numbered title target (parent + 1) n parents
chunk_parents-Numbered title target parent n ((u ∷ us) ∷ parents) =
    Numbered-append n _ _
      (chunks_of-Numbered title parent n (body_of (u ∷ us)) (locator_for title u us)
        (pack_units (u ∷ us) target))
      (chunk_parents-Numbered title target (parent + 1) _ parents)

-- The chunks of a document are numbered from 0 without a gap, across its parents, and each counts the
-- tokens of its own text.
pub chunk_document-Numbered :
    (split : String → List String) (title : String) (blocks : List Block) (cfg : ChunkingConfig)
    → Numbered 0 (chunk_document split title blocks cfg)
unfolding chunk_document
chunk_document-Numbered split title blocks cfg =
    chunk_parents-Numbered title cfg.target_tokens 0 0
      (pack_units (split_units split blocks cfg.split_tokens cfg.target_tokens) cfg.max_tokens)
