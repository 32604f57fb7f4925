-- ===== src/Gateway/Run/Rules.antt =====
-- The rules for the two loops of `_run`: an invariant `P` of the attempts and the world that each
-- part keeps, and a postcondition `Q` that holds wherever the run ends.
use novax_ai_assignment.Base.{ℕ, zero, suc, ◌+◌, String, List, [], ◌∷◌, All}
use novax_ai_assignment.Gateway.Catalog.{ModelKind, ProviderConfig, ModelSpec}
use novax_ai_assignment.Gateway.Records.{AttemptRecord}
use novax_ai_assignment.Gateway.Run.{
  Env, World, Ended, Next, stop, again, move_on, attempt, next_round, rounds, visit, next_target,
  exhausted, visit_all,
}

module _ {T : Type 0} (P : List AttemptRecord → World → Type 0) (Q : Ended T → World → Type 0) where
  abbrev pub Post : Next T × World → Type 0
  Post (stop e, w) = Q e w
  Post (again l, w) = P l w
  Post (move_on l, w) = P l w

module _ {T : Type 0} (env : Env T) (P : List AttemptRecord → World → Type 0)
    (Q : Ended T → World → Type 0) (kind : ModelKind) (deadline : ℕ) where
  next_round-Post :
      (r : Next T × World) (f : World → List AttemptRecord → Next T × World)
      → Post P Q r
      → ((w : World) (l : List AttemptRecord) → P l w → Post P Q (f w l))
      → Post P Q (next_round env r f)
  unfolding next_round
  next_round-Post (stop e, w) f h rest = h
  next_round-Post (move_on l, w) f h rest = h
  next_round-Post (again l, w) f h rest = rest w l h

  pub rounds-Post :
      (spec : ModelSpec) (cfg : ProviderConfig)
      → ((n : ℕ) (w : World) (l : List AttemptRecord)
          → P l w
          → Post P Q (attempt env kind spec cfg deadline n w l))
      → (k n : ℕ) (w : World) (l : List AttemptRecord) → P l w
      → Post P Q (rounds env kind spec cfg deadline k n w l)
  unfolding rounds
  rounds-Post spec cfg once zero n w l h = h
  rounds-Post spec cfg once (suc k) n w l h =
      next_round-Post (attempt env kind spec cfg deadline n w l)
        (rounds env kind spec cfg deadline k (n + 1)) (once n w l h)
        (λ w' l' h'. rounds-Post spec cfg once k (n + 1) w' l' h')

  next_target-Post :
      (r : Next T × World) (f : World → List AttemptRecord → Ended T × World)
      → Post P Q r
      → ((w : World) (l : List AttemptRecord) → P l w → Q (f w l).0 (f w l).1)
      → Q (next_target env r f).0 (next_target env r f).1
  unfolding next_target
  next_target-Post (stop e, w) f h rest = h
  next_target-Post (move_on l, w) f h rest = rest w l h
  next_target-Post (again l, w) f h rest = rest w l h

  -- what each target has to keep
  abbrev pub Keeps : List String → ModelSpec → Type 0
  Keeps blocked spec =
      (w : World) (l : List AttemptRecord)
      → P l w
      → Post P Q (visit env kind blocked deadline spec w l)

  pub visit_all-Post :
      (blocked : List String) (specs : List ModelSpec)
      → All (Keeps blocked) specs
      → ((l : List AttemptRecord) (w : World) → P l w → Q (exhausted env l) w)
      → (w : World) (l : List AttemptRecord) → P l w
      → Q
          (visit_all env kind blocked deadline specs w l).0
          (visit_all env kind blocked deadline specs w l).1
  unfolding visit_all
  visit_all-Post blocked [] each done w l h = done l w h
  visit_all-Post blocked (spec ∷ specs) each done w l h =
      next_target-Post (visit env kind blocked deadline spec w l)
        (visit_all env kind blocked deadline specs) (each.0 w l h)
        (λ w' l' h'. visit_all-Post blocked specs each.1 done w' l' h')
