-- ===== src/Gateway/Run/Budget.antt =====
-- How many requests one run may send.
use novax_ai_assignment.Base.{
  ℕ, zero, suc, ◌+◌, ◌≤◌, String, inl, inr, Option, none, some, List, [], ◌∷◌, arith, leb, length,
  length-append, Bool-cases, ap,
}
use novax_ai_assignment.Gateway.Catalog
use novax_ai_assignment.Gateway.Catalog.{ModelKind, ProviderConfig, ModelSpec, Catalog}
use novax_ai_assignment.Gateway.Records.{AttemptRecord}
use novax_ai_assignment.Gateway.Run.{
  Env, World, Ended, Next, stop, again, move_on, admit, attempt, next_round, rounds, serve, visit,
  next_target, visit_all, run,
}
use novax_ai_assignment.Gateway.Run.Requests.{sent-admit, sent-attempt}

-- The attempts that the targets' providers allow.
attempts_of : Option ProviderConfig → ℕ
attempts_of none = 0
attempts_of (some cfg) = cfg.max_attempts

unfoldable pub budget : Catalog → List ModelSpec → ℕ
unfolding attempts_of
budget c [] = 0
budget c (spec ∷ specs) = attempts_of (Catalog.get spec.provider c.providers) + budget c specs

module _ {T : Type 0} (env : Env T) (kind : ModelKind) (deadline : ℕ) where
  attempt-sends :
      (spec : ModelSpec) (cfg : ProviderConfig) (n : ℕ) (w : World) (l : List AttemptRecord)
      → length (attempt env kind spec cfg deadline n w l).1.sent ≤ length w.sent + 1
  attempt-sends spec cfg n w l = rw sent-attempt (elim (Bool-cases (leb deadline w.now)) [
    | inl late ↦ rw late (omega arith)
    | inr early ↦ rw early (omega (arith, length-append w.sent _))
  ])

  next_round-sends :
      (r : Next T × World) (f : World → List AttemptRecord → Next T × World) (k : ℕ)
      → ((w : World) (l : List AttemptRecord) → length (f w l).1.sent ≤ length w.sent + k)
      → length (next_round env r f).1.sent ≤ length r.1.sent + k
  unfolding next_round
  next_round-sends (stop e, w) f k h = omega arith
  next_round-sends (move_on l, w) f k h = omega arith
  next_round-sends (again l, w) f k h = h w l

  rounds-sends :
      (spec : ModelSpec) (cfg : ProviderConfig) (k n : ℕ) (w : World) (l : List AttemptRecord)
      → length (rounds env kind spec cfg deadline k n w l).1.sent ≤ length w.sent + k
  unfolding rounds
  rounds-sends spec cfg zero n w l = omega arith
  rounds-sends spec cfg (suc k) n w l = omega (
    arith,
    attempt-sends spec cfg n w l,
    next_round-sends (attempt env kind spec cfg deadline n w l)
        (rounds env kind spec cfg deadline k (n + 1)) k
        (λ w' l'. rounds-sends spec cfg k (n + 1) w' l'),
  )

  serve-sends :
      (spec : ModelSpec) (w : World) (l : List AttemptRecord) (cfg : Option ProviderConfig)
      → length (serve env kind spec deadline w l cfg).1.sent ≤ length w.sent + attempts_of cfg
  unfolding serve attempts_of
  serve-sends spec w l none = omega arith
  serve-sends spec w l (some cfg) = rounds-sends spec cfg cfg.max_attempts 1 w l

  visit-sends :
      (blocked : List String) (spec : ModelSpec) (w : World) (l : List AttemptRecord)
      → length (visit env kind blocked deadline spec w l).1.sent
        ≤ length w.sent + attempts_of (Catalog.get spec.provider env.catalog.providers)
  unfolding visit
  visit-sends blocked spec w l =
      let (admitted, l', w') = admit env kind blocked spec w l in
      let same = sent-admit env kind blocked spec w l in
      let found = Catalog.get spec.provider env.catalog.providers in
      elim (Bool-cases admitted) [
        | inl in_ ↦ rw in_ (omega (arith, serve-sends spec w' l' found, ap length same))
        | inr out ↦ rw out (omega (arith, ap length same))
      ]

  next_target-sends :
      (r : Next T × World) (f : World → List AttemptRecord → Ended T × World) (k : ℕ)
      → ((w : World) (l : List AttemptRecord) → length (f w l).1.sent ≤ length w.sent + k)
      → length (next_target env r f).1.sent ≤ length r.1.sent + k
  unfolding next_target
  next_target-sends (stop e, w) f k h = omega arith
  next_target-sends (move_on l, w) f k h = h w l
  next_target-sends (again l, w) f k h = h w l

  visit_all-sends :
      (blocked : List String) (specs : List ModelSpec) (w : World) (l : List AttemptRecord)
      → length (visit_all env kind blocked deadline specs w l).1.sent
        ≤ length w.sent + budget env.catalog specs
  unfolding visit_all budget
  visit_all-sends blocked [] w l = omega arith
  visit_all-sends blocked (spec ∷ specs) w l = omega (
    arith,
    visit-sends blocked spec w l,
    next_target-sends (visit env kind blocked deadline spec w l)
        (visit_all env kind blocked deadline specs) (budget env.catalog specs)
        (λ w' l'. visit_all-sends blocked specs w' l'),
  )

-- One run sends at most as many requests as its targets' `max_attempts` add up to, whatever the
-- providers answer.
pub sent-run-le-budget :
    {T : Type 0} (env : Env T) (kind : ModelKind) (targets : List ModelSpec) (deadline_s : ℕ)
    (blocked : List String) (w : World)
    → length (run env kind targets deadline_s blocked w).1.sent
      ≤ length w.sent + budget env.catalog targets
unfolding run
sent-run-le-budget env kind targets deadline_s blocked w =
    visit_all-sends env kind (w.now + deadline_s) blocked targets w []
