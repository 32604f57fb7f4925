-- ===== src/Ratelimit/Tests.antt =====
-- A bucket of two tokens that refills at one a minute.
use novax_ai_assignment.Base.{◌+◌, ◌*◌, ◌≤◌, ◌≡◌, refl, none, [], ◌∷◌, arith}
use novax_ai_assignment.Ratelimit.{Budget, Bucket, script, refilled, stored, at_most}
use novax_ai_assignment.Ratelimit.Laws.{admitted, sum, admitted-le}

abbrev budget : Budget
budget = record { per_minute = 1; burst = 2 }

-- four requests, one a second, of which two are let through, and one more a minute later
admitted_run : admitted budget 100 none (0 ∷ 1 ∷ 1 ∷ 1 ∷ 60 ∷ []) ≡ 3
unfolding script stored refilled at_most
admitted_run = refl

admitted-le_example :
    admitted budget 100 none (0 ∷ 1 ∷ 1 ∷ 1 ∷ 60 ∷ []) * 60 ≤ 2 * 60 + sum (1 ∷ 1 ∷ 1 ∷ 60 ∷ []) * 1
admitted-le_example = admitted-le budget 100 none (1 ∷ 1 ∷ 1 ∷ 60 ∷ []) (omega arith)

abbrev drained : Bucket
drained = record { have = 10; owed = 0; ts = 100 }
