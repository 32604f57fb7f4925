-- ===== src/Ratelimit/Laws.antt =====
-- What the token bucket of src/opsassist/ratelimit.py lets through.
use novax_ai_assignment.Base.{
  ℕ, zero, suc, ◌+◌, ◌-◌, ◌*◌, ◌/◌, ◌≤◌, min, ◌≡◌, refl, subst, inl, inr, true, Option, none, some,
  List, [], ◌∷◌, arith, leb, ltb, Bool-cases, if◌then◌else◌,
}
use native.Mathlib.Omega.{div_fact, mod_fact}
use novax_ai_assignment.Ratelimit.{
  Bucket, Budget, cost, full, expiry, stored, refilled, script, at_most, Level,
}

-- The division rounded up is enough.
ceil : (x p : ℕ) → 1 ≤ p → x ≤ (x + (p - 1)) / p * p
ceil x zero h = absurd (omega arith)
ceil x (suc k) h = let sum = div_fact (x + k) k in let rest = mod_fact (x + k) k in omega arith

mul_mono : (a b p : ℕ) → a ≤ b → a * p ≤ b * p
mul_mono a b zero h = omega arith
mul_mono a b (suc p) h = let rest = mul_mono a b p h in omega arith

-- The number of requests that are let through, at the times that lie the given seconds apart.
abbrev pub admitted : Budget → ℕ → Option Bucket → List ℕ → ℕ
admitted budget now old [] = 0
admitted budget now old (gap ∷ gaps) =
    let (answer, new) = script budget (now + gap) old in
    (if answer.allowed then 1 else 0) + admitted budget (now + gap) (some new) gaps

abbrev pub sum : List ℕ → ℕ
sum [] = 0
sum (n ∷ ns) = n + sum ns

-- The tokens that can be taken.
abbrev pub available : Level → ℕ
available l = l.have - l.owed

-- What a request finds after a time is what was left and the refill, or less: also where the key went
-- away, since a bucket is full by then.
refill_le :
    (budget : Budget) (b : Bucket) (gap : ℕ)
    → 1 ≤ budget.per_minute
    → available (refilled budget (b.ts + gap) (stored budget (b.ts + gap) (some b)))
      ≤ b.have - b.owed + gap * budget.per_minute
unfolding stored refilled
refill_le budget b gap h = elim (Bool-cases (ltb (b.ts + gap) (b.ts + expiry budget))) [
  | inl alive ↦ rw alive (live (leb_true b.ts gap))
  | inr gone ↦
      let enough = ceil (full budget) budget.per_minute h in
      let c = (full budget + (budget.per_minute - 1)) / budget.per_minute in
      let past : c ≤ gap = unfold expiry in ground arith in
      let more = mul_mono c gap budget.per_minute past in rw gone (omega arith)
]
  where
    leb_true : (a n : ℕ) → leb a (a + n) ≡ true
    leb_true a n = ground arith

    bounded : (top have owed more : ℕ) → min (top + owed) (have + more) - owed ≤ have - owed + more
    bounded top have owed more = omega arith

    live :
        leb b.ts (b.ts + gap) ≡ true
        → available (refilled budget (b.ts + gap) (some b))
          ≤ b.have - b.owed + gap * budget.per_minute
    live h' =
        let back : b.ts + gap - b.ts ≡ gap = omega arith in
        unfold refilled at_most in
        rw (h', back) (bounded (full budget) b.have b.owed (gap * budget.per_minute))

refill_full :
    (budget : Budget) (now : ℕ) (o : Option Bucket)
    → available (refilled budget now o) ≤ full budget
unfolding refilled at_most
refill_full budget now none = omega arith
refill_full budget now (some b) = elim (Bool-cases (leb b.ts now)) [
  | inl on ↦ rw on (omega arith)
  | inr back ↦ rw back (omega arith)
]

script-tokens :
    (budget : Budget) (now : ℕ) (old : Option Bucket)
    → ((script budget now old).1.ts ≡ now)
      × ((if (script budget now old).0.allowed then 1 else 0) * 60
            + ((script budget now old).1.have - (script budget now old).1.owed)
          ≡ available (refilled budget now (stored budget now old)))
unfolding script
script-tokens budget now old =
    let l = refilled budget now (stored budget now old) in
    elim (Bool-cases (leb (cost + l.owed) l.have)) [
      | inl enough ↦ rw enough (refl, ground arith)
      | inr short ↦ rw short (refl, omega arith)
    ]

from_bucket :
    (budget : Budget) (b : Bucket) (gaps : List ℕ)
    → 1 ≤ budget.per_minute
    → admitted budget b.ts (some b) gaps * 60 ≤ b.have - b.owed + sum gaps * budget.per_minute
from_bucket budget b [] h = omega arith
from_bucket budget b (gap ∷ gaps) h =
    let now = b.ts + gap in
    let new = (script budget now (some b)).1 in
    let (at, used) = script-tokens budget now (some b) in
    let later : admitted budget now (some new) gaps * 60
        ≤ new.have - new.owed + sum gaps * budget.per_minute =
      subst
        (λ t.
          admitted budget t (some new) gaps * 60
          ≤ new.have - new.owed + sum gaps * budget.per_minute)
        at (from_bucket budget new gaps h) in
    let filled = refill_le budget b gap h in omega arith

-- Whatever the bucket holds at first, and whether or not its key goes away in between: of the
-- requests at times that do not go back, no more are let through than the burst and the refill of
-- the time between the first and the last allow, where the rate is at least one a minute.
pub admitted-le :
    (budget : Budget) (first : ℕ) (old : Option Bucket) (gaps : List ℕ)
    → 1 ≤ budget.per_minute
    → admitted budget first old (0 ∷ gaps) * 60 ≤ budget.burst * 60 + sum gaps * budget.per_minute
admitted-le budget first old gaps h =
    let now = first + 0 in
    let new = (script budget now old).1 in
    let (at, used) = script-tokens budget now old in
    let later : admitted budget now (some new) gaps * 60
        ≤ new.have - new.owed + sum gaps * budget.per_minute =
      subst
        (λ t.
          admitted budget t (some new) gaps * 60
          ≤ new.have - new.owed + sum gaps * budget.per_minute)
        at (from_bucket budget new gaps h) in
    let filled = refill_full budget now (stored budget now old) in omega arith
