-- ===== src/Gateway/Run/Results.antt =====
-- What `_run` returns and what it raises, against the attempts that it lists.
use novax_ai_assignment.Base.{
  ℕ, ◌+◌, ◌-◌, ◌||◌, ◌≤◌, String, ◌≡◌, refl, inl, inr, Bool, true, false, not, ◌&&◌, Option, none,
  some, List, [], ◌∷◌, ◌++◌, arith, leb, every, contains, All, Bool-cases, leb→le,
}
use novax_ai_assignment.Gateway.Errors.{ProviderError, kind_retryable}
use novax_ai_assignment.Gateway.Breaker.{state, get, delay}
use novax_ai_assignment.Gateway.Run.Requests
use novax_ai_assignment.Gateway.Catalog
use novax_ai_assignment.Gateway.Catalog.{ModelKind, ProviderConfig, ModelSpec}
use novax_ai_assignment.Gateway.Records.{
  AttemptOutcome, GatewayErrorCode, AttemptRecord, attempt_record, skipped_record, failure_outcome,
  is_success, is_skipped, is_bad_request,
}
use novax_ai_assignment.Gateway.Run
use novax_ai_assignment.Gateway.Run.Rules.{Post, Keeps, rounds-Post, visit_all-Post}
use novax_ai_assignment.Gateway.Run.{
  Ended, returned, failed, cancelled, crashed, Env, World, Reply, Next, stop, again, move_on, ask,
  admit, should_retry, on_error, after_reply, attempt, rounds, serve, visit, visit_all, run,
  exhausted,
}

abbrev pub no_success : List AttemptRecord → Bool
no_success = every (λ a. not (is_success a))

every-append {ℓ} :
    {A : Type ℓ} (p : A → Bool) (xs ys : List A) → every p (xs ++ ys) ≡ (every p xs && every p ys)
every-append p [] ys = refl
every-append p (x ∷ xs) ys = ground (arith, every-append p xs ys)

-- The last attempt, where there is one.
abbrev last_attempt : List AttemptRecord → Option AttemptRecord
last_attempt [] = none
last_attempt (a ∷ []) = some a
last_attempt (a ∷ b ∷ l) = last_attempt (b ∷ l)

last_attempt-snoc :
    (l : List AttemptRecord) (a : AttemptRecord) → last_attempt (l ++ (a ∷ [])) ≡ some a
last_attempt-snoc [] a = refl
last_attempt-snoc (b ∷ []) a = refl
last_attempt-snoc (b ∷ c ∷ l) a = last_attempt-snoc (c ∷ l) a

-- The attempts and the clock that go with an error code.
abbrev pub Explains : ℕ → GatewayErrorCode → List AttemptRecord → ℕ → Type 0
Explains deadline GatewayErrorCode.bad_request l now =
    (a : AttemptRecord) × (last_attempt l ≡ some a) × (a.error_type ≡ some "ProviderBadRequest")
Explains deadline GatewayErrorCode.deadline_exceeded l now = deadline ≤ now
Explains deadline GatewayErrorCode.no_available_provider l now = every is_skipped l ≡ true
Explains deadline GatewayErrorCode.provider_unavailable l now = every is_skipped l ≡ false

-- How a run with these targets may end, and with which attempts.
abbrev pub EndsWell : {T : Type 0} → List String → ℕ → Ended T → World → Type 0
EndsWell blocked deadline (returned result spec attempts) w =
    (before : List AttemptRecord) × (a : AttemptRecord) × (attempts ≡ before ++ (a ∷ []))
    × (no_success before ≡ true)
    × (is_success a ≡ true)
    × (a.model_id ≡ spec.id)
    × (contains blocked spec.id ≡ false)
EndsWell blocked deadline (failed code attempts) w =
    (no_success attempts ≡ true) × Explains deadline code attempts w.now
EndsWell blocked deadline cancelled w = Unit
EndsWell blocked deadline crashed w = Unit

module _ {T : Type 0} (env : Env T) (kind : ModelKind) (blocked : List String) (deadline : ℕ) where
  abbrev Failing : List AttemptRecord → World → Type 0
  Failing l w = no_success l ≡ true

  abbrev Ending : Ended T → World → Type 0
  Ending = EndsWell blocked deadline

  should_retry-Post :
      (spec : ModelSpec) (e : ProviderError) (n most : ℕ) (w : World) (l : List AttemptRecord)
      → no_success l ≡ true
      → Post Failing Ending (should_retry env spec e n most deadline w l)
  unfolding should_retry Run.sleep
  should_retry-Post spec e n most w l h =
      elim (Bool-cases (not (kind_retryable e.kind) || leb most n)) [
        | inl t ↦ rw t h
        | inr f ↦
            rw f
              (elim (Bool-cases (not (Run.is_closed env (state (get w.registry spec.id) w.now)))) [
                | inl t ↦ rw t h
                | inr f2 ↦
                    rw f2
                      (elim (Bool-cases
                        (leb deadline (w.now + delay env.backoff (env.uniform w.awaits) n e))) [
                          | inl t ↦ rw t h
                          | inr f3 ↦ rw f3 (elim (Bool-cases (env.sleep_cancelled w.awaits)) [
                            | inl t ↦ rw t tt
                            | inr f4 ↦ rw f4 h
                          ])
                        ])
              ])
      ]

  failure_record-no_success :
      (spec : ModelSpec) (e : ProviderError) (n latency : ℕ) (l : List AttemptRecord)
      → no_success l ≡ true
      → no_success (
          l
          ++ (attempt_record kind spec n (failure_outcome e.kind) latency none none (some e) ∷ []))
        ≡ true
  unfolding attempt_record failure_outcome
  failure_record-no_success spec e n latency l h =
      rw (every-append (λ a. not (is_success a))) (ground (arith, h))

  error_type_of :
      (spec : ModelSpec) (e : ProviderError) (n latency : ℕ) (o : AttemptOutcome)
      → is_bad_request e.kind ≡ true
      → (attempt_record kind spec n o latency none none (some e)).error_type
        ≡ some "ProviderBadRequest"
  unfolding attempt_record is_bad_request
  error_type_of spec e n latency o h = ground arith

  on_error-Post :
      (spec : ModelSpec) (e : ProviderError) (n most started : ℕ) (w : World)
      (l : List AttemptRecord)
      → no_success l ≡ true
      → Post Failing Ending (on_error env kind spec e n most deadline started w l)
  unfolding on_error
  on_error-Post spec e n most started w l h =
      let h' = failure_record-no_success spec e n (w.now - started) l h in
      elim (Bool-cases (is_bad_request e.kind)) [
        | inl bad ↦ rw bad (
          h',
          (
            _,
            last_attempt-snoc l _,
            error_type_of spec e n (w.now - started) (failure_outcome e.kind) bad,
          ),
        )
        | inr other ↦ rw other (should_retry-Post spec e n most _ _ h')
      ]

  after_reply-Post :
      (spec : ModelSpec) (n most started : ℕ) (l : List AttemptRecord) (w : World) (r : Reply T)
      → contains blocked spec.id ≡ false
      → no_success l ≡ true
      → Post Failing Ending (after_reply env kind spec n most deadline started l w r)
  unfolding after_reply
  after_reply-Post spec n most started l w (Reply.returned x) free h =
      (l, _, refl, h, unfold attempt_record in refl, unfold attempt_record in refl, free)
  after_reply-Post spec n most started l w (Reply.raised e) free h =
      on_error-Post spec e n most started w l h
  after_reply-Post spec n most started l w Reply.timed_out free h =
      on_error-Post spec _ n most started w l h
  after_reply-Post spec n most started l w Reply.cancelled free h = tt
  after_reply-Post spec n most started l w Reply.crashed free h = tt

  attempt-Post :
      (spec : ModelSpec) (cfg : ProviderConfig) (n : ℕ) (w : World) (l : List AttemptRecord)
      → contains blocked spec.id ≡ false
      → no_success l ≡ true
      → Post Failing Ending (attempt env kind spec cfg deadline n w l)
  unfolding attempt
  attempt-Post spec cfg n w l free h = elim (Bool-cases (leb deadline w.now)) [
    | inl late ↦ rw late (h, leb→le deadline w.now late)
    | inr early ↦ rw early (after_reply-Post spec n cfg.max_attempts w.now l _ _ free h)
  ]

  serve-Post :
      (spec : ModelSpec) (w : World) (l : List AttemptRecord) (cfg : Option ProviderConfig)
      → contains blocked spec.id ≡ false
      → no_success l ≡ true
      → Post Failing Ending (serve env kind spec deadline w l cfg)
  unfolding serve
  serve-Post spec w l none free h = tt
  serve-Post spec w l (some cfg) free h =
      rounds-Post env Failing Ending kind deadline spec cfg
        (λ n w' l' h'. attempt-Post spec cfg n w' l' free h') cfg.max_attempts 1 w l h

  skip-no_success :
      (spec : ModelSpec) (reason : String) (l : List AttemptRecord)
      → no_success l ≡ true
      → no_success (l ++ (skipped_record kind spec reason ∷ [])) ≡ true
  unfolding skipped_record
  skip-no_success spec reason l h = rw (every-append (λ a. not (is_success a))) (ground (arith, h))

  admit-no_success :
      (spec : ModelSpec) (w : World) (l : List AttemptRecord)
      → no_success l ≡ true
      → no_success (admit env kind blocked spec w l).1 ≡ true
  unfolding admit
  admit-no_success spec w l h = ground (
    arith,
    h,
    skip-no_success spec "egress_not_permitted" l h,
    skip-no_success spec "provider_disabled" l h,
    skip-no_success spec "circuit_open" l h,
  )

  visit-Post : (spec : ModelSpec) → Keeps env Failing Ending kind deadline blocked spec
  unfolding visit
  visit-Post spec w l h =
      let (admitted, l', w') = admit env kind blocked spec w l in
      let h' = admit-no_success spec w l h in
      elim (Bool-cases admitted) [
        | inl in_ ↦ rw in_ (
            serve-Post spec w' l' (Catalog.get spec.provider env.catalog.providers)
              (Requests.admit-eligible env kind blocked spec w l in_) h')
        | inr out ↦ rw out h'
      ]

  All-visit-Post :
      (specs : List ModelSpec) → All (Keeps env Failing Ending kind deadline blocked) specs
  All-visit-Post [] = tt
  All-visit-Post (spec ∷ specs) = (visit-Post spec, All-visit-Post specs)

  exhausted-Ending :
      (l : List AttemptRecord) (w : World) → no_success l ≡ true → Ending (exhausted env l) w
  unfolding exhausted
  exhausted-Ending l w h = elim (Bool-cases (every is_skipped l)) [
    | inl t ↦ rw t (h, t)
    | inr f ↦ rw f (h, f)
  ]

-- Whatever the providers answer, a run that returns lists as its last attempt a success of the model
-- that it names, which was not blocked, and no success before it. A run that raises lists no success
-- at all, and its code is explained: `bad_request` by a last attempt that ended in
-- `ProviderBadRequest`, `deadline_exceeded` by the deadline having come, `no_available_provider` by
-- targets that were all skipped, and `provider_unavailable` by a target that was not.
pub run-EndsWell :
    {T : Type 0} (env : Env T) (kind : ModelKind) (targets : List ModelSpec) (deadline_s : ℕ)
    (blocked : List String) (w : World)
    → EndsWell blocked
        (w.now + deadline_s)
        (run env kind targets deadline_s blocked w).0
        (run env kind targets deadline_s blocked w).1
unfolding run
run-EndsWell env kind targets deadline_s blocked w =
    let deadline = w.now + deadline_s in
    visit_all-Post env (Failing env kind blocked deadline) (Ending env kind blocked deadline) kind
      deadline blocked targets (All-visit-Post env kind blocked deadline targets)
      (exhausted-Ending env kind blocked deadline) w [] refl
