-- ===== src/Gateway/Run/Requests.antt =====
-- What `_run` sends to the providers: to which models, when, and how often.
use novax_ai_assignment.Base.{
  ℕ, ◌+◌, ◌-◌, ◌≤◌, ◌<◌, min, String, ◌≡◌, sym, subst, inl, inr, true, false, Option, none, some,
  List, [], ◌∷◌, ◌++◌, arith, leb, contains, All, All-append, Bool-cases, if◌then◌else◌,
}
use novax_ai_assignment.Gateway.Errors.{ProviderError}
use novax_ai_assignment.Gateway.Catalog
use novax_ai_assignment.Gateway.Catalog.{ModelKind, ProviderConfig, ModelSpec}
use novax_ai_assignment.Gateway.Records.{AttemptRecord}
use novax_ai_assignment.Gateway.Run
use novax_ai_assignment.Gateway.Run.Rules.{Post, Keeps, rounds-Post, visit_all-Post}
use novax_ai_assignment.Gateway.Run.{
  Ended, Env, World, Sent, Reply, Next, stop, again, move_on, ask, admit, should_retry, on_error,
  after_reply, attempt, rounds, serve, visit, visit_all, run,
}

-- A request that may be sent: to a model that fits and is not blocked, before the deadline, and with
-- a timeout that ends by the deadline.
pub record IsDue (Fits : ModelSpec → Type 0) (blocked : List String) (deadline : ℕ) (s : Sent)
    : Type 0 where
  pub fits : Fits s.model
  pub eligible : contains blocked s.model.id ≡ false
  pub early : s.at < deadline
  pub bounded : s.at + s.timeout ≤ deadline

module _ {T : Type 0} (env : Env T) where
  pub sent-admit :
      (kind : ModelKind) (blocked : List String) (spec : ModelSpec) (w : World)
      (l : List AttemptRecord)
      → (admit env kind blocked spec w l).2.sent ≡ w.sent
  unfolding admit
  sent-admit kind blocked spec w l = ground arith

  pub admit-eligible :
      (kind : ModelKind) (blocked : List String) (spec : ModelSpec) (w : World)
      (l : List AttemptRecord)
      → (admit env kind blocked spec w l).0 ≡ true
      → contains blocked spec.id ≡ false
  unfolding admit
  admit-eligible kind blocked spec w l h = ground arith

  sent-should_retry :
      (spec : ModelSpec) (e : ProviderError) (n most deadline : ℕ) (w : World)
      (l : List AttemptRecord)
      → (should_retry env spec e n most deadline w l).1.sent ≡ w.sent
  unfolding should_retry
  sent-should_retry spec e n most deadline w l = ground arith

  sent-on_error :
      (kind : ModelKind) (spec : ModelSpec) (e : ProviderError) (n most deadline started : ℕ)
      (w : World) (l : List AttemptRecord)
      → (on_error env kind spec e n most deadline started w l).1.sent ≡ w.sent
  unfolding on_error Run.note Run.update_breaker
  sent-on_error kind spec e n most deadline started w l = grind (arith, sent-should_retry)

  sent-after_reply :
      (kind : ModelKind) (spec : ModelSpec) (n most deadline started : ℕ) (l : List AttemptRecord)
      (w : World) (r : Reply T)
      → (after_reply env kind spec n most deadline started l w r).1.sent ≡ w.sent
  unfolding after_reply Run.note
  sent-after_reply kind spec n most deadline started l w (Reply.returned x) = ground arith
  sent-after_reply kind spec n most deadline started l w (Reply.raised e) =
      sent-on_error kind spec e n most deadline started w l
  sent-after_reply kind spec n most deadline started l w Reply.timed_out =
      sent-on_error kind spec _ n most deadline started w l
  sent-after_reply kind spec n most deadline started l w Reply.cancelled = ground arith
  sent-after_reply kind spec n most deadline started l w Reply.crashed = ground arith

  -- the request that an attempt sends
  abbrev pub request : ModelSpec → ProviderConfig → ℕ → World → Sent
  request spec cfg deadline w = record {
    model = spec;
    at = w.now;
    timeout = min cfg.timeout_s (deadline - w.now);
  }

  sent-ask :
      (w : World) (spec : ModelSpec) (timeout : ℕ)
      → (ask env w spec timeout).1.sent
        ≡ w.sent ++ (record { model = spec; at = w.now; timeout = timeout } ∷ [])
  unfolding ask
  sent-ask w spec timeout = ground arith

  pub sent-attempt :
      (kind : ModelKind) (spec : ModelSpec) (cfg : ProviderConfig) (deadline n : ℕ) (w : World)
      (l : List AttemptRecord)
      → (attempt env kind spec cfg deadline n w l).1.sent
        ≡ (if leb deadline w.now then w.sent else w.sent ++ (request spec cfg deadline w ∷ []))
  unfolding attempt
  sent-attempt kind spec cfg deadline n w l = elim (Bool-cases (leb deadline w.now)) [
    | inl late ↦ rw late
    | inr early ↦ rw early (rw (sent-after_reply, sent-ask))
  ]

  module _ (Fits : ModelSpec → Type 0) (kind : ModelKind) (blocked : List String)
      (deadline : ℕ) where
    attempt-IsDue :
        (spec : ModelSpec) (cfg : ProviderConfig) (n : ℕ) (w : World) (l : List AttemptRecord)
        → Fits spec
        → contains blocked spec.id ≡ false
        → All (IsDue Fits blocked deadline) w.sent
        → All (IsDue Fits blocked deadline) (attempt env kind spec cfg deadline n w l).1.sent
    attempt-IsDue spec cfg n w l fit free h =
        rw (sent-attempt kind spec cfg deadline n w l) (elim (Bool-cases (leb deadline w.now)) [
          | inl late ↦ rw late h
          | inr early ↦ rw early (
              All-append (IsDue Fits blocked deadline) w.sent _ h (
                record {
                  fits = fit;
                  eligible = free;
                  early = ground arith;
                  bounded = ground arith;
                },
                tt,
              ))
        ])

    abbrev DueIn : List AttemptRecord → World → Type 0
    DueIn l w = All (IsDue Fits blocked deadline) w.sent

    abbrev DueAtEnd : Ended T → World → Type 0
    DueAtEnd e w = All (IsDue Fits blocked deadline) w.sent

    -- an end and an invariant that say the same
    Post-Due :
        (r : Next T × World) → All (IsDue Fits blocked deadline) r.1.sent → Post DueIn DueAtEnd r
    Post-Due (stop e, w) h = h
    Post-Due (again l, w) h = h
    Post-Due (move_on l, w) h = h

    serve-Due :
        (spec : ModelSpec) (w : World) (l : List AttemptRecord) (cfg : Option ProviderConfig)
        → Fits spec
        → contains blocked spec.id ≡ false
        → All (IsDue Fits blocked deadline) w.sent
        → Post DueIn DueAtEnd (serve env kind spec deadline w l cfg)
    unfolding serve
    serve-Due spec w l none fit free h = h
    serve-Due spec w l (some cfg) fit free h =
        rounds-Post env DueIn DueAtEnd kind deadline spec cfg
          (λ n w' l' h'. Post-Due _ (attempt-IsDue spec cfg n w' l' fit free h')) cfg.max_attempts 1
          w l h

    visit-Due :
        (spec : ModelSpec)
        → (contains blocked spec.id ≡ false → Fits spec)
        → Keeps env DueIn DueAtEnd kind deadline blocked spec
    unfolding visit
    visit-Due spec fit w l h =
        let (admitted, l', w') = admit env kind blocked spec w l in
        let h' =
          subst (All (IsDue Fits blocked deadline)) (sym (sent-admit kind blocked spec w l)) h in
        elim (Bool-cases admitted) [
          | inl in_ ↦
              let free = admit-eligible kind blocked spec w l in_ in
              rw in_ (
                serve-Due spec w' l' (Catalog.get spec.provider env.catalog.providers) (fit free)
                  free h')
          | inr out ↦ rw out h'
        ]

    All-visit-Due :
        (specs : List ModelSpec)
        → All (λ spec. contains blocked spec.id ≡ false → Fits spec) specs
        → All (Keeps env DueIn DueAtEnd kind deadline blocked) specs
    All-visit-Due [] fit = tt
    All-visit-Due (spec ∷ specs) fit = (visit-Due spec fit.0, All-visit-Due specs fit.1)

  -- Whatever the providers answer and whatever other requests do meanwhile, every request that one
  -- run sends goes to a model that is not blocked, before the run's deadline, and with a timeout that
  -- ends by the deadline; and what holds of each target that is not blocked holds of that model, where the world has sent none
  -- before.
  pub run-IsDue :
      (Fits : ModelSpec → Type 0) (kind : ModelKind) (targets : List ModelSpec) (deadline_s : ℕ)
      (blocked : List String) (w : World)
      → All (λ spec. contains blocked spec.id ≡ false → Fits spec) targets
      → w.sent ≡ []
      → All
          (IsDue Fits blocked (w.now + deadline_s))
          (run env kind targets deadline_s blocked w).1.sent
  unfolding run
  run-IsDue Fits kind targets deadline_s blocked w fit h =
      let deadline = w.now + deadline_s in
      visit_all-Post env (DueIn Fits kind blocked deadline) (DueAtEnd Fits kind blocked deadline)
        kind deadline blocked targets (All-visit-Due Fits kind blocked deadline targets fit)
        (λ l w' h'. h') w [] (rw h tt)
