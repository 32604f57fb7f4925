-- ===== src/Gateway/Run/Probe.antt =====
-- The half-open probe that no one settles: a run whose probe ends in an error that is not recorded on
-- the breaker, or in a cancellation.
use novax_ai_assignment.Base.{
  ℕ, zero, suc, ◌+◌, ◌-◌, ◌<◌, min, String, ◌≡◌, refl, ap, ◌∙◌, inl, inr, true, false, some, List,
  eq_refl, arith, leb, is_some, contains, Bool-cases,
}
use novax_ai_assignment.Gateway.Errors.{ProviderError, kind_retryable}
use novax_ai_assignment.Gateway.Breaker.{
  BreakerState, BreakerRegistry, CircuitBreaker, state, allow, get, put,
}
use novax_ai_assignment.Gateway.Breaker.Stuck.{allow_all, refusals, allow_all_busy}
use novax_ai_assignment.Gateway.Catalog
use novax_ai_assignment.Gateway.Catalog.{ModelKind, ProviderConfig, ModelSpec}
use novax_ai_assignment.Gateway.Records.{AttemptRecord, trips_breaker, is_bad_request}
use novax_ai_assignment.Gateway.Run
use novax_ai_assignment.Gateway.Run.{
  Env, World, Reply, Answer, Next, stop, again, move_on, ask, admit, on_error, after_reply, attempt,
  next_round, rounds, serve, visit, wait, note,
}

-- A reply that leaves the breaker as it is, and that is not tried again.
abbrev pub Unsettled : {T : Type 0} → Reply T → Type 0
Unsettled (Reply.raised e) = (trips_breaker e.kind ≡ false) × (kind_retryable e.kind ≡ false)
Unsettled Reply.cancelled = Unit
Unsettled _ = ⊥

pub get-put_self :
    (r : BreakerRegistry) (id : String) (b : CircuitBreaker) → get (put r id b) id ≡ b
unfolding get put
get-put_self r id b = ground (arith, eq_refl id)

module _ {T : Type 0} (env : Env T)
    (alone : (n : ℕ) (r : BreakerRegistry) → env.others n r ≡ r) where
  registry-note : (w : World) (a : AttemptRecord) → (note env w a).registry ≡ w.registry
  unfolding note
  registry-note w a = alone w.awaits w.registry

  registry-on_error :
      (kind : ModelKind) (spec : ModelSpec) (e : ProviderError) (n most deadline started : ℕ)
      (w : World) (l : List AttemptRecord)
      → Unsettled {T = T} (Reply.raised e)
      → (on_error env kind spec e n most deadline started w l).1.registry ≡ w.registry
  unfolding on_error Run.update_breaker Run.should_retry
  registry-on_error kind spec e n most deadline started w l u =
      rw (u.0) (elim (Bool-cases (is_bad_request e.kind)) [
        | inl bad ↦ rw bad (registry-note w _)
        | inr other ↦ rw (other, u.1) (registry-note w _)
      ])

  registry-after_reply :
      (kind : ModelKind) (spec : ModelSpec) (n most deadline started : ℕ) (l : List AttemptRecord)
      (w : World) (r : Reply T)
      → Unsettled r
      → (after_reply env kind spec n most deadline started l w r).1.registry ≡ w.registry
  unfolding after_reply
  registry-after_reply kind spec n most deadline started l w (Reply.raised e) u =
      registry-on_error kind spec e n most deadline started w l u
  registry-after_reply kind spec n most deadline started l w Reply.cancelled u = registry-note w _
  registry-after_reply kind spec n most deadline started l w (Reply.returned x) u = absurd u
  registry-after_reply kind spec n most deadline started l w Reply.timed_out u = absurd u
  registry-after_reply kind spec n most deadline started l w Reply.crashed u = absurd u

  abbrev Over : Next T → Type 0
  Over (again l) = ⊥
  Over _ = Unit

  on_error-Over :
      (kind : ModelKind) (spec : ModelSpec) (e : ProviderError) (n most deadline started : ℕ)
      (w : World) (l : List AttemptRecord)
      → Unsettled {T = T} (Reply.raised e)
      → Over (on_error env kind spec e n most deadline started w l).0
  unfolding on_error Run.should_retry
  on_error-Over kind spec e n most deadline started w l u =
      elim (Bool-cases (is_bad_request e.kind)) [
        | inl bad ↦ rw bad tt
        | inr other ↦ rw (other, u.1) tt
      ]

  after_reply-Over :
      (kind : ModelKind) (spec : ModelSpec) (n most deadline started : ℕ) (l : List AttemptRecord)
      (w : World) (r : Reply T)
      → Unsettled r
      → Over (after_reply env kind spec n most deadline started l w r).0
  unfolding after_reply
  after_reply-Over kind spec n most deadline started l w (Reply.raised e) u =
      on_error-Over kind spec e n most deadline started w l u
  after_reply-Over kind spec n most deadline started l w Reply.cancelled u = tt
  after_reply-Over kind spec n most deadline started l w (Reply.returned x) u = absurd u
  after_reply-Over kind spec n most deadline started l w Reply.timed_out u = absurd u
  after_reply-Over kind spec n most deadline started l w Reply.crashed u = absurd u

  next_round-Over :
      (r : Next T × World) (f : World → List AttemptRecord → Next T × World)
      → Over r.0
      → next_round env r f ≡ r
  unfolding next_round
  next_round-Over (stop e, w) f h = refl
  next_round-Over (move_on l, w) f h = refl
  next_round-Over (again l, w) f h = absurd h

  -- The provider answers in time, and the answer is unsettled.
  pub record Answers (spec : ModelSpec) (cfg : ProviderConfig) (deadline : ℕ) (w : World)
      : Type 0 where
    pub reply : Reply T
    pub elapsed : ℕ
    pub invoked : env.invoke spec w.awaits ≡ record { elapsed = elapsed; reply = reply }
    pub in_time : elapsed < min cfg.timeout_s (deadline - w.now)
    pub unsettled : Unsettled reply

  module _ (kind : ModelKind) (spec : ModelSpec) (cfg : ProviderConfig) (deadline : ℕ) where
    ask-reply :
        (w : World) (a : Answers spec cfg deadline w)
        → (ask env w spec (min cfg.timeout_s (deadline - w.now))).0 ≡ a.reply
    unfolding ask
    ask-reply w a = ground (arith, a.invoked, a.in_time)

    ask-registry : (w : World) (timeout : ℕ) → (ask env w spec timeout).1.registry ≡ w.registry
    unfolding ask
    ask-registry w timeout = elim (Bool-cases (leb timeout (env.invoke spec w.awaits).elapsed)) [
      | inl late ↦ rw late (alone w.awaits w.registry)
      | inr early ↦ rw early (alone w.awaits w.registry)
    ]

    attempt-unsettled :
        (n : ℕ) (w : World) (l : List AttemptRecord) (a : Answers spec cfg deadline w)
        → ((attempt env kind spec cfg deadline n w l).1.registry ≡ w.registry)
          × Over (attempt env kind spec cfg deadline n w l).0
    unfolding attempt
    attempt-unsettled n w l a =
        let late : leb deadline w.now ≡ false = ground (arith, a.in_time) in
        let r = ask env w spec (min cfg.timeout_s (deadline - w.now)) in
        rw (late, ask-reply w a)
          (
            registry-after_reply kind spec n cfg.max_attempts deadline w.now l r.1 a.reply
                  a.unsettled
                ∙ ask-registry w (min cfg.timeout_s (deadline - w.now)),
            after_reply-Over kind spec n cfg.max_attempts deadline w.now l r.1 a.reply a.unsettled,
          )

    rounds-unsettled :
        (k n : ℕ) (w : World) (l : List AttemptRecord)
        → Answers spec cfg deadline w
        → (rounds env kind spec cfg deadline k n w l).1.registry ≡ w.registry
    unfolding rounds
    rounds-unsettled zero n w l a = refl
    rounds-unsettled (suc k) n w l a =
        let (same, over) = attempt-unsettled n w l a in
        rw
          (next_round-Over (attempt env kind spec cfg deadline n w l)
            (rounds env kind spec cfg deadline k (n + 1)) over)
          same

  -- The world after the admission of a probe.
  abbrev pub probing : ModelSpec → World → World
  probing spec w = record w {
    registry = put w.registry spec.id (record (get w.registry spec.id) { probe_in_flight = true });
  }

  -- The target's turn, when its breaker is half-open with no probe out and the probe's answer is
  -- unsettled.
  pub record ProbeGoesWrong (blocked : List String) (spec : ModelSpec) (deadline : ℕ) (w : World)
      : Type 0 where
    pub cfg : ProviderConfig
    pub configured : Catalog.get spec.provider env.catalog.providers ≡ some cfg
    pub eligible : contains blocked spec.id ≡ false
    pub enabled : env.provider spec.provider ≡ true
    pub half_open : state (get w.registry spec.id) w.now ≡ BreakerState.half_open
    pub free : (get w.registry spec.id).probe_in_flight ≡ false
    pub answers : Answers spec cfg deadline (probing spec w)

  module _ (kind : ModelKind) (blocked : List String) (spec : ModelSpec) (deadline : ℕ) where
    admit-probe :
        (w : World) (l : List AttemptRecord) (p : ProbeGoesWrong blocked spec deadline w)
        → admit env kind blocked spec w l ≡ (true, l, probing spec w)
    unfolding admit allow
    admit-probe w l p = rw (p.eligible, p.enabled, p.half_open, p.free)

    visit-registry :
        (w : World) (l : List AttemptRecord) (p : ProbeGoesWrong blocked spec deadline w)
        → (visit env kind blocked deadline spec w l).1.registry ≡ (probing spec w).registry
    unfolding visit serve
    visit-registry w l p =
        let e = admit-probe w l p in
        rw (ap (λ t. t.0) e, p.configured, serve, ap (λ t. t.1) e, ap (λ t. t.2) e)
          (rounds-unsettled kind spec p.cfg deadline p.cfg.max_attempts 1 (probing spec w) l
            p.answers)

    is_open :
        (w : World)
        → state (get w.registry spec.id) w.now ≡ BreakerState.half_open
        → is_some (get w.registry spec.id).opened_at ≡ true
    unfolding state
    is_open w h = ground arith

    -- No other request touching the breakers, a half-open breaker whose probe ends in
    -- `ProviderBadRequest`, in `ProviderModelNotFound` or in a cancellation refuses every later caller,
    -- at whatever times they come, until a success or failure of its model is recorded.
    pub visit-refuses :
        (w : World) (l : List AttemptRecord) (times : List ℕ)
        → ProbeGoesWrong blocked spec deadline w
        → allow_all (get (visit env kind blocked deadline spec w l).1.registry spec.id) times
          ≡ refusals times
    visit-refuses w l times p =
        rw (visit-registry w l p, get-put_self w.registry spec.id _)
          (allow_all_busy _ times (is_open w p.half_open) refl)
