-- ===== src/Gateway/Stream/Shape.antt =====
-- The order of the events of `stream_chat`.
use novax_ai_assignment.Base.{
  ℕ, zero, suc, ◌+◌, String, ◌≡◌, refl, inl, inr, Bool, true, false, Option, none, some, List, [],
  ◌∷◌, leb, Bool-cases,
}
use novax_ai_assignment.Gateway.Errors.{ProviderError}
use novax_ai_assignment.Gateway.Catalog
use novax_ai_assignment.Gateway.Catalog.{ModelKind, ProviderConfig, ModelSpec}
use novax_ai_assignment.Gateway.Records.{AttemptRecord}
use novax_ai_assignment.Gateway.Run
use novax_ai_assignment.Gateway.Run.{Env, World, Next, admit, on_error}
use novax_ai_assignment.Gateway.Calls.{ChatMessage}
use novax_ai_assignment.Gateway.Stream
use novax_ai_assignment.Gateway.Stream.{
  Timed, StreamEvent, started, shown, completed, stopped, of_gateway, provider_error_mid_stream,
  Streamed, closed, raised, again, move_on, Finish, done, erred, left, crashed, event_list,
  from_next, on_stream_error, after_stream, stream_attempt, next_try, stream_rounds, stream_serve,
  stream_visit, next_model, stream_all, stream_chat, relay, first_item,
}

-- What follows the start of a model's answer: its text, and one end, of the same model or by an error.
abbrev pub IsAnswer : ModelSpec → List StreamEvent → Type 0
IsAnswer spec (shown s ∷ events) = IsAnswer spec events
IsAnswer spec (completed model usage reason attempts ∷ []) = model ≡ spec
IsAnswer spec (stopped provider_error_mid_stream true attempts ∷ []) = Unit
IsAnswer spec _ = ⊥

-- The start of an answer that breaks off.
abbrev pub IsText : List StreamEvent → Type 0
IsText [] = Unit
IsText (shown s ∷ events) = IsText events
IsText _ = ⊥

-- One answer of one model, or one failure before any text; where an exception passes through, nothing
-- or the beginning of an answer.
abbrev pub IsStream : Streamed → Type 0
IsStream (closed (started spec fallback ∷ events)) = IsAnswer spec events
IsStream (closed (stopped (of_gateway code) false attempts ∷ [])) = Unit
IsStream (raised []) = Unit
IsStream (raised (started spec fallback ∷ events)) = IsText events
IsStream _ = ⊥

-- The same of a part that may also have shown nothing and goes on.
abbrev pub IsPart : Streamed → Type 0
IsPart (again attempts) = Unit
IsPart (move_on attempts) = Unit
IsPart (closed events) = IsStream (closed events)
IsPart (raised events) = IsStream (raised events)

event_list-IsAnswer :
    (spec : ModelSpec) (deltas : List String) (end : List StreamEvent)
    → IsAnswer spec end
    → IsAnswer spec (event_list deltas end)
unfolding event_list
event_list-IsAnswer spec [] end h = h
event_list-IsAnswer spec (s ∷ deltas) end h = event_list-IsAnswer spec deltas end h

event_list-IsText : (deltas : List String) → IsText (event_list deltas [])
unfolding event_list
event_list-IsText [] = tt
event_list-IsText (s ∷ deltas) = event_list-IsText deltas

module _ {T : Type 0} (env : Env T) (streams : ModelSpec → ℕ → List Timed)
    (messages : List ChatMessage) (idle_timeout_s : ℕ) where
  from_next-IsPart : (next : Next T) → IsPart (from_next env streams messages idle_timeout_s next)
  unfolding from_next
  from_next-IsPart (Run.stop (Run.Ended.failed code attempts)) = tt
  from_next-IsPart (Run.stop _) = tt
  from_next-IsPart (Run.again attempts) = tt
  from_next-IsPart (Run.move_on attempts) = tt

  on_stream_error-IsPart :
      (spec : ModelSpec) (err : ProviderError) (n most deadline began : ℕ) (ttft : Option ℕ)
      (w : World) (attempts : List AttemptRecord) (deltas : List String)
      → IsPart
          (on_stream_error env streams messages idle_timeout_s spec err n most deadline began ttft w
            attempts deltas).0
  unfolding on_stream_error
  on_stream_error-IsPart spec err n most deadline began ttft w attempts [] =
      from_next-IsPart (on_error env ModelKind.chat spec err n most deadline began w attempts).0
  on_stream_error-IsPart spec err n most deadline began ttft w attempts (s ∷ deltas) =
      event_list-IsAnswer spec (s ∷ deltas) _ tt

  opening-IsPart :
      (spec : ModelSpec) (attempts : List AttemptRecord) (deltas : List String)
      → IsPart (raised (Stream.opening env streams messages idle_timeout_s spec attempts deltas))
  unfolding Stream.opening
  opening-IsPart spec attempts [] = tt
  opening-IsPart spec attempts (s ∷ deltas) = event_list-IsText (s ∷ deltas)

  after_stream-IsPart :
      (spec : ModelSpec) (n most deadline began : ℕ) (ttft : Option ℕ)
      (attempts : List AttemptRecord) (w : World) (deltas : List String) (f : Finish)
      → IsPart
          (after_stream env streams messages idle_timeout_s spec n most deadline began ttft attempts
            w deltas f).0
  unfolding after_stream
  after_stream-IsPart spec n most deadline began ttft attempts w deltas (done usage reason) =
      event_list-IsAnswer spec deltas _ refl
  after_stream-IsPart spec n most deadline began ttft attempts w deltas (erred err) =
      on_stream_error-IsPart spec err n most deadline began ttft w attempts deltas
  after_stream-IsPart spec n most deadline began ttft attempts w deltas left =
      opening-IsPart spec attempts deltas
  after_stream-IsPart spec n most deadline began ttft attempts w deltas crashed =
      opening-IsPart spec attempts deltas

  stream_attempt-IsPart :
      (spec : ModelSpec) (cfg : ProviderConfig) (deadline n : ℕ) (w : World)
      (attempts : List AttemptRecord)
      → IsPart (stream_attempt env streams messages idle_timeout_s spec cfg deadline n w attempts).0
  unfolding stream_attempt
  stream_attempt-IsPart spec cfg deadline n w attempts = elim (Bool-cases (leb deadline w.now)) [
    | inl late ↦ rw late tt
    | inr early ↦
        rw early (after_stream-IsPart spec n cfg.max_attempts deadline w.now _ attempts _ _ _)
  ]

  next_try-IsPart :
      (r : Streamed × World) (rest : World → List AttemptRecord → Streamed × World)
      → IsPart r.0
      → ((w : World) (l : List AttemptRecord) → IsPart (rest w l).0)
      → IsPart (next_try env streams messages idle_timeout_s r rest).0
  unfolding next_try
  next_try-IsPart (again l, w) rest h k = k w l
  next_try-IsPart (closed events, w) rest h k = h
  next_try-IsPart (raised events, w) rest h k = h
  next_try-IsPart (move_on l, w) rest h k = h

  stream_rounds-IsPart :
      (spec : ModelSpec) (cfg : ProviderConfig) (deadline k n : ℕ) (w : World)
      (attempts : List AttemptRecord)
      → IsPart
          (stream_rounds env streams messages idle_timeout_s spec cfg deadline k n w attempts).0
  unfolding stream_rounds
  stream_rounds-IsPart spec cfg deadline zero n w attempts = tt
  stream_rounds-IsPart spec cfg deadline (suc k) n w attempts =
      next_try-IsPart
        (stream_attempt env streams messages idle_timeout_s spec cfg deadline n w attempts)
        (stream_rounds env streams messages idle_timeout_s spec cfg deadline k (n + 1))
        (stream_attempt-IsPart spec cfg deadline n w attempts)
        (stream_rounds-IsPart spec cfg deadline k (n + 1))

  stream_visit-IsPart :
      (deadline : ℕ) (spec : ModelSpec) (r : Bool × List AttemptRecord × World)
      → IsPart (stream_visit env streams messages idle_timeout_s deadline spec r).0
  unfolding stream_visit
  stream_visit-IsPart deadline spec (false, attempts, w) = tt
  stream_visit-IsPart deadline spec (true, attempts, w) =
      go (Catalog.get spec.provider env.catalog.providers)
    where
      go :
          (o : Option ProviderConfig)
          → IsPart (stream_serve env streams messages idle_timeout_s spec deadline w attempts o).0
      go none = unfold stream_serve in tt
      go (some cfg) =
          unfold stream_serve in
          stream_rounds-IsPart spec cfg deadline cfg.max_attempts 1 w attempts

  next_model-IsStream :
      (r : Streamed × World) (rest : World → List AttemptRecord → Streamed × World)
      → IsPart r.0
      → ((w : World) (l : List AttemptRecord) → IsStream (rest w l).0)
      → IsStream (next_model env streams messages idle_timeout_s r rest).0
  unfolding next_model
  next_model-IsStream (again l, w) rest h k = k w l
  next_model-IsStream (move_on l, w) rest h k = k w l
  next_model-IsStream (closed events, w) rest h k = h
  next_model-IsStream (raised events, w) rest h k = h

  stream_all-IsStream :
      (blocked : List String) (deadline : ℕ) (specs : List ModelSpec) (w : World)
      (attempts : List AttemptRecord)
      → IsStream
          (stream_all env streams messages idle_timeout_s blocked deadline specs w attempts).0
  unfolding stream_all
  stream_all-IsStream blocked deadline [] w attempts = tt
  stream_all-IsStream blocked deadline (spec ∷ specs) w attempts =
      next_model-IsStream
        (stream_visit env streams messages idle_timeout_s deadline spec
          (admit env ModelKind.chat blocked spec w attempts))
        (stream_all env streams messages idle_timeout_s blocked deadline specs)
        (stream_visit-IsPart deadline spec (admit env ModelKind.chat blocked spec w attempts))
        (stream_all-IsStream blocked deadline specs)

  -- Whatever the providers stream, a stream that ends shows either one failure and no text, or the
  -- start of one model, its text and one end: its own completion or the failure in the middle.
  -- Where the client goes away or another exception passes through, the events so far are none or the beginning of one such answer.
  pub stream_chat-IsStream :
      (targets : List ModelSpec) (blocked : List String) (deadline_s : ℕ) (w : World)
      → IsStream (stream_chat env streams messages idle_timeout_s targets blocked deadline_s w).0
  unfolding stream_chat
  stream_chat-IsStream targets blocked deadline_s w =
      stream_all-IsStream blocked (w.now + deadline_s) targets w []
