-- ===== src/Gateway/Tests.antt =====
-- A catalogue of a local and a remote provider, a gateway over it, and the theorems at them.
use novax_ai_assignment.Base.{
  ℕ, ◌+◌, ◌≤◌, String, ◌≡◌, refl, Bool, true, false, Option, none, some, List, [], ◌∷◌, ◌==◌,
  length, arith, ok, All, if◌then◌else◌,
}
use novax_ai_assignment.Gateway.Errors.{ErrorKind, kind_retryable}
use novax_ai_assignment.Gateway.Breaker.{
  BackoffPolicy, BreakerState, CircuitBreaker, BreakerRegistry, fresh, get, put, state,
}
use novax_ai_assignment.Gateway.Breaker
use novax_ai_assignment.Gateway.Breaker.Laws.{Call, run, state_of_history, state-run}
use novax_ai_assignment.Gateway.Breaker.Stuck.{allow_all, refusals}
use novax_ai_assignment.Gateway.Catalog
use novax_ai_assignment.Gateway.Catalog.{
  ModelKind, ProviderKind, ProviderConfig, ModelSpec, Catalog,
}
use novax_ai_assignment.Gateway.Catalog.Validate
use novax_ai_assignment.Gateway.Catalog.Resolve.{resolve}
use novax_ai_assignment.Gateway.Catalog.Laws.{IsSound, resolve-IsSound}
use novax_ai_assignment.Gateway.Run
use novax_ai_assignment.Gateway.Run.{Env, World, Reply, Answer, visit}
use novax_ai_assignment.Gateway.Run.Results.{EndsWell, run-EndsWell}
use novax_ai_assignment.Gateway.Run.Budget.{budget, sent-run-le-budget}
use novax_ai_assignment.Gateway.Run.Probe.{ProbeGoesWrong, visit-refuses}
use novax_ai_assignment.Gateway.Stream.{Pulled, Timed, stream_chat}
use novax_ai_assignment.Gateway.Stream.Shape.{IsStream, stream_chat-IsStream}
use novax_ai_assignment.Gateway.Calls.{ChatMessage, ChatResult, Gateway, chat}
use novax_ai_assignment.Gateway.Calls.Egress.{LocalRequest, chat-LocalRequest}
use novax_ai_assignment.Gateway.Records.{ChatParams, trips_breaker}

abbrev pub provider_of : Bool → ProviderConfig
provider_of egress = record {
  kind = ProviderKind.ollama;
  base_url = some "http://models";
  base_url_env = none;
  api_key_env = none;
  send_input_type = false;
  timeout_s = 20;
  max_attempts = 2;
  data_egress = egress;
}

abbrev pub spec_of : String → String → ModelSpec
spec_of id provider = record {
  id = id;
  provider = provider;
  provider_model = id;
  kind = ModelKind.chat;
  context_window = none;
  dimensions = none;
  input_usd_per_mtok = 3;
  output_usd_per_mtok = 15;
  supports_temperature = true;
  min_relevance = none;
}

abbrev pub small : ModelSpec
small = spec_of "small" "local"

abbrev pub large : ModelSpec
large = spec_of "large" "cloud"

abbrev pub embedder : ModelSpec
embedder = record small { id = "embedder"; kind = ModelKind.embedding; dimensions = some 8 }

abbrev pub catalog : Catalog
catalog = record {
  providers = ("local", provider_of false) ∷ ("cloud", provider_of true) ∷ [];
  models = small ∷ large ∷ embedder ∷ [];
  routes = ("auto", "large" ∷ "small" ∷ []) ∷ ("vectors", "embedder" ∷ []) ∷ [];
  defaults = record { chat = "auto"; embedding = "vectors" };
  selectable = "small" ∷ [];
}

abbrev pub result : ChatResult
result = record {
  content = "hello";
  usage = record { prompt_tokens = 4; completion_tokens = 2; estimated = false };
  finish_reason = none;
}

-- The remote model is unavailable and the local one answers.
abbrev answer : ModelSpec → ℕ → Answer ChatResult
answer spec n =
    if spec.id == "small" then record { elapsed = 3; reply = Reply.returned result } else record {
      elapsed = 1;
      reply = Reply.raised (record {
        kind = ErrorKind.unavailable;
        provider = "cloud";
        message = "down";
        status_code = some 503;
      });
    }

abbrev refusing : ModelSpec → ℕ → Answer ChatResult
refusing spec n = record {
  elapsed = 1;
  reply = Reply.raised (record {
    kind = ErrorKind.bad_request;
    provider = "local";
    message = "too long";
    status_code = some 400;
  });
}

abbrev env_with : (ModelSpec → ℕ → Answer ChatResult) → Env ChatResult
env_with invoke = record {
  catalog = catalog;
  backoff = record { base_s = 1; cap_s = 8 };
  provider = λ p. true;
  invoke = invoke;
  usage_of = λ (r : ChatResult). r.usage;
  uniform = λ n top. top;
  pause = λ n. 0;
  sleep_cancelled = λ n. false;
  others = λ n r. r;
}

-- The breaker of the small model has failed at time 0 and is half-open at time 100.
abbrev half_open : CircuitBreaker
half_open = record {
  failure_threshold = 5;
  cooldown_s = 30;
  failures = 5;
  opened_at = some 0;
  probe_in_flight = false;
}

abbrev pub world : World
world = record {
  now = 100;
  awaits = 0;
  registry = record {
    threshold = 5;
    cooldown = 30;
    breakers = λ k. if "small" == k then some half_open else none;
  };
  sent = [];
  recorded = [];
}

abbrev pub gateway : Gateway
gateway = record {
  catalog = catalog;
  backoff = record { base_s = 1; cap_s = 8 };
  request_deadline_s = 60;
  provider = λ p. true;
  uniform = λ n top. top;
  pause = λ n. 0;
  sleep_cancelled = λ n. false;
  others = λ n r. r;
}

state-run_example :
    state (run (fresh 2 30) (Call.fails 1 ∷ Call.fails 5 ∷ Call.allows 7 ∷ [])) 20
    ≡ state_of_history 2 30 (Call.fails 1 ∷ Call.fails 5 ∷ Call.allows 7 ∷ []) 20
state-run_example =
    state-run 2 30 (Call.fails 1 ∷ Call.fails 5 ∷ Call.allows 7 ∷ []) 20 (omega arith)

half_open-state : state half_open 100 ≡ BreakerState.half_open
unfolding state
half_open-state = refl

catalog-is_valid : Validate.validate catalog ≡ ok tt
unfolding Validate.validate Validate.distinct Validate.ids Validate.check_models Catalog.get
    Validate.check_routes Catalog.find_model Validate.check_selectable Validate.check_default
catalog-is_valid = refl

resolve-IsSound_example : IsSound ModelKind.chat (resolve catalog (some "auto") ModelKind.chat)
resolve-IsSound_example = resolve-IsSound catalog (some "auto") ModelKind.chat catalog-is_valid

run-EndsWell_example :
    EndsWell []
      (100 + 60)
      (Run.run (env_with answer) ModelKind.chat (large ∷ small ∷ []) 60 [] world).0
      (Run.run (env_with answer) ModelKind.chat (large ∷ small ∷ []) 60 [] world).1
run-EndsWell_example =
    run-EndsWell (env_with answer) ModelKind.chat (large ∷ small ∷ []) 60 [] world

sent-run-le-budget_example :
    length (Run.run (env_with answer) ModelKind.chat (large ∷ small ∷ []) 60 [] world).1.sent
    ≤ 0 + budget catalog (large ∷ small ∷ [])
sent-run-le-budget_example =
    sent-run-le-budget (env_with answer) ModelKind.chat (large ∷ small ∷ []) 60 [] world

abbrev IsSmall : ModelSpec → Type 0
IsSmall spec = spec.id ≡ "small"

probe : ProbeGoesWrong (env_with refusing) (λ n r. refl) [] small 160 world
unfolding Breaker.get Breaker.state Catalog.get
probe = record {
  cfg = provider_of false;
  configured = refl;
  eligible = refl;
  enabled = refl;
  half_open = refl;
  free = refl;
  answers = record {
    reply = (refusing small 0).reply;
    elapsed = 1;
    invoked = refl;
    in_time = ground arith;
    unsettled = unfold kind_retryable trips_breaker in (refl, refl);
  };
}

visit-refuses_example :
    allow_all
      (get (visit (env_with refusing) ModelKind.chat [] 160 small world []).1.registry "small")
      (500 ∷ 9000 ∷ [])
    ≡ refusals (500 ∷ 9000 ∷ [])
visit-refuses_example =
    visit-refuses (env_with refusing) (λ n r. refl) ModelKind.chat [] small 160 world []
      (500 ∷ 9000 ∷ []) probe

abbrev pub chats : String → Option (String → List ChatMessage → ChatParams → ℕ → Answer ChatResult)
chats provider =
    some (λ model messages params n. record { elapsed = 3; reply = Reply.returned result })

chat-LocalRequest_example :
    All
      (LocalRequest catalog)
      (chat gateway chats
        (some "auto")
        (record { role = "user"; content = "hi" } ∷ [])
        (record { temperature = none; max_tokens = 300 })
        false
        world).1.sent
chat-LocalRequest_example =
    chat-LocalRequest gateway chats (some "auto") (record { role = "user"; content = "hi" } ∷ [])
      (record { temperature = none; max_tokens = 300 }) world refl

abbrev pub streams : ModelSpec → ℕ → List Timed
streams spec n =
    record { elapsed = 2; pulled = Pulled.delta "hel" }
    ∷ record { elapsed = 1; pulled = Pulled.delta "lo" }
    ∷ record {
      elapsed = 1;
      pulled =
          Pulled.final (record { prompt_tokens = 4; completion_tokens = 2; estimated = false })
            none;
    }
    ∷ []

stream_chat-IsStream_example :
    IsStream
      (stream_chat
        (env_with answer)
        streams
        (record { role = "user"; content = "hi" } ∷ [])
        30
        (large ∷ small ∷ [])
        ("large" ∷ [])
        60
        world).0
stream_chat-IsStream_example =
    stream_chat-IsStream (env_with answer) streams (record { role = "user"; content = "hi" } ∷ [])
      30 (large ∷ small ∷ []) ("large" ∷ []) 60 world
