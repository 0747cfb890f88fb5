-- ===== src/Llm/Client/Answers.antt =====
-- The client of src/llm/LLMClient.cpp with the validation of src/llm/ResponseSchema.h and the
-- dispatch of src/tools/ToolRegistry.cpp.
use edge_llm.Base.{ℕ, ◌≡◌, ◌⊎◌, Bool, Option, some, List, Bytes}
use edge_llm.Core.{Status, Result}
use edge_llm.Transport.Http.{HttpRequest, HttpResponse}
use edge_llm.Llm.Messages.{Message}
use edge_llm.Llm.Retry.Send.{Client}
use edge_llm.Llm.Schema.{ResponseSchema, validate_response}
use edge_llm.Llm.Client.{Provider, Settings, ChatOptions, Environment}
use edge_llm.Llm.Client.Generate.{generate}
use edge_llm.Llm.Client.Agent.{run}
use edge_llm.Llm.Client.Validated.{answers_validated}
use edge_llm.Tools.Json.{Json}
use edge_llm.Tools.Schema.{document}
use edge_llm.Tools.Schema.Conform.{Fits}
use edge_llm.Tools.Schema.Decide.{validate_object_iff}
use edge_llm.Tools.Registry.{ToolRegistry, dispatch}

module _ {W F N : Type 0} (is_long : N → Bool) (deserialize : Bytes → Option (Json N)) where
  abbrev pub wired :
      Provider F ResponseSchema (ToolRegistry W N)
      → (HttpRequest → W → W × (Status × HttpResponse))
      → (ℕ → W → W)
      → Option (W → ℕ)
      → (W → W)
      → Environment W F ResponseSchema (ToolRegistry W N)
  wired provider send wait clock stop = record {
    provider = provider;
    send = send;
    wait = wait;
    clock = clock;
    stop = stop;
    validate = validate_response is_long deserialize;
    dispatch = dispatch is_long deserialize;
  }

  -- Whatever the service answers and the tools do, an answer that `generate` or `run` returns with
  -- success is a JSON document, or an empty text for a null document, that fits the fields of the
  -- schema.
  pub answers_fit :
      (provider : Provider F ResponseSchema (ToolRegistry W N))
      (send : HttpRequest → W → W × (Status × HttpResponse)) (wait : ℕ → W → W)
      (clock : Option (W → ℕ)) (stop : W → W) (schema : ResponseSchema) (s : Settings F)
      (o : ChatOptions F) (tools : ToolRegistry W N) (ms : List Message) (c c' : Client W)
      (json : Bytes)
      → (generate (wired provider send wait clock stop) schema s o ms c ≡ some (c', Result.ok json))
        ⊎ (run (wired provider send wait clock stop) s schema tools ms c
            ≡ some (c', Result.ok json))
      → (doc : Json N) × ((document deserialize json ≡ some doc) × Fits is_long schema.spec doc)
  unfolding validate_response
  answers_fit provider send wait clock stop schema s o tools ms c c' json h =
      (validate_object_iff is_long deserialize schema.spec json).0
        (answers_validated (wired provider send wait clock stop) schema s o tools ms c c' json h)
