-- ===== src/Llm/Providers/Strict.antt =====
-- The flag `strict` of src/llm/providers/OpenAIChatProvider.cpp, and the schema that goes with it.
use edge_llm.Base.{◌≡◌, refl, Bool, true, false, bytes}
use edge_llm.Llm.Schema.{ResponseSchema}
use edge_llm.Tools.Json.{Json, Members, get}
use edge_llm.Tools.Write.Strict.{IsStrict}
use edge_llm.Tools.Write.Required.{write_object_schema-IsStrict}
use edge_llm.Llm.Providers.{ProviderLib}
use edge_llm.Llm.Providers.OpenAi.{OpenAiProvider, response_format}

true_of_bool :
    (N : Type 0) (b : Bool) → (let v : Json N = Json.bool b in v ≡ Json.bool true) → b ≡ true
true_of_bool N true e = refl
true_of_bool N false e = cc

module _ {F N : Type 0} (lib : ProviderLib F N) (p : OpenAiProvider) where
  -- Where a structured request to OpenAI sets strict, the schema that it carries is an object in which
  -- every object that has properties, at any depth and in arrays, requires all of them and allows no
  -- others.
  pub response_format-IsStrict :
      (schema : ResponseSchema)
      → get (bytes "strict") (get (bytes "json_schema") (response_format lib p schema))
        ≡ Json.bool true
      → (ms : Members N) × ((get
              (bytes "schema")
              (get (bytes "json_schema") (response_format lib p schema))
            ≡ Json.object ms)
          × IsStrict ms)
  unfolding response_format
  response_format-IsStrict schema e =
      (_, (refl, write_object_schema-IsStrict schema.spec Members.no_members (true_of_bool N _ e)))
