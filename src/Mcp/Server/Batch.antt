-- ===== src/Mcp/Server/Batch.antt =====
-- What one POST does, and what it answers: `McpServer::handlePost` of src/mcp/McpServer.cpp.
use edge_llm.Base.{
  ◌≡◌, refl, inl, inr, Bool, false, not, ◌&&◌, Option, none, some, Bytes, Bool-cases,
}
use edge_llm.Hal.Secrets.{SecretStore}
use edge_llm.Mcp.Server.{JsonLib, McpServer, auth_required}
use edge_llm.Mcp.Server.Post.{
  process_batch, session_reply, body_reply, batch_response, post_document, handle_post,
}
use edge_llm.Mcp.Server.Effects.{Effects}
use edge_llm.Tools.Json.{Json, Items}
use edge_llm.Mcp.Server.Outcomes.{
  RepliesTo, Carries, process_one-Outcome, effects_of_Outcome, process_batch-Effects,
}

batch_response-Carries :
    {N : Type 0} (lib : JsonLib N) (rs : Items N) (session : Option Bytes)
    → Carries lib rs (session_reply session (body_reply lib (batch_response rs)))
batch_response-Carries lib Items.no_items none = (refl, (refl, refl))
batch_response-Carries lib Items.no_items (some id) = (refl, (refl, refl))
batch_response-Carries lib (Items.item r rs) none = (refl, (refl, refl))
batch_response-Carries lib (Items.item r rs) (some id) = (refl, (refl, refl))

module _ {W S N : Type 0} (lib : JsonLib N) (o : SecretStore S) where
  post_document-Effects :
      (doc : Option (Json N)) (s : McpServer W S N) → Effects lib o s (post_document lib o doc s).0
  post_document-Effects none s = Effects.none_left
  post_document-Effects (some (Json.array Items.no_items)) s = Effects.none_left
  post_document-Effects (some (Json.array (Items.item v vs))) s =
      (process_batch-Effects lib o (Items.item v vs) none s).0
  post_document-Effects (some doc) s = effects_of_Outcome lib o (process_one-Outcome lib o doc s)

  -- Whatever a host posts, with a token or without, the server changes by permitted effects only. A
  -- tool's handler runs only if the tool is not a write that is denied; the store is written only if
  -- writes to it are enabled, and is else only read; the other changes are a resource's or a prompt's
  -- handler and a new session.
  pub handle_post-Effects :
      (body : Bytes) (authorized : Bool) (s : McpServer W S N)
      → Effects lib o s (handle_post lib o body authorized s).0
  unfolding handle_post
  handle_post-Effects body authorized s = elim (Bool-cases (auth_required s && not authorized)) [
    | inl y ↦ rw y Effects.none_left
    | inr n ↦ rw n (post_document-Effects (lib.deserialize body) s)
  ]

  -- An accepted POST of a batch with a request at least is answered by one response for each request
  -- that is no notification, in their order, each a response of JSON-RPC 2.0 with the id of its request
  -- and a result or an error, and by 202 and no body if there is none.
  pub handle_post-RepliesTo :
      (body : Bytes) (authorized : Bool) (s : McpServer W S N) (v : Json N) (vs : Items N)
      → (auth_required s && not authorized) ≡ false
      → lib.deserialize body ≡ some (Json.array (Items.item v vs))
      → (rs : Items N) × (RepliesTo (Items.item v vs) rs
          × Carries lib rs (handle_post lib o body authorized s).1)
  unfolding handle_post
  handle_post-RepliesTo body authorized s v vs a d =
      rw (a, d)
        (let out = process_batch lib o (Items.item v vs) none s in
          (
            out.1.0,
            (
              (process_batch-Effects lib o (Items.item v vs) none s).1,
              batch_response-Carries lib out.1.0 out.1.1,
            ),
          ))
