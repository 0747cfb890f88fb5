-- ===== src/Mcp/Server/Outcomes.antt =====
-- What comes of one request and of a batch: `processOne` of src/mcp/McpServer.cpp.
use edge_llm.Base.{
  ◌≡◌, refl, ◌⊎◌, inl, inr, Bool, true, false, Option, none, some, List, Bytes, bytes, [], ◌∷◌,
  if◌then◌else◌, beq, arith, Bool-cases, starts_with, ap,
}
use edge_llm.Hal.Secrets.{SecretStore}
use edge_llm.Mcp.Server.{JsonLib, McpServer, McpReply, result_reply, error_reply}
use edge_llm.Mcp.Server.Calls.{Answer, answer}
use edge_llm.Mcp.Server.Post.{
  Processed, silent, responded, tools_list, templates_list, prompts_list, method_answer,
  process_method, process_one, process_batch, last_session, with_response,
}
use edge_llm.Mcp.Server.Effects.{IsReply, Effects, Effects_trans, Good, if-Good}
use edge_llm.Mcp.Server.Safe.{initialize-Good, tools_call-Good, resources_list-Good}
use edge_llm.Mcp.Server.SafeFetch.{resources_read-Good, prompts_get-Good}
use edge_llm.Tools.Json.{Json, Items, Members, get, is_null}
use edge_llm.Tools.Args.{as_text}

module _ {N : Type 0} where
  -- A request without an id, or with a method of notifications.
  abbrev pub IsNotification : Json N → Type 0
  IsNotification req =
      (is_null (get (bytes "id") req) ≡ true)
      ⊎ ((m : Bytes) × ((as_text (get (bytes "method") req) ≡ some m)
            × (starts_with (bytes "notifications/") m ≡ true)))

  abbrev names : Members N → List Bytes
  names Members.no_members = []
  names (Members.member k v ms) = k ∷ names ms

  abbrev member_names : Json N → List Bytes
  member_names (Json.object ms) = names ms
  member_names v = []

  -- A response of JSON-RPC 2.0 to the request of an id: the version, the id, and a result or an error.
  pub record IsResponse (id r : Json N) : Type 0 where
    pub version : get (bytes "jsonrpc") r ≡ Json.text (bytes "2.0")
    pub same_id : get (bytes "id") r ≡ id
    pub members :
        (member_names r ≡ bytes "jsonrpc" ∷ bytes "id" ∷ bytes "result" ∷ [])
        ⊎ (member_names r ≡ bytes "jsonrpc" ∷ bytes "id" ∷ bytes "error" ∷ [])

  null_or_id : (id : Json N) → (if is_null id then Json.null else id) ≡ id
  null_or_id Json.null = refl
  null_or_id (Json.bool b) = refl
  null_or_id (Json.number n) = refl
  null_or_id (Json.text s) = refl
  null_or_id (Json.array vs) = refl
  null_or_id (Json.object ms) = refl

  IsReply-IsResponse : (lib : JsonLib N) (id r : Json N) → IsReply lib id r → IsResponse id r
  unfolding result_reply error_reply
  IsReply-IsResponse lib id r (IsReply.a_result v) = record {
    version = refl;
    same_id = refl;
    members = inl refl;
  }
  IsReply-IsResponse lib id r (IsReply.an_error code message) = record {
    version = refl;
    same_id = null_or_id id;
    members = inr refl;
  }

  -- The responses to a batch: one for each request that is no notification, in their order and under
  -- their ids.
  pub data RepliesTo : Items N → Items N → Type 0 where
    done : RepliesTo Items.no_items Items.no_items
    notified :
        {req : Json N} {reqs rs : Items N}
        → IsNotification req
        → RepliesTo reqs rs
        → RepliesTo (Items.item req reqs) rs
    replied :
        {req r : Json N} {reqs rs : Items N}
        → (IsNotification req → ⊥)
        → IsResponse (get (bytes "id") req) r
        → RepliesTo reqs rs
        → RepliesTo (Items.item req reqs) (Items.item r rs)

  -- The reply that carries some responses, without its session.
  abbrev pub Carries : JsonLib N → Items N → McpReply → Type 0
  Carries lib Items.no_items reply =
      (reply.body ≡ []) × ((reply.http_status ≡ 202) × (reply.is_notification_only ≡ true))
  Carries lib (Items.item r rs) reply =
      (reply.body ≡ lib.serialize (Json.array (Items.item r rs)))
      × ((reply.http_status ≡ 200) × (reply.is_notification_only ≡ false))

abbrev notifies : Option Bytes → Bool
notifies none = false
notifies (some m) = starts_with (bytes "notifications/") m

not_notification :
    {N : Type 0} (req : Json N) (m : Bytes)
    → as_text (get (bytes "method") req) ≡ some m
    → starts_with (bytes "notifications/") m ≡ false
    → is_null (get (bytes "id") req) ≡ false
    → IsNotification req
    → ⊥
not_notification req m q n k (inl h) = ground (arith, h, k)
not_notification req m q n k (inr (m', (e, h))) = ground (arith, ap notifies e, ap notifies q, h, n)

module _ {W S N : Type 0} (lib : JsonLib N) (o : SecretStore S) where
  listed-Good :
      (id r : Json N) (s : McpServer W S N) → IsReply lib id r → Good lib o id s (answer s r)
  listed-Good id r s h = record { effects = Effects.none_left; reply = h }

  method_answer-Good :
      (m : Bytes) (id params : Json N) (s : McpServer W S N)
      → Good lib o id s (method_answer lib o m id params s)
  unfolding method_answer tools_list templates_list prompts_list
  method_answer-Good m id params s =
      if-Good lib o (beq m (bytes "initialize")) (λ _. initialize-Good lib o id params s)
        λ _.
          if-Good lib o (beq m (bytes "ping")) (λ _. listed-Good id _ s (IsReply.a_result _))
            λ _.
              if-Good lib o (beq m (bytes "tools/list"))
                (λ _. listed-Good id _ s (IsReply.a_result _))
                λ _.
                  if-Good lib o (beq m (bytes "tools/call"))
                    (λ _. tools_call-Good lib o id params s)
                    λ _.
                      if-Good lib o (beq m (bytes "resources/list"))
                        (λ _. resources_list-Good lib o id s)
                        λ _.
                          if-Good lib o (beq m (bytes "resources/templates/list"))
                            (λ _. listed-Good id _ s (IsReply.a_result _))
                            λ _.
                              if-Good lib o (beq m (bytes "resources/read"))
                                (λ _. resources_read-Good lib o id params s)
                                λ _.
                                  if-Good lib o (beq m (bytes "prompts/list"))
                                    (λ _. listed-Good id _ s (IsReply.a_result _))
                                    λ _.
                                      if-Good lib o (beq m (bytes "prompts/get"))
                                        (λ _. prompts_get-Good lib o id params s)
                                        λ _. listed-Good id _ s (IsReply.an_error _ _)

  -- What comes of one request.
  pub data Outcome (req : Json N) (s : McpServer W S N) : Processed W S N → Type 0 where
    quiet : IsNotification req → Outcome req s (silent s)
    replies :
        {a : Answer W S N}
        → (IsNotification req → ⊥)
        → Good lib o (get (bytes "id") req) s a
        → Outcome req s (responded a)

  process_method-Outcome :
      (req : Json N) (m : Option Bytes) (s : McpServer W S N)
      → as_text (get (bytes "method") req) ≡ m
      → Outcome req s (process_method lib o m (get (bytes "id") req) (get (bytes "params") req) s)
  process_method-Outcome req none s q = elim (Bool-cases (is_null (get (bytes "id") req))) [
    | inl y ↦ rw y (Outcome.quiet (inl y))
    | inr n ↦
        rw n (Outcome.replies (ground (arith, q, n)) (listed-Good _ _ s (IsReply.an_error _ _)))
  ]
  process_method-Outcome req (some m) s q =
      elim (Bool-cases (starts_with (bytes "notifications/") m)) [
        | inl y ↦ rw y (Outcome.quiet (inr (m, (q, y))))
        | inr n ↦ elim (Bool-cases (is_null (get (bytes "id") req))) [
          | inl z ↦ rw (n, z) (Outcome.quiet (inl z))
          | inr k ↦
              rw (n, k)
                (Outcome.replies (not_notification req m q n k)
                  (method_answer-Good m (get (bytes "id") req) (get (bytes "params") req) s))
        ]
      ]

  pub process_one-Outcome :
      (req : Json N) (s : McpServer W S N) → Outcome req s (process_one lib o req s)
  unfolding process_one
  process_one-Outcome req s = process_method-Outcome req (as_text (get (bytes "method") req)) s refl

  pub effects_of_Outcome :
      {req : Json N} {s : McpServer W S N} {p : Processed W S N}
      → Outcome req s p
      → Effects lib o s p.server
  effects_of_Outcome (Outcome.quiet n) = Effects.none_left
  effects_of_Outcome (Outcome.replies n g) = g.effects

  with_response-RepliesTo :
      {req : Json N} {s : McpServer W S N} {p : Processed W S N} {reqs rs : Items N}
      → Outcome req s p
      → RepliesTo reqs rs
      → RepliesTo (Items.item req reqs) (with_response p.response rs)
  with_response-RepliesTo (Outcome.quiet n) r = RepliesTo.notified n r
  with_response-RepliesTo (Outcome.replies n g) r =
      RepliesTo.replied n (IsReply-IsResponse lib _ _ g.reply) r

  pub process_batch-Effects :
      (reqs : Items N) (session : Option Bytes) (s : McpServer W S N)
      → Effects lib o s (process_batch lib o reqs session s).0
        × RepliesTo reqs (process_batch lib o reqs session s).1.0
  unfolding process_batch
  process_batch-Effects Items.no_items session s = (Effects.none_left, RepliesTo.done)
  process_batch-Effects (Items.item req reqs) session s =
      let p = process_one lib o req s in
      let out = process_one-Outcome req s in
      let (e, r) = process_batch-Effects reqs (last_session session p.session) p.server in
      (Effects_trans lib o (effects_of_Outcome out) e, with_response-RepliesTo out r)
