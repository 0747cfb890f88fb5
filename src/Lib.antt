-- ===== src/Lib.antt =====
-- EdgeLLM, a library for microcontrollers that call language models over TLS and serve the Model
-- Context Protocol to a host. Its core is independent of Arduino: a transport that speaks HTTP and
-- server-sent events, secret stores and their codec, a logger that masks secrets, a client for
-- several model services with retries, a budget and tools that run on the device, and a server that
-- offers the tools, resources, prompts and a key/value store to a host.
--
-- How the parts interact: the client (src/llm) builds a request, the transport (src/transport)
-- serializes it, and decodes the body of the response in chunks and events; the client repeats the
-- attempt under its policy, validates the answer against its schema, and in the agent loop runs the
-- tools of a registry (src/tools) that the model asks for. The server (src/mcp) gives a host the same
-- registry, behind a token and without the writes that are denied. The key/value store (src/mcp) keeps its entries in a secret store
-- (src/hal), which on some boards is one blob in the EEPROM. The logger (src/core) masks the secrets
-- in what all of them write; the provisioning (src/provisioning) takes the secrets from a user.
--
-- Which file models which part:
--   * Core.antt: src/core/Errors.h and src/core/Result.h (`Error`, `Status`, `Result`);
--     Core/Logger.antt: src/core/Logger.{h,cpp}.
--   * Transport/Chunked.antt: src/transport/ChunkedDecoder.{h,cpp}; its children have a decoder that
--     takes one byte at a time (Bytewise), the cuts into packets (Split), and the wire format (Wire,
--     SizeLines, RoundTrip).
--   * Transport/Sse.antt: src/transport/SseParser.{h,cpp}; Format has the event-stream format.
--   * Transport/Http.antt: src/transport/HttpTypes.{h,cpp} and src/transport/HttpRequestBuilder.cpp;
--     Meant has the head that a request should have, Decimal the numbers in it, and Requests a reader
--     of message heads.
--   * Transport/Connection.antt: src/transport/IConnection.h; Transport/HttpClient.antt:
--     src/transport/HttpClient.{h,cpp}, with the parsing of a head (Heads), the loops over the
--     connection (Reading), `send` (Sending) and `sendStream` (Streaming); Rules and Calls have one
--     rule for each loop and call, from which the results on caps and framing follow.
--   * Hal/Codec.antt: src/hal/EepromCodec.{h,cpp}; Hal/Secrets.antt: src/hal/ISecretStore.h with the
--     contract its clients rely on; Hal/Memory.antt: src/hal/MemorySecretStore.{h,cpp};
--     Hal/Eeprom.antt: src/hal/EepromSecretStore.{h,cpp}; Hal/Preferences.antt:
--     src/hal/PreferencesSecretStore.{h,cpp}.
--   * Llm/UsageMeter.antt: src/llm/UsageMeter.h; Llm/Retry.antt and Llm/Retry/Send.antt: the retries of
--     src/llm/LLMClient.cpp (`backoffFor`, `parseRetryAfterMs`, `sendWithRetry`); Llm/Client.antt: the
--     rest of it, with src/llm/Provider.h and src/llm/ChatTypes.h: `generate` (Generate), `run`, which
--     is the agent loop (Agent), and its transcript (Transcript).
--   * Llm/Providers.antt: what the services of src/llm/providers share; OpenAi, Anthropic, Gemini and
--     Ollama have their requests and responses, Rounds and Answered the transcript of the agent loop
--     as they get it, Echo what they read back, Strict the schema that OpenAI gets.
--   * Llm/Messages.antt: src/llm/Message.h; Llm/Conversation.antt: src/llm/Conversation.{h,cpp}.
--   * Tools/UrlGuard.antt: src/tools/UrlGuard.{h,cpp}, which keeps a tool from internal hosts.
--     Tools/Schema.antt: src/tools/ToolTypes.h and the validation of src/tools/SchemaUtil.cpp, with the
--     relation that a document fits some fields (Conform); Tools/Write.antt: its writing of a schema, with what fields that are all required give (Strict, Required);
--     Tools/Fields.antt: src/tools/FieldSpec.h; Tools/Args.antt: src/tools/ToolCallArgs.{h,cpp};
--     Tools/Registry.antt: src/tools/ToolRegistry.{h,cpp}; Llm/Schema.antt: src/llm/ResponseSchema.h;
--     Llm/Client/Answers.antt puts the client together with both. Tools/Json.antt is a type of JSON
--     values, as src/tools and src/mcp see a document.
--   * Mcp/EdgeStore.antt: src/mcp/EdgeStore.{h,cpp}; its children have the bounds (Shape, Bounds,
--     Caps, and Calls with `setPersistence` among the calls), the manifest (Keys, Changes), the agreement
--     with the backend (Mirror, Durable, Steps), the next boot (Restore), and what a read finds
--     (Reads). Mcp/Resources.antt and Mcp/Prompts.antt:
--     src/mcp/ResourceRegistry.{h,cpp} and src/mcp/PromptRegistry.{h,cpp}; Mcp/Server.antt:
--     src/mcp/McpServer.{h,cpp}, with the methods that list (Lists) and that call (Calls, Fetch) and
--     with `handlePost` (Post); Effects has what a request may do.
--   * Provisioning.antt: src/provisioning/ProvisioningService.{h,cpp}.
--   * Base.antt and its children: what these share. Base/Map.antt is `std::map` as an association list
--     in the order of its keys, Base/Search.antt is `find` and `substr`.
--
-- How code becomes definitions: a string or a buffer is the list of its byte values; a position in
-- it is the list from there on. A method is a function from the state to the state and its result;
-- a loop over input is structural. `size_t` and `uint32_t` have 32 bits, as on the boards, with the
-- wrap written out. A clock is the sequence of its readings or a function of the world, a callback
-- is the list of its calls, and a pointer that may be null is an option.
--
-- Fuel: the decoder's loop has the length of its input, since each round takes a byte at least;
-- `splitLines` and `redact` have the length of their text, since each round takes a byte at least;
-- the retries have one more than the policy's number of them. The loops of the HTTP client have any
-- fuel: how many rounds they make depends on the peer. Where a loop could run out of fuel, its result
-- is an option.
--
-- Parameters: the connection of the HTTP client, whose calls change a world that has its own type,
-- and the clock; the EEPROM object of the board's library (a cell keeps the last byte written), its
-- Preferences object (a write that reports bytes is read back, and touches no other name), the
-- sender and the wait that the retries use, the backend of the key/value store; and for the model
-- client an environment: the service that builds requests and reads answers, the send, the wait, the
-- validation of an answer and the dispatch of a tool. The parser of JSON texts is a function to an
-- option of a value, and whether a number fits a `long` is a test; the services also have the printer
-- and the conversions of numbers.
--
-- Not modelled: the socket of the MCP server; the glue to the boards; a change
-- hook or a tool's handler that calls the store again; tests, examples and the vendored ArduinoJson.
pub mod Base
pub mod Core
pub mod Hal
pub mod Llm
pub mod Mcp
pub mod Provisioning
pub mod Tools
pub mod Transport
