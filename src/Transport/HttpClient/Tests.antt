-- ===== src/Transport/HttpClient/Tests.antt =====
-- A scripted connection, and the HTTP client over it: src/transport/HttpClient.cpp.
mod Fake
use edge_llm.Base.{
  cut, cut_at, ℕ, ◌≡◌, refl, ◌≤◌, ◌<◌, true, false, some, none, [], ◌∷◌, ◌++◌, Bytes, bytes, arith,
  length, List,
}
use edge_llm.Core.{Status}
use edge_llm.Transport.Http.{
  serialize_request, request_line, host_line, connection_line, needs_length, has_header, strip_crlf,
  header_name_equals, HttpRequest, HttpResponse, no_response,
}
use edge_llm.Transport.Chunked.{ChunkedDecoder, State, reset, hex_value}
use edge_llm.Transport.Chunked.Wire.{Message, IsMessage, print, body}
use edge_llm.Transport.HttpClient.Bounds.{send-IsCapped}
use edge_llm.Transport.HttpClient.Conserve.{ahead}
use edge_llm.Transport.HttpClient.Framing.{IsExchange, receive-IsExchange}
use edge_llm.Transport.HttpClient.Dropped.{read_body_drops, read_chunked_endless}
use edge_llm.Transport.HttpClient.Deadline.{Ends, receive-Ends}
use edge_llm.Transport.HttpClient.HeadRoundTrip.{print_head, parse_header_block-print}
use edge_llm.Transport.HttpClient.StreamLoops.{bytes_called}
use edge_llm.Transport.HttpClient.StreamCap.{send_stream_bounds}
use edge_llm.Transport.Chunked.Wire.{HexDigit}
use edge_llm.Transport.Connection.{got, idle, closed, Connection, Received}
use edge_llm.Transport.HttpClient.{HttpClient, Reply, reply}
use edge_llm.Transport.HttpClient.Heads.{trim, parse_header_block}
use edge_llm.Transport.HttpClient.Reading.{is_chunked, with_body, read_body, read_chunked}
use edge_llm.Transport.HttpClient.Sending.{has_body, receive, send}
use edge_llm.Transport.HttpClient.Streaming.{send_stream, Streamed}
use Fake.{Script, script, script-Delivers, script-Paces, script_input, packet}

-- A client that keeps its connections open, over the given answers.
abbrev client : List Received → HttpClient Script
client rs = record {
  world = record { answers = rs; up = true };
  timeout_ms = 15000;
  max_response_body = 16384;
  recv_buffer_size = 512;
  keep_alive = true;
  reusable = false;
  saw_response_bytes = false;
  pending = [];
}

abbrev request : HttpRequest
request = record {
  method = bytes "GET";
  host = bytes "h";
  port = 443;
  path = bytes "/";
  headers = [];
  body = [];
}

-- Two responses, cut in the first head, and with the start of the second one in the same packet.
abbrev answers : List Received
answers =
    packet (bytes "HTTP/1.1 200 OK\r\nContent-Le")
    ∷ idle
    ∷ packet (bytes "ngth: 2\r\n\r\nabHTTP/1.1 204")
    ∷ packet (bytes " No\r\n\r\n")
    ∷ []

abbrev first_response : HttpResponse
first_response = record {
  status = 200;
  reason = bytes "OK";
  headers = (bytes "Content-Length", bytes "2") ∷ [];
  body = bytes "ab";
}

abbrev after_first : Reply Script
after_first =
    reply
      (record (client (packet (bytes " No\r\n\r\n") ∷ [])) {
        reusable = true;
        saw_response_bytes = true;
        pending = bytes "HTTP/1.1 204";
      })
      first_response Status.ok

send_runs : send script none 20 request (client answers) no_response ≡ some after_first
unfolding send serialize_request request_line host_line connection_line needs_length has_header
    strip_crlf header_name_equals cut cut_at
send_runs = refl

receive_runs : receive script none 20 0 (client answers) no_response ≡ some after_first
unfolding receive header_name_equals cut cut_at
receive_runs = refl

-- The second response starts with the pending bytes.
second_runs :
    send script none 20 request after_first.client no_response
    ≡ some (
        reply
          (record (client []) { reusable = true; saw_response_bytes = true })
          (record { status = 204; reason = bytes "No"; headers = []; body = [] })
          Status.ok)
unfolding send serialize_request request_line host_line connection_line needs_length has_header
    strip_crlf header_name_equals cut cut_at
second_runs = refl

send-IsCapped_example : length (bytes "ab") ≤ 16384
send-IsCapped_example =
    send-IsCapped script none 20 request (client answers) after_first send_runs refl

receive-IsExchange_example :
    IsExchange script none script_input script-Delivers
      (ahead script none script_input script-Delivers (client answers))
      no_response
      after_first
unfolding has_body is_chunked header_name_equals
receive-IsExchange_example =
    receive-IsExchange script none script_input script-Delivers 20 0 (client answers) no_response
      after_first receive_runs refl refl refl refl

abbrev chunked : HttpResponse
chunked = record {
  status = 200;
  reason = [];
  headers = (bytes "Transfer-Encoding", bytes "chunked") ∷ [];
  body = [];
}

abbrev one_chunk : Message
one_chunk = record {
  chunks = (record { line = record { digits = bytes "3"; ext = [] }; payload = bytes "abc" }) ∷ [];
  last = record { digits = bytes "0"; ext = [] };
  trailers = [];
}

one_chunk-IsMessage : IsMessage one_chunk
one_chunk-IsMessage = record {
  chunks = (
    record {
      line = record {
        nonempty = ground arith;
        value = (3, (HexDigit.decimal {d = 3} (omega arith), refl));
        ext = tt;
      };
      nonempty = ground arith;
      fits = omega arith;
    },
    tt,
  );
  last = record {
    nonempty = ground arith;
    value = (0, (HexDigit.decimal {d = 0} (omega arith), refl));
    ext = tt;
  };
  trailers = tt;
}

-- The start of a second response in the packet of the last chunk is gone.
read_body_drops_example :
    read_body script none 20 0 (print one_chunk (bytes "HTTP/1.1 200 OK")) (client []) chunked
    ≡ some (reply (client []) (with_body chunked (body one_chunk.chunks)) Status.ok)
unfolding is_chunked header_name_equals cut_at
read_body_drops_example =
    read_body_drops script none 20 0 (client []) chunked one_chunk (bytes "HTTP/1.1 200 OK") refl
      refl one_chunk-IsMessage (omega arith)

-- A peer that sends `;` for ever.
abbrev babbler : Connection (Unit {0})
babbler = record {
  connect = λ host port w. (w, Status.ok);
  connected = λ w. true;
  available = λ w. true;
  write = λ s w. (w, some (length s));
  read = λ n w. (w, got b';' []);
  stop = λ w. w;
}

abbrev in_extension : ChunkedDecoder
in_extension = record reset { state = State.size_ext }

abbrev babbler_client : HttpClient (Unit {0})
babbler_client = record {
  world = tt;
  timeout_ms = 15000;
  max_response_body = 16384;
  recv_buffer_size = 512;
  keep_alive = false;
  reusable = false;
  saw_response_bytes = true;
  pending = [];
}

read_chunked_endless_example :
    read_chunked babbler (some (λ w. 4000000)) 1000000 0 babbler_client in_extension chunked ≡ none
read_chunked_endless_example =
    read_chunked_endless babbler (some (λ w. 4000000)) 1000000 0 babbler_client in_extension chunked
      (λ n w. (b';', ([], (refl, (omega arith, tt))))) refl (omega arith)

receive-Ends_example :
    Ends script none 15000 0
      (λ w. length w.answers)
      (script-Paces none 15000 0)
      20000
      (client answers)
      no_response
      (receive script none 20000 0 (client answers) no_response)
receive-Ends_example =
    receive-Ends script none 15000 0 (λ w. length w.answers) (script-Paces none 15000 0) 20000
      (client answers) no_response refl (omega arith) (omega arith)

parse_header_block-print_example :
    parse_header_block (print_head 200 (bytes "OK") ((bytes "A", bytes "b c") ∷ [])) no_response ≡ (
      Status.ok,
      record {
        status = 200;
        reason = bytes "OK";
        headers = (bytes "A", bytes "b c") ∷ [];
        body = [];
      },
    )
unfolding trim
parse_header_block-print_example =
    parse_header_block-print 200 (bytes "OK") ((bytes "A", bytes "b c") ∷ []) (omega arith)
      (refl, omega arith) (((refl, omega arith), (omega arith, (refl, omega arith))), tt)

-- The first response streamed, to a callback that always wants more.
stream_runs :
    (r : Streamed Script) × ((send_stream script none
          (λ calls. true)
          20
          request
          (client answers)
          no_response
        ≡ some r)
      × (r.1.calls ≡ bytes "abHTTP/1.1 204" ∷ bytes " No\r\n\r\n" ∷ []))
unfolding send_stream serialize_request request_line host_line connection_line needs_length
    has_header strip_crlf header_name_equals cut cut_at
stream_runs = (_, (refl, refl))

send_stream_bounds_example : bytes_called stream_runs.0.1.calls ≤ 16384
send_stream_bounds_example =
    send_stream_bounds script none (λ calls. true) (script-Delivers.bounded) 20 request
      (client answers) no_response stream_runs.0 (omega arith) (omega arith) (omega arith)
      stream_runs.1.0
