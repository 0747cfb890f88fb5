-- ===== src/Transport/Http/Tests.antt =====
-- Runs of the header functions and the request builder on concrete input.
use edge_llm.Base.{Bytes, All, arith, ◌≡◌, refl, true, false, some, [], ◌∷◌, bytes}
use edge_llm.Transport.Http.{
  HttpRequest, to_decimal, header_name_equals, header, has_header, strip_crlf, request_line,
  header_line, host_line, length_line, connection_line, needs_length, serialize_request,
}
use edge_llm.Transport.Http.Decimal.{IsDigit, number}
use edge_llm.Transport.Http.Meant.{head_lines}
use edge_llm.Transport.Http.Requests.{read_head, read_head-serialize_request}

abbrev post : HttpRequest
post = record {
  method = bytes "POST";
  host = bytes "api.example.com";
  port = 443;
  path = bytes "/v1";
  headers = (bytes "X-Note", bytes "a\r\nEvil: 1") ∷ [];
  body = bytes "{}";
}

serialize_post :
    serialize_request post false
    ≡ bytes
        "POST /v1 HTTP/1.1\r\nHost: api.example.com\r\nX-Note: aEvil: 1\r\nContent-Length: 2\r\nConnection: close\r\n\r\n{}"
unfolding serialize_request request_line header_line host_line length_line connection_line
    needs_length has_header header header_name_equals strip_crlf to_decimal
serialize_post = refl

read_head-serialize_request_example :
    (digits : Bytes) × (All IsDigit digits
      × ((number 0 digits ≡ 2)
          × (read_head 6 (serialize_request post true)
              ≡ some (head_lines post true digits, bytes "{}"))))
read_head-serialize_request_example = read_head-serialize_request post true (omega arith)
