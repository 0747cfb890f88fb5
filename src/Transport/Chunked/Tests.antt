-- ===== src/Transport/Chunked/Tests.antt =====
-- Runs of the chunked decoder on concrete input.
use edge_llm.Base.{◌^◌, ◌≡◌, refl, true, false, some, [], ◌∷◌, ◌++◌, arith, Bytes, bytes}
use edge_llm.Core.{Status, http_malformed}
use edge_llm.Transport.Chunked.{State, step_in, reset, ended, feed}
use edge_llm.Transport.Chunked.Bytewise.{run, feed-eq-run}
use edge_llm.Transport.Chunked.Split.{resume, ◌>>=◌, feed-append}
use edge_llm.Transport.Chunked.Wire.{
  crlf, HexDigit, HexNumber, SizeLine, Writes, Message, IsMessage, print_line, print,
}
use edge_llm.Transport.Chunked.SizeLines.{at}
use edge_llm.Transport.Chunked.RoundTrip.{feed-print, feed_wrapped_size}

abbrev wiki : Bytes
wiki = bytes "4\r\nWiki\r\n0\r\n\r\n"

feed-wiki :
    feed reset [] false wiki ≡ some (ended (at State.done 0 false) (bytes "Wiki") true Status.ok)
unfolding feed step_in
feed-wiki = refl

-- A size line with no digit is refused.
feed_no_digit :
    feed reset [] false (bytes "\r\n") ≡ some (ended reset [] false (Status.fail http_malformed))
unfolding feed step_in
feed_no_digit = refl

feed-eq-run_example : feed reset [] false wiki ≡ some (run reset [] false wiki)
feed-eq-run_example = feed-eq-run reset [] false wiki tt

feed-append_example :
    feed reset [] false (bytes "4\r\nWi" ++ bytes "ki\r\n0\r\n\r\n")
    ≡ (feed reset [] false (bytes "4\r\nWi") >>= resume (bytes "ki\r\n0\r\n\r\n"))
feed-append_example = feed-append reset [] (bytes "4\r\nWi") (bytes "ki\r\n0\r\n\r\n") tt

abbrev ten : SizeLine
ten = record { digits = bytes "0A"; ext = bytes ";x=1" }

zero_digit : HexDigit b'0' 0
zero_digit = HexDigit.decimal (omega arith)

ten_digit : HexDigit b'A' 10
ten_digit = HexDigit.upper {d = 0} (omega arith)

abbrev zero_line : SizeLine
zero_line = record { digits = bytes "00"; ext = [] }

abbrev message : Message
message = record {
  chunks = (record { line = ten; payload = bytes "Wikipedia." }) ∷ [];
  last = zero_line;
  trailers = bytes "A: b" ∷ [];
}

message-IsMessage : IsMessage message
message-IsMessage = record {
  chunks = (
    record {
      line = record {
        nonempty = ground arith;
        value = (0, (zero_digit, (10, (ten_digit, refl))));
        ext = ground arith;
      };
      nonempty = ground arith;
      fits = omega arith;
    },
    tt,
  );
  last = record {
    nonempty = ground arith;
    value = (0, (zero_digit, (0, (zero_digit, refl))));
    ext = tt;
  };
  trailers = (record { nonempty = ground arith; plain = ground arith; fits = omega arith }, tt);
}

feed-print_example :
    feed reset [] false (print message (bytes "HTTP"))
    ≡ some (ended (at State.done 0 false) (bytes "Wikipedia.") true Status.ok)
feed-print_example = feed-print message (bytes "HTTP") message-IsMessage

abbrev huge : SizeLine
huge = record { digits = bytes "100000000"; ext = [] }

zeros : HexNumber 1 (bytes "00000000") (2 ^ 32)
zeros = (
  0,
  (
    zero_digit,
    (
      0,
      (
        zero_digit,
        (
          0,
          (
            zero_digit,
            (
              0,
              (
                zero_digit,
                (0, (zero_digit, (0, (zero_digit, (0, (zero_digit, (0, (zero_digit, refl)))))))),
              ),
            ),
          ),
        ),
      ),
    ),
  ),
)

huge-Writes : Writes huge (2 ^ 32)
huge-Writes = record {
  nonempty = ground arith;
  value = (1, (HexDigit.decimal (omega arith), zeros));
  ext = tt;
}

feed_wrapped_size_example :
    feed reset [] false (print_line huge (crlf ++ bytes "data"))
    ≡ some (ended (at State.done 0 false) [] true Status.ok)
feed_wrapped_size_example =
    feed_wrapped_size huge (2 ^ 32) (bytes "data") huge-Writes (omega arith) refl
