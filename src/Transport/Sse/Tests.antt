-- ===== src/Transport/Sse/Tests.antt =====
-- Runs of the event-stream parser on concrete input.
use edge_llm.Base.{◌≡◌, refl, false, none, some, List, [], ◌∷◌, arith, bytes, cut}
use edge_llm.Transport.Sse.{reset, feed}
use edge_llm.Transport.Sse.Format.{Sent, print, seen, final_id}
use edge_llm.Transport.Sse.RoundTrip.{feed-print_stream}

feed_two_lines :
    (feed reset (bytes ": hi\ndata: a\ndata:b\nid: 7\n\n")).1
    ≡ record { event = bytes "message"; payload = bytes "a\nb"; id = bytes "7" } ∷ []
unfolding feed cut
feed_two_lines = refl

abbrev two_events : List Sent
two_events =
    record { event = bytes "delta"; lines = bytes "x" ∷ bytes "" ∷ []; id = some (bytes "1") }
    ∷ record { event = []; lines = bytes "y" ∷ []; id = none }
    ∷ []

feed-print_stream_example :
    feed reset (print false two_events [])
    ≡ (record reset { last_id = final_id [] two_events }, seen [] two_events)
feed-print_stream_example = feed-print_stream false two_events (
  record {
    event = omega arith;
    lines = omega arith;
    nonempty = ground arith;
    id = (omega arith, refl);
  },
  (record { event = (tt, tt); lines = omega arith; nonempty = ground arith; id = tt }, tt),
)
