-- ===== src/Proxy/Tests.antt =====
-- The writers of the proxy at a concrete response.
use gateway_core.Base.{◌≡◌, refl, true, false, List, [], ◌∷◌, arith}
use gateway_core.Base.Bytes.{bytes}
use gateway_core.Http.{Call, adds_header, writes_header, writes, no_header, header_set}
use gateway_core.Proxy.Writers.{
  ResponseBuffer, buffer_calls, buffer_reset, replay_to, with_header, latency_header, new_recorder,
  latency_calls,
}
use gateway_core.Proxy.Writers.Replay.{IsPlain, replay_to-latency_calls, fresh}

abbrev response : List Call
response = adds_header (bytes "A") (bytes "b") ∷ writes_header 404 ∷ writes (bytes "no") ∷ []

response-IsPlain : IsPlain response
response-IsPlain = (refl, (omega arith, tt))

abbrev used : ResponseBuffer
used = record { header = no_header; body = bytes "old"; status_code = 503; written = true }

replay_to-latency_calls_example :
    replay_to (buffer_calls response (buffer_reset used)) (
      with_header
        (header_set latency_header (bytes "5ns") no_header)
        (new_recorder (fresh no_header [])))
    ≡ (latency_calls response (record {
      recorder = new_recorder (fresh no_header []);
      elapsed = bytes "5ns";
      written = false;
    })).recorder
replay_to-latency_calls_example =
    replay_to-latency_calls response (bytes "5ns") [] no_header used response-IsPlain
