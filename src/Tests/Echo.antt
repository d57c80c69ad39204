-- ===== src/Tests/Echo.antt =====
-- The theorems on src/remap_echo/remap_echo.cc at concrete inputs.
use ats_plugin_experiment.Base.{
  ◌-◌, true, none, some, [], ◌∷◌, ◌++◌, Bytes, codes, length, take, pos, ◌≡◌, refl, arith,
}
use ats_plugin_experiment.Echo.{RemapEchoConfig, RemapEchoRequest, create_request, Http, parse_done}
use ats_plugin_experiment.Echo.Intercept.{timeout, write_ready, write_complete, run}
use ats_plugin_experiment.Echo.Writes.{IsCounted}
use ats_plugin_experiment.Echo.Answer.{IsAnswerable, opening, header_text, run-IsCounted}
use ats_plugin_experiment.Echo.Delivery.{IsSent, run-IsSent}
use ats_plugin_experiment.Echo.Completion.{IsOvercounted, run-IsOvercounted}
use ats_plugin_experiment.Echo.Restarts.{run_restarts}

-- A server whose header is printed as one letter, and whose parser ends at any block.
abbrev toy_http : Http (Unit {0})
toy_http = record {
  type_set = true;
  version_set = true;
  status_set = λ status. true;
  print = λ header. codes "H";
  header_length = λ header. 1;
  header_length-print = λ header. refl;
  parse = λ parser blk. (tt, parse_done);
}

abbrev toy_echo : RemapEchoConfig
toy_echo = record { content = codes "abc"; mime_type = codes "text/plain"; status_code = pos 200 }

abbrev toy_block : Bytes
toy_block = codes "GET"

toy-IsAnswerable : IsAnswerable toy_http toy_echo tt toy_block
toy-IsAnswerable = record {
  type_is_set = refl;
  version_is_set = refl;
  status_is_set = refl;
  block_is_read = refl;
  request_ends = refl;
}

run-IsCounted_example :
    (r : RemapEchoRequest (Unit {0})) × (run toy_http
        (opening toy_http toy_echo tt toy_block ++ write_ready 2 ∷ timeout ∷ write_ready 9 ∷ [])
        (create_request tt toy_echo)
      ≡ some (some r))
    × IsCounted (header_text toy_http toy_echo tt toy_block) (codes "abc") r
run-IsCounted_example =
    run-IsCounted toy_http toy_echo tt toy_block (write_ready 2 ∷ timeout ∷ write_ready 9 ∷ [])
      toy-IsAnswerable (omega arith, (tt, (omega arith, tt)))

run-IsSent_example :
    (r : RemapEchoRequest (Unit {0})) × (run toy_http
        (opening toy_http toy_echo tt toy_block ++ (timeout ∷ [] ++ write_ready 9 ∷ []))
        (create_request tt toy_echo)
      ≡ some (some r))
    × IsSent (header_text toy_http toy_echo tt toy_block) (codes "abc") r
    × (run toy_http
          (opening toy_http toy_echo tt toy_block
            ++ (timeout ∷ [] ++ write_ready 9 ∷ write_complete ∷ []))
          (create_request tt toy_echo)
        ≡ some none)
run-IsSent_example =
    run-IsSent toy_http toy_echo tt toy_block (timeout ∷ []) 9 toy-IsAnswerable (tt, tt)
      (omega arith)

run-IsOvercounted_example :
    (r : RemapEchoRequest (Unit {0})) × (run toy_http
        (opening toy_http toy_echo tt toy_block
          ++ write_complete ∷ (timeout ∷ [] ++ write_ready 9 ∷ []))
        (create_request tt toy_echo)
      ≡ some (some r))
    × IsOvercounted (header_text toy_http toy_echo tt toy_block) (codes "abc") r
    × (run toy_http
          (opening toy_http toy_echo tt toy_block
            ++ write_complete ∷ (timeout ∷ [] ++ write_ready 9 ∷ write_complete ∷ []))
          (create_request tt toy_echo)
        ≡ some none)
run-IsOvercounted_example =
    run-IsOvercounted toy_http toy_echo tt toy_block (timeout ∷ []) 9 toy-IsAnswerable (omega arith)
      (tt, tt) (omega arith)

abbrev toy_answer : RemapEchoRequest (Unit {0})
toy_answer = record {
  nbytes = 3;
  status_code = pos 200;
  content = codes "abc";
  mime_type = [];
  parser = tt;
  written = codes "H";
  write_nbytes = some 1;
}

run_restarts_example :
    (r : RemapEchoRequest (Unit {0})) × (run toy_http
        (write_ready 2 ∷ write_ready 9 ∷ [])
        toy_answer
      ≡ some (some r))
    × (r.nbytes ≡ 0)
    × (r.written
        ≡ (codes "H" ++ take 2 (codes "abc")) ++ take (length (codes "abc") - 2) (codes "abc"))
run_restarts_example = run_restarts toy_http toy_answer refl 2 9 (omega arith) (omega arith)
