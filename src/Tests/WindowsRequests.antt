-- ===== src/Tests/WindowsRequests.antt =====
-- The theorems on requests on Windows, applied.
use gopher_server_cross_plat.Base.{
  ◌≡◌, ◌<◌, if◌then◌else◌, ℕ, true, false, [], ◌∷◌, ◌++◌, some, none, Option, refl, arith, Bytes,
  length, beq, codes, pos, Without, without_lem,
}
use gopher_server_cross_plat.Outcome.{exited}
use gopher_server_cross_plat.World.{Os, Pipes}
use gopher_server_cross_plat.Utils.{ThreadArgs}
use gopher_server_cross_plat.Cstring.{c_string}
use gopher_server_cross_plat.Cstring.Decimal.{print_int, print_nat, digits_onto}
use gopher_server_cross_plat.Codes.Windows.{get_gopher_code}
use gopher_server_cross_plat.Protocol.Selector.{joined}
use gopher_server_cross_plat.Request.Chunks.{pieces}
use gopher_server_cross_plat.Files.{file_type, is_directory, is_reg_file}
use gopher_server_cross_plat.Handler.{is_refused}
use gopher_server_cross_plat.Handler.Serving.{Works}
use gopher_server_cross_plat.Handler.Answers.{listed_world}
use gopher_server_cross_plat.Handler.Ending.{Ends}
use gopher_server_cross_plat.Windows.BlackList.{Paths, black_list_file}
use gopher_server_cross_plat.Windows.Transfer.{before_unmap}
use gopher_server_cross_plat.Windows.Pipe.{simple_text, main_log_process}
use gopher_server_cross_plat.Windows.Serve.Logged.{logged_args}
use gopher_server_cross_plat.Windows.Runner.{command_line, command_text}
use gopher_server_cross_plat.Windows.Handler.{Answers, windows, handle_request}
use gopher_server_cross_plat.Windows.Handler.Closing.{closes_of, windows_request-Ends}
use gopher_server_cross_plat.Windows.Handler.Replies.{EndsIn, handle_request-listed}
use gopher_server_cross_plat.Windows.Handler.Files.{file_world, Maps, Logs, handle_request-mapped}
use gopher_server_cross_plat.Windows.HandleRequest.{Offer}
use gopher_server_cross_plat.Windows.HandleRequest.Process.{after_request, process}
use gopher_server_cross_plat.Windows.HandleRequest.Process.Handed.{
  Grants, Sayable, handed_args, handed_globals, logging_world, process-command_line,
}
use gopher_server_cross_plat.Tests.{test_os, test_args, test_configs, test_globals, world}
use gopher_server_cross_plat.Tests.Requests.{in_pieces, in_pieces-Asks, port_short}
use gopher_server_cross_plat.Tests.Windows.{
  granting, working, granted, working-Working, granted-Granted,
}
use gopher_server_cross_plat.Tests.Runner.{
  split_words, process_configs, split_words-Splits, host-IsWord, client-IsWord,
}

abbrev path_d : Bytes
path_d = codes "g" ++ b'\\' ∷ codes "d"

abbrev path_f : Bytes
path_f = codes "g" ++ b'\\' ∷ codes "f"

abbrev win_stat : Bytes → Option ℕ
win_stat path =
    if beq path path_d then some 0x41ff else if beq path path_f then some 0x81ff else none

abbrev win_os : Os
win_os = record test_os { stat = win_stat }

win_os-Works : Works win_os
win_os-Works = record { allocates = λ _. refl; prints = λ _. refl; sends = λ _ _. refl }

abbrev win_args : ThreadArgs
win_args = record test_args { configs = record test_configs { root_dir = codes "g" } }

abbrev pub win_paths : Paths
win_paths = record {
  basename = λ path. path;
  dirname = λ path. path;
  full_path = λ path. some path;
}

abbrev pub answers : Answers
answers = record {
  transfer = granting;
  turn = before_unmap;
  run = working;
  write = working;
  paths = win_paths;
  global_mode = 1;
  allocated = false;
}

windows_request-Ends_example :
    Ends
      (closes_of win_args)
      0
      (handle_request answers win_os test_globals win_args (world (pieces (in_pieces b'f') [])))
windows_request-Ends_example =
    windows_request-Ends answers win_os test_globals win_args (world (pieces (in_pieces b'f') []))

abbrev win_wanted : Bytes → Bytes
win_wanted line = joined ⦃platform = windows answers⦄ (codes "g") (c_string line)

win_kind_d :
    file_type ⦃platform = windows answers⦄ win_os test_globals.cwd (win_wanted (codes "d"))
    ≡ is_directory
unfolding file_type beq c_string
win_kind_d = refl

win_kind_f :
    file_type ⦃platform = windows answers⦄ win_os test_globals.cwd (win_wanted (codes "f"))
    ≡ is_reg_file
unfolding file_type beq c_string black_list_file
win_kind_f = refl

win_kind_x :
    is_refused
      (file_type ⦃platform = windows answers⦄ win_os test_globals.cwd (win_wanted (codes "x")))
    ≡ true
unfolding file_type beq c_string
win_kind_x = refl

handle_request-listed_example :
    EndsIn answers win_args
      (listed_world test_globals win_args get_gopher_code
        (win_wanted (codes "d"))
        (codes "f" ∷ codes ".h" ∷ [])
        (world []))
      (handle_request answers win_os test_globals win_args (world (pieces (in_pieces b'd') [])))
handle_request-listed_example =
    handle_request-listed answers win_os test_globals win_args b'g' [] (in_pieces b'd') (codes "d")
      [] (world []) (codes "f" ∷ codes ".h" ∷ []) win_os-Works refl (in_pieces-Asks b'd' (refl, tt))
      refl win_kind_d refl port_short

file-Maps : Maps granting (win_wanted (codes "f")) (codes "hi")
file-Maps = record {
  behind = codes "x";
  low = 3;
  size = 2;
  opens = refl;
  sized = refl;
  not_empty = refl;
  mapping = refl;
  viewed = refl;
  no_nul = (refl, (refl, tt));
  thread = refl;
  unmapped = refl;
  mapping_closed = refl;
  file_closed = refl;
}

abbrev pub answers-Logs : Logs answers granted
answers-Logs = record {
  handle = 96;
  running = working-Working;
  writing = working-Working;
  granted = granted-Granted;
  created = refl;
  small = omega arith;
  mode = omega arith;
}

wanted_f-Without : Without 0 (win_wanted (codes "f"))
unfolding c_string
wanted_f-Without = without_lem 0 path_f refl

record_fits : length (simple_text (logged_args win_args (win_wanted (codes "f")) (pos 8))) < 4096
unfolding c_string simple_text print_int print_nat digits_onto
record_fits = omega arith

handle_request-mapped_example :
    (q : Pipes) × EndsIn answers win_args
      (file_world (codes "hi") q (world []))
      (handle_request answers win_os test_globals win_args (world (pieces (in_pieces b'f') [])))
    × (main_log_process granted q.pipe (codes "l") ≡ (
      exited (pos 0),
      [],
      codes "l" ++ simple_text (logged_args win_args (win_wanted (codes "f")) (pos 8)),
    ))
handle_request-mapped_example =
    handle_request-mapped answers win_os granted test_globals win_args b'g' [] (in_pieces b'f')
      (codes "f") (codes "hi") (codes "l") [] (world []) win_os-Works answers-Logs refl refl refl
      (in_pieces-Asks b'f' (refl, tt)) refl win_kind_f file-Maps wanted_f-Without
      (without_lem 0 (codes "client") refl) record_fits

abbrev pub offer : Offer
offer = record { startup_ok = true; opens_pipe = true; reads_info = true; socket = some 5 }

pub offer-Grants : Grants offer
offer-Grants = record { fd = 5; starts = refl; opens = refl; reads = refl; socket_made = refl }

pub connection-Sayable : Sayable (codes "1") (codes "host") process_configs true
unfolding command_text print_int print_nat digits_onto
connection-Sayable = record {
  client = client-IsWord;
  server = host-IsWord;
  root = (without_lem b'"' (codes "/g") refl, refl);
  port = omega arith;
  mode = refl;
  root_fits = omega arith;
  server_fits = omega arith;
  line_fits = omega arith;
}

process-command_line_example :
    process answers win_os offer []
      (split_words (command_line (codes "1") process_configs (codes "host") true))
      (world (pieces (in_pieces b'f') []))
    ≡ after_request (
        handle_request answers win_os
          (handed_globals (codes "host") true)
          (handed_args (codes "1") process_configs)
          (logging_world 96 (world (pieces (in_pieces b'f') []))))
process-command_line_example =
    process-command_line split_words answers win_os offer 96 (codes "1") [] (codes "host")
      process_configs true (world (pieces (in_pieces b'f') [])) split_words-Splits
      connection-Sayable offer-Grants working-Working (λ _. refl) refl (omega arith)
