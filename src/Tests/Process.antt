-- ===== src/Tests/Process.antt =====
-- The process for a connection on Windows, for a file.
use gopher_server_cross_plat.Base.{
  ◌≡◌, ◌<◌, ◌++◌, ◌∷◌, [], List, Option, none, some, ℕ, true, refl, arith, if◌then◌else◌, Bytes,
  beq, codes, length, pos, Without, without_lem,
}
use gopher_server_cross_plat.Outcome.{exited, fault}
use gopher_server_cross_plat.World.{Os, Recv, Pipes, halt}
use gopher_server_cross_plat.Cstring.{c_string}
use gopher_server_cross_plat.Cstring.Decimal.{print_int, print_nat, digits_onto}
use gopher_server_cross_plat.Protocol.Selector.{joined}
use gopher_server_cross_plat.Request.Chunks.{pieces}
use gopher_server_cross_plat.Files.{file_type, is_reg_file}
use gopher_server_cross_plat.Handler.Serving.{Works}
use gopher_server_cross_plat.Windows.BlackList.{black_list_file}
use gopher_server_cross_plat.Windows.Pipe.{simple_text, main_log_process}
use gopher_server_cross_plat.Windows.Serve.Logged.{logged_args}
use gopher_server_cross_plat.Windows.Runner.{command_line}
use gopher_server_cross_plat.Windows.Handler.{windows}
use gopher_server_cross_plat.Windows.Handler.Files.{Maps}
use gopher_server_cross_plat.Windows.HandleRequest.Process.{process}
use gopher_server_cross_plat.Windows.HandleRequest.Process.Handed.{handed_args}
use gopher_server_cross_plat.Windows.HandleRequest.Process.Files.{process-mapped}
use gopher_server_cross_plat.Tests.{test_os, world}
use gopher_server_cross_plat.Tests.Requests.{in_pieces, in_pieces-Asks}
use gopher_server_cross_plat.Tests.Windows.{granting, granted}
use gopher_server_cross_plat.Tests.Runner.{split_words, process_configs, split_words-Splits}
use gopher_server_cross_plat.Tests.WindowsRequests.{
  answers, offer, offer-Grants, connection-Sayable, answers-Logs,
}

abbrev served_path : Bytes
served_path = codes "/g" ++ b'\\' ∷ codes "f"

abbrev one_file_stat : Bytes → Option ℕ
one_file_stat path = if beq path served_path then some 0x81ff else none

abbrev one_file_os : Os
one_file_os = record test_os { stat = one_file_stat }

one_file_os-Works : Works one_file_os
one_file_os-Works = record { allocates = λ _. refl; prints = λ _. refl; sends = λ _ _. refl }

abbrev asked : Bytes
asked = joined ⦃platform = windows answers⦄ (codes "/g") (c_string (codes "f"))

asked_kind : file_type ⦃platform = windows answers⦄ one_file_os [] asked ≡ is_reg_file
unfolding file_type beq c_string black_list_file
asked_kind = refl

asked-Maps : Maps granting asked (codes "hi")
asked-Maps = record {
  behind = codes "x";
  low = 3;
  size = 2;
  opens = refl;
  sized = refl;
  not_empty = refl;
  mapping = refl;
  viewed = refl;
  no_nul = (refl, (refl, tt));
  thread = refl;
  unmapped = refl;
  mapping_closed = refl;
  file_closed = refl;
}

asked-Without : Without 0 asked
unfolding c_string
asked-Without = without_lem 0 served_path refl

asked_fits :
    length (simple_text (logged_args (handed_args (codes "1") process_configs) asked (pos 8)))
    < 4096
unfolding c_string simple_text print_int print_nat digits_onto
asked_fits = omega arith

process-mapped_example :
    (q : Pipes) × (more : List Recv) × (process answers one_file_os offer []
        (split_words (command_line (codes "1") process_configs (codes "host") true))
        (world (pieces (in_pieces b'f') []))
      ≡ halt fault
          (record (world []) { incoming = more; sent = codes "hi"; type_request = 0; pipes = q }))
    × (main_log_process granted q.pipe (codes "l") ≡ (
      exited (pos 0),
      [],
      codes "l"
          ++ simple_text (logged_args (handed_args (codes "1") process_configs) asked (pos 8)),
    ))
process-mapped_example =
    process-mapped split_words answers one_file_os offer granted (codes "1") [] (codes "host")
      process_configs true b'/' (codes "g") (in_pieces b'f') (codes "f") (codes "hi") (codes "l") []
      (world []) split_words-Splits connection-Sayable offer-Grants one_file_os-Works answers-Logs
      refl refl (in_pieces-Asks b'f' (refl, tt)) refl asked_kind asked-Maps asked-Without
      (without_lem 0 (codes "1") refl) asked_fits
