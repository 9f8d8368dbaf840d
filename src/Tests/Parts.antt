-- ===== src/Tests/Parts.antt =====
-- The parts of a request, the configuration and the accept loop on the test system.
use gopher_server_cross_plat.Base.{
  ℕ, ◌%◌, true, false, List, [], ◌∷◌, Option, none, some, Bytes, codes, length, pos, ◌≡◌, refl,
  arith, Without, leb, if◌then◌else◌, beq,
}
use gopher_server_cross_plat.Outcome.{ok, stop, fault}
use gopher_server_cross_plat.World.{Os, final}
use gopher_server_cross_plat.Utils.{m_process, m_thread, Configs, terminated}
use gopher_server_cross_plat.Cstring.{starts_with, strtok_r}
use gopher_server_cross_plat.Cstring.Decimal.{print_int, strtol}
use gopher_server_cross_plat.Codes.{file_command, not_found_respond}
use gopher_server_cross_plat.Codes.Tables.{mime_code, get_gopher_code-mime_code}
use gopher_server_cross_plat.Files.{
  file_type, is_directory, is_reg_file, is_unmanaged_file, not_permitted, black_list_file,
  log_file_name,
}
use gopher_server_cross_plat.Files.Kinds.{file_type-mode}
use gopher_server_cross_plat.Protocol.{resolve_selector, protocol_response}
use gopher_server_cross_plat.Protocol.Selector.{path_of, resolve_selector-slashes}
use gopher_server_cross_plat.Protocol.Response.{reply_line, port_room, protocol_response_lem}
use gopher_server_cross_plat.Mapping.{linux_memory_mapping}
use gopher_server_cross_plat.Mapping.Serve.{linux_memory_mapping-mutex}
use gopher_server_cross_plat.Mapping.Chunked.{TakesSome}
use gopher_server_cross_plat.Config.{
  Parse, conf_parse_config_file, get_lines, store_lines, parse_lines,
}
use gopher_server_cross_plat.Config.Valid.{kept_lines}
use gopher_server_cross_plat.Server.{
  Loop, Event, hangup, accepted, connection, select_hangup, accept_loop,
}
use gopher_server_cross_plat.Server.Accepting.{
  Returns, handlers, left_open, accept_loop-Returns, accept_loop-handlers,
}
use gopher_server_cross_plat.Tests.{test_os, test_configs, world}
use gopher_server_cross_plat.Linux.{linux}

protocol_response_lem_example :
    protocol_response test_os (pos b'3') (codes "x") (codes "/g/x") (codes "h") (pos 70) ≡ (
      if leb (length (print_int (pos 70))) (port_room (pos b'3'))
      then ok (pos 0, some (reply_line (pos b'3') (codes "x") (codes "/g/x") (codes "h") (pos 70)))
      else stop fault)
protocol_response_lem_example =
    protocol_response_lem test_os (pos b'3') (codes "x") (codes "/g/x") (codes "h") (pos 70)
      (λ _. refl) (λ _. refl) refl

file_type-mode_example : file_type test_os (codes "/s/build") (codes "/g/d") ≡ (
    if leb 4 (4 % 8)
    then is_directory
    else if leb 8 4
    then (if black_list_file test_os (codes "/s/build") (codes "/g/d") log_file_name
        then not_permitted
        else is_reg_file)
    else is_unmanaged_file)
unfolding beq
file_type-mode_example =
    file_type-mode test_os (codes "/s/build") (codes "/g/d") 4 0x1ed (omega arith) (omega arith)
      refl

abbrev log_os : Os
log_os = record test_os { stat = λ _. some 0x81a4 }

log_name-Without : Without b'/' (codes "build")
log_name-Without = (refl, (refl, (refl, (refl, (refl, tt)))))

found_text : starts_with not_found_respond (codes "text/plain\n") ≡ false
unfolding starts_with
found_text = refl

get_gopher_code-mime_code_example :
    gopher_server_cross_plat.Codes.get_gopher_code test_os (codes "/g/f")
    ≡ ok (pos (mime_code (codes "text") (codes "plain")))
get_gopher_code-mime_code_example =
    get_gopher_code-mime_code test_os (codes "/g/f") b't' (codes "ext") b'p' (codes "lain") refl
      refl (refl, (refl, (refl, (refl, tt)))) (refl, (refl, (refl, (refl, (refl, tt))))) found_text

abbrev empty_os : Os
empty_os = record test_os { fstat_size = λ _. some 0 }

linux_memory_mapping-mutex_example :
    (final (linux_memory_mapping empty_os m_thread (codes "/g/f") (world []))).mutex_held ≡ true
linux_memory_mapping-mutex_example =
    linux_memory_mapping-mutex empty_os (codes "/g/f") (world []) refl refl

-- send takes one byte at a time.
abbrev one_byte : Bytes → Bytes → Option ℕ
one_byte _ _ = some 1

one_byte-TakesSome : TakesSome one_byte
one_byte-TakesSome s x m = (0, refl, omega arith)

abbrev config_text : Bytes
config_text = codes "port 70\nmode_concurrency Thread\nroot_dir \"/g\"\nexternal_ip \"1\"\n"

abbrev config_lines : List Bytes
config_lines =
    codes "port 70"
    ∷ codes "mode_concurrency Thread"
    ∷ codes "root_dir \"/g\""
    ∷ codes "external_ip \"1\""
    ∷ []

abbrev unset : Parse
unset = record {
  port_number = 0;
  mode_concurrency = 0;
  root_dir = terminated [];
  ip_buffer = [];
  count_port = 0;
  count_mode = 0;
  count_root_dir = 0;
  count_ip = 0;
  wrong = false;
}

abbrev parsed : Parse
parsed = record {
  port_number = 70;
  mode_concurrency = 1;
  root_dir = terminated (codes "/g");
  ip_buffer = codes "1";
  count_port = 1;
  count_mode = 1;
  count_root_dir = 1;
  count_ip = 1;
  wrong = false;
}

kept : kept_lines test_os config_text ≡ some config_lines
unfolding kept_lines get_lines store_lines
kept = refl

parses : conf_parse_config_file test_os (some config_text) unset ≡ ok (pos 0, parsed)
unfolding conf_parse_config_file parse_lines strtok_r strtol beq
parses = refl

abbrev idle : Loop
idle = record { reset_config = false; listening = true; open_fds = []; started = [] }

abbrev forking : Configs
forking = record test_configs { mode_concurrency = m_process }

accept_loop-Returns_example : Returns idle (accept_loop forking (select_hangup ∷ []) idle)
accept_loop-Returns_example = accept_loop-Returns forking (select_hangup ∷ []) idle

abbrev two_rounds : List Event
two_rounds =
    connection (accepted 5) (codes "c") true true true
    ∷ hangup
    ∷ connection (accepted 6) (codes "d") true false true
    ∷ []

accept_loop-handlers_example :
    ((accept_loop forking two_rounds idle).0 ≡ none)
    × ((accept_loop forking two_rounds idle).1.started ≡ handlers forking false two_rounds)
    × ((accept_loop forking two_rounds idle).1.open_fds ≡ left_open two_rounds [])
accept_loop-handlers_example =
    accept_loop-handlers forking two_rounds idle refl (tt, (tt, (tt, tt)))

resolve_selector-slashes_example :
    (path_of (resolve_selector test_os (codes "/g/") (codes "d"))
      ≡ path_of (resolve_selector test_os (codes "/g") (codes "d")))
    × (path_of (resolve_selector test_os (codes "/g") (codes "/d"))
        ≡ path_of (resolve_selector test_os (codes "/g") (codes "d")))
    × (path_of (resolve_selector test_os (codes "/g") (codes "d")) ≡ some (codes "/g/d"))
resolve_selector-slashes_example =
    resolve_selector-slashes test_os b'/' (codes "g") (codes "d") b'g' (λ _. refl) (λ _. refl) refl
      refl refl
