-- ===== src/Tests/Stuck.antt =====
-- Two requests in thread mode, the first for an empty file.
use gopher_server_cross_plat.Base.{pos, ◌≡◌, ◌+◌, refl, [], codes, some}
use gopher_server_cross_plat.Outcome.{ok, thread_exit, blocked}
use gopher_server_cross_plat.World.{Os, World, halt}
use gopher_server_cross_plat.Cstring.{c_string, strtok_r, strcmp, starts_with}
use gopher_server_cross_plat.Codes.{get_gopher_code, choose_code, check_subtype, check_type}
use gopher_server_cross_plat.Dict.{bsearch}
use gopher_server_cross_plat.Protocol.Selector.{joined}
use gopher_server_cross_plat.Request.Chunks.{pieces}
use gopher_server_cross_plat.Files.{is_reg_file, file_type, black_list_file}
use gopher_server_cross_plat.Handler.{handle_request}
use gopher_server_cross_plat.Handler.Serving.{Works, EndsBy}
use gopher_server_cross_plat.Linux.{linux}
use gopher_server_cross_plat.Linux.Stuck.{AsksFile, next_client, handle_request-stuck}
use gopher_server_cross_plat.Base.{beq}
use gopher_server_cross_plat.Tests.{test_os, test_args, test_globals, world}
use gopher_server_cross_plat.Tests.Requests.{in_pieces, in_pieces-Asks}

abbrev empty_os : Os
empty_os = record test_os { fstat_size = λ _. some 0 }

empty_os-Works : Works empty_os
empty_os-Works = record { allocates = λ _. refl; prints = λ _. refl; sends = λ _ _. refl }

empty_kind :
    file_type empty_os test_globals.cwd (joined (codes "/g") (c_string (codes "f"))) ≡ is_reg_file
unfolding file_type black_list_file beq c_string
empty_kind = refl

empty_code : get_gopher_code empty_os (joined (codes "/g") (c_string (codes "f"))) ≡ ok (pos b'0')
unfolding get_gopher_code starts_with strtok_r choose_code check_subtype check_type bsearch strcmp
    c_string
empty_code = refl

abbrev file-AsksFile : AsksFile empty_os test_globals test_args (in_pieces b'f')
file-AsksFile = record {
  first = b'/';
  root = codes "g";
  line = codes "f";
  item = b'0';
  rooted = refl;
  asks = in_pieces-Asks b'f' (refl, tt);
  kind = empty_kind;
  coded = empty_code;
  opens = refl;
}

handle_request-stuck_example :
    (u : World) × (handle_request empty_os test_globals test_args
        (world (pieces (in_pieces b'f') []))
      ≡ halt thread_exit u)
    × (u.closes ≡ 0)
    × (u.sent ≡ [])
    × (u.files_open ≡ 1)
    × EndsBy
        (halt blocked)
        (record u { sent = []; closes = 0; type_request = 0; files_open = u.files_open + 1 })
        (handle_request empty_os test_globals test_args
          (next_client (pieces (in_pieces b'f') []) u))
handle_request-stuck_example =
    handle_request-stuck empty_os test_globals test_args test_args (in_pieces b'f') (in_pieces b'f')
      (codes "host") [] [] (world []) empty_os-Works refl refl refl file-AsksFile refl file-AsksFile
      refl refl
