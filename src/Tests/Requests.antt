-- ===== src/Tests/Requests.antt =====
-- Whole requests on the test system.
use gopher_server_cross_plat.Base.{
  ℕ, zero, suc, true, List, [], ◌∷◌, Bytes, codes, length, pos, ◌≡◌, refl, arith, Without, All, ◌≤◌,
  beq, without_lem, ◌++◌, some,
}
use gopher_server_cross_plat.Outcome.{ok}
use gopher_server_cross_plat.World.{got, failed, halt, done}
use gopher_server_cross_plat.Cstring.{c_string, starts_with, strtok_r, strcmp}
use gopher_server_cross_plat.Request.Chunks.{pieces, ReadsLine, socket_read_request-pieces}
use gopher_server_cross_plat.Request.{socket_read_request}
use gopher_server_cross_plat.Request.Early.{by_error}
use gopher_server_cross_plat.Codes.{get_gopher_code, choose_code, check_subtype, check_type}
use gopher_server_cross_plat.Dict.{bsearch}
use gopher_server_cross_plat.Cstring.Decimal.{print_int}
use gopher_server_cross_plat.Protocol.Selector.{joined}
use gopher_server_cross_plat.Files.{file_type, is_directory, is_reg_file, black_list_file}
use gopher_server_cross_plat.Protocol.Listing.{Coded}
use gopher_server_cross_plat.Handler.{handle_request, is_refused, too_long_line}
use gopher_server_cross_plat.Handler.Serving.{Works, Asks}
use gopher_server_cross_plat.Linux.Replies.{
  refused_end, listed_end, file_end, handle_request-refused, handle_request-directory,
  handle_request-file, EndsIn,
}
use gopher_server_cross_plat.Linux.Closing.{handle_request-Ends}
use gopher_server_cross_plat.Handler.Ending.{Ends}
use gopher_server_cross_plat.Linux.Early.{handle_request-too_long, handle_request-Gone}
use gopher_server_cross_plat.Tests.{test_os, test_args, test_globals, world}
use gopher_server_cross_plat.Utils.{port_of}
use gopher_server_cross_plat.Linux.{linux, end_of}
use gopher_server_cross_plat.Protocol.{print_directory}
use gopher_server_cross_plat.Protocol.Menu.{Listed, read_menu, items_of, print_directory-read_menu}

pub test_os-Works : Works test_os
test_os-Works = record { allocates = λ _. refl; prints = λ _. refl; sends = λ _ _. refl }

-- One letter, a carriage return and a newline, in two pieces.
abbrev pub in_pieces : ℕ → List Bytes
in_pieces c = (c ∷ []) ∷ codes "\r\n" ∷ []

pub in_pieces-Asks : (c : ℕ) → Without b'\n' (c ∷ []) → Asks (in_pieces c) (c ∷ [])
in_pieces-Asks c h = record {
  before_newline = b'\r';
  post = [];
  non_empty = (tt, (tt, tt));
  no_newline = (h.0, (refl, tt));
  whole = refl;
  short = omega arith;
}

kind_d : file_type test_os test_globals.cwd (codes "/g/d") ≡ is_directory
unfolding file_type black_list_file beq
kind_d = refl

item_d : get_gopher_code test_os (codes "/g/d") ≡ ok (pos b'0')
unfolding get_gopher_code starts_with strtok_r choose_code check_subtype check_type bsearch strcmp
item_d = refl

kind_f : file_type test_os test_globals.cwd (codes "/g/f") ≡ is_reg_file
unfolding file_type black_list_file beq
kind_f = refl

kind_x : is_refused (file_type test_os test_globals.cwd (codes "/g/x")) ≡ true
unfolding file_type black_list_file beq
kind_x = refl

item_f : get_gopher_code test_os (codes "/g/f") ≡ ok (pos b'0')
unfolding get_gopher_code starts_with strtok_r choose_code check_subtype check_type bsearch strcmp
item_f = refl

item_d_f : get_gopher_code test_os (codes "/g/d/f") ≡ ok (pos b'0')
unfolding get_gopher_code starts_with strtok_r choose_code check_subtype check_type bsearch strcmp
item_d_f = refl

abbrev plain_code : Bytes → ℕ
plain_code _ = b'0'

Coded-names : All (Coded test_os plain_code (codes "/g/d")) (codes "f" ∷ codes ".h" ∷ [])
Coded-names = ((λ _. (item_d_f, refl)), ((λ h. cc), tt))

pub port_short : length (print_int (pos 70)) ≤ 9
unfolding print_int
port_short = omega arith

c_d : c_string (codes "d") ≡ codes "d"
unfolding c_string
c_d = refl

abbrev wanted : Bytes → Bytes
wanted line = joined (codes "/g") (c_string line)

wanted_d : wanted (codes "d") ≡ codes "/g/d"
unfolding c_string
wanted_d = refl

wanted_f : wanted (codes "f") ≡ codes "/g/f"
unfolding c_string
wanted_f = refl

wanted_x : wanted (codes "x") ≡ codes "/g/x"
unfolding c_string
wanted_x = refl

handle_request-file_example :
    EndsIn test_args
      (file_end test_args (wanted (codes "f")) (codes "hi") (codes "host") (world []))
      (handle_request test_os test_globals test_args (world (pieces (in_pieces b'f') [])))
unfolding c_string
handle_request-file_example =
    handle_request-file test_os test_globals test_args b'/' (codes "g") (in_pieces b'f') (codes "f")
      [] (world []) b'h' (codes "i") (codes "host") b'0' test_os-Works refl
      (in_pieces-Asks b'f' (refl, tt)) refl kind_f item_f refl refl refl refl (omega arith) refl
      refl refl

handle_request-directory_example :
    EndsIn test_args
      (listed_end test_globals test_args plain_code
        (wanted (codes "d"))
        (codes "f" ∷ codes ".h" ∷ [])
        (world []))
      (handle_request test_os test_globals test_args (world (pieces (in_pieces b'd') [])))
unfolding c_string
handle_request-directory_example =
    handle_request-directory test_os test_globals test_args b'/' (codes "g") (in_pieces b'd')
      (codes "d") [] (world []) plain_code (codes "f" ∷ codes ".h" ∷ []) b'0' test_os-Works refl
      (in_pieces-Asks b'd' (refl, tt)) refl kind_d item_d refl Coded-names port_short

Listed-names : All (Listed plain_code (codes "/g/d")) (codes "f" ∷ codes ".h" ∷ [])
Listed-names = ((λ _. (((refl, tt), (refl, tt)), refl)), ((λ h. cc), tt))

print_directory-read_menu_example :
    (reply : Bytes) × (print_directory ⦃platform = linux⦄ test_os
        (codes "/g/d")
        (codes "host")
        (pos 70)
        (world [])
      ≡ done (pos 0) (record (world []) { sent = (world []).sent ++ reply }))
    × (read_menu reply
        ≡ some (items_of plain_code (codes "/g/d") (codes "host") 70 (codes "f" ∷ codes ".h" ∷ [])))
print_directory-read_menu_example =
    print_directory-read_menu ⦃platform = linux⦄ test_os plain_code (codes "/g/d") (codes "host") 70
      (codes "f" ∷ codes ".h" ∷ []) (world []) test_os-Works.allocates test_os-Works.prints
      test_os-Works.sends
      (without_lem b'\t' (codes "/g/d") refl, without_lem b'\n' (codes "/g/d") refl)
      (without_lem b'\t' (codes "host") refl, without_lem b'\n' (codes "host") refl) (omega arith)
      port_short refl Coded-names Listed-names refl

handle_request-refused_example :
    EndsIn test_args
      (refused_end test_args (c_string (codes "x")) (world []))
      (handle_request test_os test_globals test_args (world (pieces (in_pieces b'x') [])))
unfolding c_string
handle_request-refused_example =
    handle_request-refused test_os test_globals test_args b'/' (codes "g") (in_pieces b'x')
      (codes "x") [] (world []) test_os-Works refl (in_pieces-Asks b'x' (refl, tt)) refl kind_x
      (omega (arith, port_short))

handle_request-Ends_example :
    Ends 1 0 (handle_request test_os test_globals test_args (world (pieces (in_pieces b'f') [])))
handle_request-Ends_example =
    handle_request-Ends test_os test_globals test_args (world (pieces (in_pieces b'f') []))

unfoldable many : ℕ → Bytes
many zero = []
many (suc n) = b'a' ∷ many n

length-many : (n : ℕ) → length (many n) ≡ n
unfolding many
length-many zero = refl
length-many (suc n) = omega (arith, length-many n)

handle_request-too_long_example :
    EndsIn test_args
      (record (world []) { sent = too_long_line (port_of test_args); closes = 1; type_request = 1 })
      (handle_request test_os test_globals test_args (world (got (b'a' ∷ many 2048) ∷ [])))
handle_request-too_long_example =
    handle_request-too_long test_os test_globals test_args b'/' (codes "g") b'a' (many 2048) []
      (world []) test_os-Works refl refl (omega arith) (omega (arith, length-many 2048)) refl

handle_request-Gone_example :
    handle_request test_os test_globals test_args (world (failed ∷ []))
    ≡ halt (end_of test_args) (world [])
handle_request-Gone_example =
    handle_request-Gone test_os test_globals test_args failed [] (world []) by_error refl refl

socket_read_request-pieces_example :
    ReadsLine
      (codes "f")
      (world [])
      (socket_read_request test_os test_args true (world (pieces (in_pieces b'f') [])))
socket_read_request-pieces_example =
    socket_read_request-pieces test_os test_args true (in_pieces b'f') (codes "f") [] b'\r' []
      (world []) refl (tt, (tt, tt)) (refl, (refl, tt)) refl (omega arith)
