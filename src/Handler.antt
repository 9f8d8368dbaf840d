-- ===== src/Handler.antt =====
-- general/lib/socket/socket.c, and `handle_request` of linux/lib/socket/linux_socket.c and of
-- windows/lib/socket/windows_socket.c: one request, from its bytes to its end, on either platform.
pub mod Ending
pub mod Closing
pub mod Serving
pub mod Answers
pub mod TooLong
use gopher_server_cross_plat.Base.{
  ℕ, zero, suc, ◌+◌, ◌-◌, Bool, true, false, not, List, [], ◌∷◌, ◌++◌, Option, none, some, ◌==◌,
  if◌then◌else◌, Bytes, take, ℤ, pos, negsuc, codes, of_u32, is_negative, eqb_ℤ,
}
use gopher_server_cross_plat.Outcome.{Stop, Result, ok, stop, fault}
use gopher_server_cross_plat.World.{Os, World, M, Out, done, halt, pure, ◌>>=◌, ◌>>◌, lift}
use gopher_server_cross_plat.Utils.{Configs, ThreadArgs, buffer_size, port_of}
use gopher_server_cross_plat.Cstring.{c_string}
use gopher_server_cross_plat.Cstring.Decimal.{print_int}
use gopher_server_cross_plat.Send.{sprintf_into, socket_send_message}
use gopher_server_cross_plat.Platform.{Platform}
use gopher_server_cross_plat.Protocol.{
  resolve_selector, need_to_free, no_free, protocol_response, print_directory,
}
use gopher_server_cross_plat.Request.{clean_request, socket_read_request}
use gopher_server_cross_plat.Files.{
  FileType, not_exist, is_directory, is_reg_file, is_unmanaged_file, not_permitted, file_type,
}
use gopher_server_cross_plat.Mapping.{linux_memory_mapping}

-- The globals that a request reads: `ip_buffer`, `cwd` and `DOS_PROTECTION`.
pub record Globals : Type 0 where
  pub ip_buffer : Bytes
  pub cwd : Bytes
  pub dos_protection : Bool

abbrev set_type : ℕ → M (Unit {0})
set_type n w = done tt (record w { type_request = n })

abbrev pub too_long_line : ℤ → Bytes
too_long_line port =
    codes "\n3requested path to long\terror.host\t" ++ (print_int port ++ b'\n' ∷ [])

abbrev pub is_refused : FileType → Bool
is_refused not_exist = true
is_refused not_permitted = true
is_refused _ = false

module _ ⦃platform : Platform⦄ where
  -- Both codes end the request.
  resolved : ThreadArgs → ℤ × Option Bytes → M Bytes
  unfolding clean_request
  resolved args (code, none) = clean_request args
  resolved args (code, some path) =
      if eqb_ℤ code no_free
      then clean_request args
      else if eqb_ℤ code need_to_free
      then clean_request args
      else pure path

  unfoldable pub socket_resolve_selector : Os → ThreadArgs → Bytes → M Bytes
  unfolding resolved resolve_selector
  socket_resolve_selector os args buf = do
    r ← lift (resolve_selector os args.configs.root_dir buf)
    resolved args r

  -- The reply is sent if there is one, and the request ends in any case.
  send_reply : Os → ThreadArgs → ℤ × Option Bytes → M (Unit {0})
  unfolding clean_request socket_send_message
  send_reply os args (err, none) = clean_request args
  send_reply os args (err, some m) =
      if not (eqb_ℤ err (pos 0))
      then clean_request args
      else (do socket_send_message os m; clean_request args)

  unfoldable pub socket_send_error_to_client : Os → ThreadArgs → Bytes → Bytes → M (Unit {0})
  unfolding send_reply
  socket_send_error_to_client os args path buf = do
    r ← lift (protocol_response os (pos b'3') buf path (codes "localhost") (port_of args))
    send_reply os args r

  unfoldable pub socket_send_too_long_error_to_client : Os → ThreadArgs → M (Unit {0})
  unfolding clean_request sprintf_into socket_send_message
  socket_send_too_long_error_to_client os args = do
    ret ← lift (sprintf_into os 50 (too_long_line (port_of args)))
    if is_negative ret
        then clean_request args
        else (do socket_send_message os (too_long_line (port_of args)); clean_request args)

  -- The exit code of the listing is dropped.
  serve_directory : Os → Globals → ThreadArgs → Bytes → M (Unit {0})
  serve_directory os globals args path = do
    print_directory os path globals.ip_buffer (port_of args)
    pure tt

  -- After the item type of the path has been asked for.
  unfoldable pub serve_kind : Os → Globals → ThreadArgs → Bytes → FileType → M (Unit {0})
  unfolding serve_directory
  serve_kind os globals args path is_directory = do set_type 1; serve_directory os globals args path
  serve_kind os globals args path is_reg_file = do set_type 0; platform.serve_file os args path
  serve_kind os globals args path _ = pure tt

  serve_coded : Os → Globals → ThreadArgs → Bytes → FileType → M (Unit {0})
  unfolding serve_kind clean_request
  serve_coded os globals args path type_file = do
    code ← lift (platform.get_gopher_code os path)
    if is_negative code then clean_request args else serve_kind os globals args path type_file

  serve_type : Os → Globals → ThreadArgs → Bytes → Bytes → FileType → M (Unit {0})
  unfolding serve_coded socket_send_error_to_client
  serve_type os globals args path buf type_file =
      if is_refused type_file
      then (do set_type 1; socket_send_error_to_client os args path buf)
      else serve_coded os globals args path type_file

  unfoldable pub socket_manage_files : Os → Globals → ThreadArgs → Bytes → Bytes → M (Unit {0})
  unfolding serve_type
  socket_manage_files os globals args path buf =
      serve_type os globals args path buf (file_type os globals.cwd path)

  -- What follows the reading of the request.
  pub answer : Os → Globals → ThreadArgs → ℤ × Bytes → M (Unit {0})
  unfolding socket_resolve_selector socket_send_too_long_error_to_client socket_manage_files
      clean_request
  answer os globals args (ret, buf) = do
    path ← socket_resolve_selector os args (c_string buf)
    if eqb_ℤ ret (negsuc 1)
        then socket_send_too_long_error_to_client os args
        else (do socket_manage_files os globals args path (c_string buf); clean_request args)

  unfoldable pub handle_request : Os → Globals → ThreadArgs → M (Unit {0})
  unfolding answer
  handle_request os globals args = do
    r ← socket_read_request os args globals.dos_protection
    answer os globals args r
