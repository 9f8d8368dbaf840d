-- ===== src/Linux.antt =====
-- The platform Linux: the parts of general/lib/socket/socket.c that are built on unix, with the record
-- that linux/lib/pipe/linux_pipe.c writes for a file.
pub mod Closing
pub mod Replies
pub mod Early
pub mod Stuck
use gopher_server_cross_plat.Base.{
  ℕ, zero, suc, ◌+◌, ◌-◌, Bool, true, false, not, List, [], ◌∷◌, ◌++◌, Option, none, some, ◌==◌,
  if◌then◌else◌, Bytes, take, ℤ, pos, negsuc, codes, of_u32, is_negative, eqb_ℤ,
}
use gopher_server_cross_plat.Outcome.{Stop, Result, ok, stop, fault, exited, thread_exit}
use gopher_server_cross_plat.World.{Os, World, M, Out, done, halt, pure, ◌>>=◌, ◌>>◌, lift}
use gopher_server_cross_plat.Platform.{Platform}
use gopher_server_cross_plat.Utils.{Configs, ThreadArgs, buffer_size, m_thread, port_of}
use gopher_server_cross_plat.Cstring.Decimal.{print_int}
use gopher_server_cross_plat.Codes.{get_gopher_code}
use gopher_server_cross_plat.Files.{black_list_file}
use gopher_server_cross_plat.Mapping.{linux_memory_mapping}

abbrev pub os_separator : ℕ
os_separator = b'/'

-- How the thread or the process of a request ends.
abbrev pub end_of : ThreadArgs → Stop
end_of args = if args.configs.mode_concurrency == m_thread then thread_exit else exited (pos 0)

-- The descriptor is shut down and closed when `type_Request` is set; then the thread or the process
-- ends.
abbrev pub end_request : ThreadArgs → World → Stop × World
end_request args w =
    (end_of args, if w.type_request == 0 then w else record w { closes = w.closes + 1 })

-- "FileName: %s\t%d Byte \t IP Client: %s \t %s Port: %d"
unfoldable pub log_record : Bytes → ℤ → Bytes → Bytes → ℤ → Bytes
log_record path dim_file ip_client hostname port =
    codes "FileName: "
    ++ path
    ++ b'\t' ∷ print_int dim_file
    ++ codes " Byte \t IP Client: "
    ++ ip_client
    ++ codes " \t "
    ++ hostname
    ++ codes " Port: "
    ++ print_int port

pub log_with : Bytes → ℤ → ThreadArgs → Option Bytes → M (Unit {0})
unfolding log_record
log_with path dim_file args none w = halt fault w
log_with path dim_file args (some hostname) w = done tt (record w {
  log =
      w.log
      ++ take (buffer_size + buffer_size - 1)
          (log_record path dim_file args.ip_client hostname (port_of args))
        ∷ [];
})

-- linux/lib/pipe/linux_pipe.c: the record that is written to the log process. Its locking is
-- modelled apart, in LogPipe; here the call waits for no one.
unfoldable pub socket_pipe_log_server_single_process : Bytes → ThreadArgs → ℤ → M (Unit {0})
unfolding log_with
socket_pipe_log_server_single_process path args dim_file =
    log_with path dim_file args args.configs.hostname

unfoldable pub serve_file : Os → ThreadArgs → Bytes → M (Unit {0})
unfolding socket_pipe_log_server_single_process
serve_file os args path = do
  map_size ← linux_memory_mapping os args.configs.mode_concurrency path
  if is_negative map_size then pure tt else socket_pipe_log_server_single_process path args map_size

instance abbrev pub linux : Platform
linux = record {
  separator = os_separator;
  get_gopher_code = get_gopher_code;
  black_list_file = black_list_file;
  end_request = end_request;
  serve_file = serve_file;
}
