-- ===== src/Windows/HandleRequest.antt =====
-- main_HandleRequest.c: the process that is started for a connection, up to its call of `handle_request`.
pub mod CommandLine
pub mod Closed
pub mod Process
pub mod GetSocket
use gopher_server_cross_plat.Base.{
  ℕ, zero, suc, ◌+◌, ◌-◌, Bool, true, false, not, ◌&&◌, List, [], ◌∷◌, ◌++◌, Option, none, some,
  ◌==◌, ltb, if◌then◌else◌, Bytes, length, codes, ℤ, pos, negsuc, eqb_ℤ, to_int, to_u32,
}
use gopher_server_cross_plat.Outcome.{Result, ok, stop, fault, ◌>>=◌}
use gopher_server_cross_plat.World.{Os}
use gopher_server_cross_plat.Utils.{buffer_size}
use gopher_server_cross_plat.Cstring.Decimal.{strtol}
use gopher_server_cross_plat.World.{Pipes}
use gopher_server_cross_plat.Windows.Pipe.{Answers, pipe_run_process}

-- The value of `atoi`.
abbrev pub atoi : Bytes → ℤ
atoi s = to_int (strtol s).0

-- What the process takes from its arguments: the fields of `h_configs` and `h_args`, and two globals.
pub record Request : Type 0 where
  pub port_number : ℕ
  pub mode_concurrency : ℕ
  pub root_dir : Bytes
  pub dos_protection : ℤ
  pub ip_client : Bytes
  pub hostname : Bytes
  pub ip_buffer : Bytes

-- The string's first byte; the terminator of an empty one.
abbrev first_byte : Bytes → ℕ
first_byte [] = 0
first_byte (c ∷ s) = c

abbrev request_of : Bytes → Bytes → Bytes → Bytes → Bytes → Bytes → Bytes → Request
request_of ip_buffer a0 a1 a2 a3 a4 a5 = record {
  port_number = to_u32 (atoi a1);
  mode_concurrency = first_byte a3;
  root_dir = a2;
  dos_protection = atoi a5;
  ip_client = a0;
  hostname = a4;
  ip_buffer = if ltb (length a4) buffer_size then a4 else ip_buffer;
}

-- strcpy into 2048 bytes, after a test that lets 2048 bytes and the terminator pass. None: it returns -1.
copy_root : Request → Result (Option Request)
copy_root q =
    if ltb buffer_size (length q.root_dir)
    then ok none
    else if ltb (length q.root_dir) buffer_size
    then ok (some q)
    else stop fault

-- argv[0] to argv[5]; `ip_buffer` as it is before.
unfoldable pub read_arguments : Bytes → List Bytes → Result (Option Request)
unfolding copy_root
read_arguments ip_buffer (a0 ∷ a1 ∷ a2 ∷ a3 ∷ a4 ∷ a5 ∷ more) =
    copy_root (request_of ip_buffer a0 a1 a2 a3 a4 a5)
read_arguments ip_buffer _ = stop fault

-- Answers of the system to this process.
pub record Offer : Type 0 where
  pub startup_ok : Bool
  pub opens_pipe : Bool  -- CreateFile of the named pipe
  pub reads_info : Bool  -- ReadFile of the protocol information
  pub socket : Option ℕ  -- WSASocket; none is INVALID_SOCKET

-- It returns or exits, or it handles the request on a socket.
pub data Stage : Type 0 where
  left : ℤ → Stage
  handling : ℕ → Request → Stage

-- How far it comes; what its globals for the pipe are, and how many handles it has open of the log process
-- and of the named pipe.
pub record Reached : Type 0 where
  pub stage : Stage
  pub pipes : Pipes
  pub process_handles : ℕ
  pub pipe_handles : ℕ

abbrev pub close_process : Reached → Reached
close_process r = record r { process_handles = r.process_handles - 2 }

abbrev pub close_pipe : Reached → Reached
close_pipe r = record r { pipe_handles = r.pipe_handles - 1 }

make_socket : Option ℕ → Request → Reached → Reached
make_socket none q r = close_pipe (close_process r)
make_socket (some fd) q r = close_pipe (record r { stage = handling fd q })

-- From the return of pipe_run_process on.
take_socket : Offer → Request → Reached → Reached
unfolding make_socket
take_socket o q r =
    if not o.startup_ok
    then close_process r
    else if not o.opens_pipe
    then close_process r
    else if not o.reads_info
    then close_process (close_pipe (record r { pipe_handles = r.pipe_handles + 1 }))
    else make_socket o.socket q (record r { pipe_handles = r.pipe_handles + 1 })

-- CreateProcess gives two handles. 23 is returned before it, when the standard output cannot be set, and
-- after it.
abbrev pub opened_handles : Answers → ℤ → ℕ
opened_handles a code =
    if eqb_ℤ code (pos 0) then 2 else if eqb_ℤ code (pos 23) && a.sets_out then 2 else 0

with_request : Os → Answers → Offer → Pipes → Option Request → Result Reached
unfolding take_socket pipe_run_process
with_request os a o p none =
    ok (record { stage = left (negsuc 0); pipes = p; process_handles = 0; pipe_handles = 0 })
with_request os a o p (some q) = do
  r ← pipe_run_process os a q.mode_concurrency p
  ok (
      take_socket o q (record {
        stage = left (negsuc 0);
        pipes = r.1;
        process_handles = opened_handles a r.0;
        pipe_handles = 0;
      }))

unfoldable pub main_handle_request :
    Os → Answers → Offer → Bytes → List Bytes → Pipes → Result Reached
unfolding read_arguments with_request
main_handle_request os a o ip_buffer argv p = do
  q ← read_arguments ip_buffer argv
  with_request os a o p q
