-- ===== src/Windows/Runner.antt =====
-- windows/lib/socket/windows_socket.c and windows/lib/events/windows_events.c: the accept loop, the
-- threads and processes that it starts, and the console handler.
pub mod Sharing
pub mod Children
pub mod Concurrency
use gopher_server_cross_plat.Base.{
  ℕ, zero, suc, ◌+◌, ◌-◌, Bool, true, false, not, ◌&&◌, List, [], ◌∷◌, ◌++◌, Option, none, some,
  ◌==◌, ltb, if◌then◌else◌, Bytes, take, codes, ℤ, pos, negsuc, of_u32, ◌%◌, ◌^◌,
}
use gopher_server_cross_plat.Outcome.{Result, ok, stop, exited, blocked, ◌>>=◌}
use gopher_server_cross_plat.Utils.{Configs, m_process, m_thread, ut_clone_configs}
use gopher_server_cross_plat.Cstring.Decimal.{print_nat, print_int}
use gopher_server_cross_plat.Handler.{Globals}

-- Answers while a process is started for a connection.
pub record Launch : Type 0 where
  pub creates : Bool  -- CreateProcess
  pub duplicates : Bool  -- WSADuplicateSocketA
  pub connects : Bool  -- ConnectNamedPipe
  pub writes : Bool  -- WriteFile of the protocol information
  pub ends : Bool  -- whether the process ends at last
  pub closes : Bool  -- closesocket

-- A process that has been started: its command line, the client's socket, where none is
-- INVALID_SOCKET, and whether it was sent what the socket is made of again.
pub record Child : Type 0 where
  pub command : Bytes
  pub socket : Option ℕ
  pub delivered : Bool

-- struct ThreadArgs, but for `type_Request` and `hostname`, which the loop does not set.
pub record SharedArgs : Type 0 where
  pub fd : Option ℕ
  pub ip_client : Bytes
  pub configs : Configs

-- What a handler reads there of its client: the socket and the address.
abbrev pub Client : Type 0
Client = Option ℕ × Bytes

-- There is one `args`, on the stack of the loop; each thread is given its address.
pub record Runner : Type 0 where
  pub args : SharedArgs
  pub reset_config : Bool
  pub server_open : Bool
  pub timeout : ℕ
  pub sockets : List ℕ  -- clients' sockets that the loop has not closed
  pub threads : ℕ  -- threads started
  pub loads : List (ℕ × Client)  -- what a thread has read in `args`
  pub children : List Child

-- "%s %d \"%s\" %d %s %d"
unfoldable pub command_text : Bytes → Configs → Bytes → Bool → Bytes
command_text ip configs ip_buffer dos_protection =
    ip
    ++ b' ' ∷ print_int (of_u32 configs.port_number)
    ++ b' ' ∷ b'"' ∷ configs.root_dir
    ++ b'"' ∷ b' ' ∷ print_nat configs.mode_concurrency
    ++ b' ' ∷ ip_buffer
    ++ b' ' ∷ print_nat (if dos_protection then 1 else 0)

-- snprintf into 4096 bytes
unfoldable pub command_line : Bytes → Configs → Bytes → Bool → Bytes
unfolding command_text
command_line ip configs ip_buffer dos_protection =
    take 4095 (command_text ip configs ip_buffer dos_protection)

unfoldable pub remove_socket : ℕ → List ℕ → List ℕ
remove_socket fd [] = []
remove_socket fd (x ∷ fds) = let rest = remove_socket fd fds in if x == fd then fds else x ∷ rest

abbrev pub close_socket : Option ℕ → List ℕ → List ℕ
close_socket none fds = fds
close_socket (some fd) fds = remove_socket fd fds

-- The loop waits for the process, and then closes the client's socket.
abbrev await_child : Launch → Option ℕ → Runner → Result Runner
await_child a client r =
    if a.ends
    then ok (if a.closes then record r { sockets = close_socket client r.sockets } else r)
    else stop blocked

-- `configs` is the global one.
unfoldable pub run_process : Globals → Configs → Launch → Bytes → Option ℕ → Runner → Result Runner
unfolding command_line remove_socket
run_process globals configs a ip client r =
    if not a.creates
    then ok r
    else if not a.duplicates
    then stop (exited (pos 1))
    else await_child a client (record r {
      children =
          r.children
          ++ record {
            command = command_line ip configs globals.ip_buffer globals.dos_protection;
            socket = client;
            delivered = a.connects && a.writes;
          }
            ∷ [];
    })

-- CTRL_C_EVENT is 0.
unfoldable pub console_handler : ℕ → Runner → Runner
console_handler signal r = if signal == 0 then record r { reset_config = true } else r

unfoldable pub end_server : Runner → Runner
end_server r = record r { server_open = false }

-- What a round of the loop meets, the signals to the console, and the reads of the threads.
pub data Event : Type 0 where
  console : ℕ → Event
  select_interrupted select_failed timed_out other_ready : Event
  connection : Option ℕ → Bytes → Bool → Launch → Event  -- accept, inet_ntoa, CreateThread, and a process
  load : ℕ → Event  -- a thread, by its number, reads the socket and the address through its pointer

-- A socket is unsigned, and no value of accept is below 0. The socket and the address go to the one `args`.
abbrev pub accept_client : Option ℕ → Bytes → Runner → Runner
accept_client client ip r = record r {
  args = record r.args { fd = client; ip_client = ip };
  sockets = elim client [ none ↦ r.sockets | some fd ↦ fd ∷ r.sockets ];
}

unfoldable pub start_client :
    Globals → Configs → Option ℕ → Bytes → Bool → Launch → Runner → Result Runner
unfolding run_process
start_client globals configs client ip spawned a r =
    if r.args.configs.mode_concurrency == m_thread
    then ok (if spawned then record r { threads = r.threads + 1 } else r)
    else if r.args.configs.mode_concurrency == m_process
    then run_process globals configs a ip client r
    else stop (exited (negsuc 0))

unfoldable pub load_args : ℕ → Runner → Runner
load_args i r =
    if ltb i r.threads
    then record r { loads = r.loads ++ (i, (r.args.fd, r.args.ip_client)) ∷ [] }
    else r

-- general/include/definitions.h
abbrev pub sock_start_timeout : ℕ
sock_start_timeout = 1

abbrev pub sock_loop_timeout : ℕ
sock_loop_timeout = 2

-- The loop returns -1, or waits for more: none.
unfoldable pub accept_loop : Globals → Configs → List Event → Runner → Result (Option ℤ × Runner)
unfolding console_handler end_server start_client load_args
accept_loop globals configs [] r = ok (none, r)
accept_loop globals configs (console signal ∷ events) r =
    accept_loop globals configs events (console_handler signal r)
accept_loop globals configs (select_interrupted ∷ events) r = accept_loop globals configs events r
accept_loop globals configs (select_failed ∷ events) r = ok (some (negsuc 0), r)
accept_loop globals configs (timed_out ∷ events) r =
    let rest = accept_loop globals configs events (record r { timeout = sock_loop_timeout }) in
    if r.reset_config then ok (some (negsuc 0), end_server r) else rest
accept_loop globals configs (other_ready ∷ events) r = accept_loop globals configs events r
accept_loop globals configs (connection client ip spawned a ∷ events) r = do
  s ← start_client globals configs client ip spawned a (accept_client client ip r)
  accept_loop globals configs events s
accept_loop globals configs (load i ∷ events) r = accept_loop globals configs events (load_args i r)

-- Answers of the network. `socket` gives INVALID_SOCKET as none, which is not below 0 either.
pub record Net : Type 0 where
  pub startup_ok : Bool
  pub socket : Option ℕ
  pub bind_ok : ℕ → Bool  -- the port as `htons` takes it
  pub listen_ok : Bool

-- Without a socket bind fails.
abbrev binds : Net → ℕ → Option ℕ → Bool
binds net port none = false
binds net port (some fd) = net.bind_ok (port % 2 ^ 16)

abbrev is_open : Option ℕ → Bool
is_open none = false
is_open (some fd) = true

unfoldable pub windows_socket_runner :
    Globals → Net → Configs → List Event → Runner → Result (Option ℤ × Runner)
unfolding accept_loop ut_clone_configs
windows_socket_runner globals net configs events r =
    if not net.startup_ok
    then ok (some (negsuc 0), r)
    else if not (binds net configs.port_number net.socket)
    then ok (some (negsuc 0), record r { server_open = is_open net.socket })
    else if not net.listen_ok
    then ok (some (negsuc 0), record r { server_open = is_open net.socket })
    else accept_loop globals configs events (record r {
      server_open = true;
      timeout = sock_start_timeout;
      threads = 0;
      args = record r.args {
        configs = ut_clone_configs configs (record configs { reset_config = false });
      };
    })
