-- ===== src/Server.antt =====
-- linux/lib/socket/linux_socket.c, linux/lib/signals/linux_signals.c and main.c: the listening socket,
-- the accept loop, the start of a handler for each connection and the reload on SIGHUP.
pub mod Accepting
pub mod Hangup
pub mod Address
pub mod Mutex
pub mod Sessions
use gopher_server_cross_plat.Base.{
  ℕ, zero, suc, ◌+◌, Bool, true, false, not, List, [], ◌∷◌, ◌++◌, Option, none, some, ◌==◌, ltb,
  if◌then◌else◌, Bytes, ℤ, pos, negsuc, eqb_ℤ, ◌%◌, ◌^◌,
}
use gopher_server_cross_plat.Outcome.{Result, ok, stop, exited, ◌>>=◌}
use gopher_server_cross_plat.World.{Os}
use gopher_server_cross_plat.Utils.{Configs, ThreadArgs, m_process, m_thread, c_text, terminated}
use gopher_server_cross_plat.Config.{Parse, conf_parse_config_file}

-- Answers of the network. `bind` is told the port as `htons` takes it, modulo 2^16.
pub record Net : Type 0 where
  pub socket : Option ℕ
  pub setsockopt_ok : Bool
  pub bind_ok : ℕ → Bool
  pub listen_ok : Bool

-- The descriptor, if any, and the descriptors that the call leaves open.
listen_on : Net → ℕ → ℕ → Option ℕ × List ℕ
listen_on net port fd =
    if not net.setsockopt_ok
    then (none, fd ∷ [])
    else if not (net.bind_ok (port % 2 ^ 16))
    then (none, fd ∷ [])
    else if not net.listen_ok
    then (none, fd ∷ [])
    else (some fd, fd ∷ [])

start_server_on : Net → ℕ → Option ℕ → Option ℕ × List ℕ
unfolding listen_on
start_server_on net port none = (none, [])
start_server_on net port (some fd) = listen_on net port fd

unfoldable pub start_server : Net → ℕ → ℕ → Option ℕ × List ℕ
unfolding start_server_on
start_server net port queue_size =
    if ltb queue_size 1 then (none, []) else start_server_on net port net.socket

-- What a handler is started with: the descriptor, where none is -1, and its arguments.
abbrev pub Started : Type 0
Started = Option ℕ × ThreadArgs

-- The server while it accepts: its flag, its socket, the clients' descriptors that the process has
-- open, and the handlers started so far.
pub record Loop : Type 0 where
  pub reset_config : Bool
  pub listening : Bool
  pub open_fds : List ℕ
  pub started : List Started

unfoldable pub remove_fd : ℕ → List ℕ → List ℕ
remove_fd fd [] = []
remove_fd fd (x ∷ fds) = let rest = remove_fd fd fds in if x == fd then fds else x ∷ rest

abbrev pub close_fd : Option ℕ → List ℕ → List ℕ
close_fd none fds = fds
close_fd (some fd) fds = remove_fd fd fds

-- A thread keeps the descriptor; after a fork the parent closes its own.
unfoldable pub run_concurrency : Bool → Started → Loop → ℤ × Loop
unfolding remove_fd
run_concurrency spawned (fd, args) l =
    if args.configs.mode_concurrency == m_thread
    then (if spawned
        then (pos 0, record l { started = l.started ++ (fd, args) ∷ [] })
        else (negsuc 0, l))
    else if args.configs.mode_concurrency == m_process
    then (if spawned
        then (
          pos 0,
          record l { started = l.started ++ (fd, args) ∷ []; open_fds = close_fd fd l.open_fds },
        )
        else (negsuc 0, l))
    else (negsuc 0, l)

unfoldable pub end_server : Loop → Loop
end_server l = record l { listening = false }

unfoldable pub signal_sighup_handler : Loop → Loop
signal_sighup_handler l = record l { reset_config = true }

-- What accept gives.
pub data Accept : Type 0 where
  accepted : ℕ → Accept
  accept_interrupted accept_failed : Accept

-- One round of the loop, or a signal between two rounds.
pub data Event : Type 0 where
  hangup : Event  -- SIGHUP while select does not wait
  select_hangup : Event  -- SIGHUP ends select with EINTR
  select_interrupted : Event  -- another signal ends select with EINTR
  select_failed : Event
  connection : Accept → Bytes → Bool → Bool → Bool → Event  -- the address, the two allocations, the new thread or process

-- The configuration is copied as it is at that time.
abbrev pub args_of : Configs → Bool → Bytes → ThreadArgs
args_of configs reset client = record {
  configs = record configs { reset_config = reset };
  ip_client = client;
}

-- Once the descriptor is there: the two allocations and the start.
start_handler : Configs → Option ℕ → Bytes → Bool → Bool → Bool → Loop → Loop
unfolding run_concurrency
start_handler configs fd client name_ok args_ok spawned l =
    if not name_ok
    then l
    else if not args_ok
    then l
    else (run_concurrency spawned (fd, args_of configs l.reset_config client) l).1

-- After EINTR the round goes on, with the descriptor -1.
unfoldable pub accept_connection : Configs → Accept → Bytes → Bool → Bool → Bool → Loop → Loop
unfolding start_handler
accept_connection configs accept_failed client name_ok args_ok spawned l = l
accept_connection configs accept_interrupted client name_ok args_ok spawned l =
    start_handler configs none client name_ok args_ok spawned l
accept_connection configs (accepted fd) client name_ok args_ok spawned l =
    start_handler configs (some fd) client name_ok args_ok spawned
      (record l { open_fds = fd ∷ l.open_fds })

-- The loop returns -1 when select is interrupted with the flag set; none: it waits for more.
unfoldable pub accept_loop : Configs → List Event → Loop → Option ℤ × Loop
unfolding end_server signal_sighup_handler accept_connection
accept_loop configs [] l = (none, l)
accept_loop configs (hangup ∷ events) l = accept_loop configs events (signal_sighup_handler l)
accept_loop configs (select_hangup ∷ events) l =
    (some (negsuc 0), end_server (signal_sighup_handler l))
accept_loop configs (select_interrupted ∷ events) l =
    let rest = accept_loop configs events l in
    if l.reset_config then (some (negsuc 0), end_server l) else rest
accept_loop configs (select_failed ∷ events) l = accept_loop configs events l
accept_loop configs (connection a client name_ok args_ok spawned ∷ events) l =
    accept_loop configs events (accept_connection configs a client name_ok args_ok spawned l)

-- general/include/definitions.h
abbrev pub connection_queue : ℕ
connection_queue = 5000

unfoldable pub linux_socket : Net → Configs → List Event → Loop → Result (Option ℤ × Loop)
unfolding start_server accept_loop
linux_socket net configs events l = elim (start_server net configs.port_number connection_queue).0 [
  | none ↦ stop (exited (negsuc 0))
  | some fd ↦ ok (accept_loop configs events (record l { listening = true }))
]

-- The parser's variables as the configuration has them before, and the configuration after it.
abbrev pub to_parse : Configs → Bytes → Parse
to_parse c ip = record {
  port_number = c.port_number;
  mode_concurrency = c.mode_concurrency;
  root_dir = terminated c.root_dir;
  ip_buffer = ip;
  count_port = 0;
  count_mode = 0;
  count_root_dir = 0;
  count_ip = 0;
  wrong = false;
}

abbrev pub reloaded : Configs → Bytes → ℤ × Parse → Configs
reloaded c root (code, p) = record {
  port_number = p.port_number;
  mode_concurrency = p.mode_concurrency;
  root_dir = root;
  used_optarg = if eqb_ℤ code (pos 0) then false else c.used_optarg;
  reset_config = false;
  hostname = if eqb_ℤ code (pos 0) then some p.ip_buffer else c.hostname;
}

-- main's loop, a round for each session: the events of its socket, and the content of the
-- configuration file when it is read again. Each round prints root_dir before its session.
unfoldable pub serve_sessions :
    Os → Net → List (List Event × Option Bytes) → Bytes → Configs → Loop → Result (Configs × Loop)
unfolding linux_socket c_text
serve_sessions os net [] ip configs l = ok (configs, l)
serve_sessions os net ((events, content) ∷ sessions) ip configs l = do
  r ← linux_socket net configs events l
  elim r.0 as (λ _. Result (Configs × Loop)) [
    | none ↦ ok (configs, r.1)
    | some _ ↦ (do
      q ← conf_parse_config_file os content (to_parse configs ip)
      root ← c_text q.1.root_dir
      serve_sessions os net sessions q.1.ip_buffer (reloaded configs root q)
          (record r.1 { reset_config = false }))
  ]
