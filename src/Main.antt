-- ===== src/Main.antt =====
-- main.c on Linux: from the configuration file and the command line to the sessions of the server.
pub mod Reload
use gopher_server_cross_plat.Base.{
  ℕ, zero, suc, Bool, true, false, List, [], ◌∷◌, Option, none, some, if◌then◌else◌, Bytes, ℤ, pos,
  negsuc, is_negative, eqb_ℤ,
}
use gopher_server_cross_plat.Outcome.{Result, ok, stop, exited, ◌>>=◌}
use gopher_server_cross_plat.World.{Os}
use gopher_server_cross_plat.Utils.{Configs, ut_get_cwd, c_text}
use gopher_server_cross_plat.Config.{Opt, Options, Parse, conf_read_opt, conf_parse_config_file}
use gopher_server_cross_plat.Server.{Net, Loop, Event, serve_sessions, to_parse}
use gopher_server_cross_plat.LogPipe.Setup
use gopher_server_cross_plat.LogPipe.Setup.{
  Fork, fork_failed, in_parent, in_child, socket_pipe_single_process,
}

-- A process after both forks: it leads a session of its own, and ignores SIGHUP.
pub record Daemon : Type 0 where
  pub own_session : Bool
  pub ignores_sighup : Bool

-- The values of the two forks in the process that is looked at; a value of 1 would pass as 0 does.
abbrev second_fork : ℤ → Result Daemon
second_fork (negsuc n) = stop (exited (negsuc 0))
second_fork (pos zero) = ok (record { own_session = true; ignores_sighup = true })
second_fork (pos (suc zero)) = ok (record { own_session = true; ignores_sighup = true })
second_fork (pos (suc (suc n))) = stop (exited (pos 0))

unfoldable pub run_in_daemon : ℤ → ℤ → Result Daemon
run_in_daemon (negsuc n) second = stop (exited (negsuc 0))
run_in_daemon (pos zero) second = second_fork second
run_in_daemon (pos (suc zero)) second = second_fork second
run_in_daemon (pos (suc (suc n))) second = stop (exited (pos 0))

-- The answers to main: the configuration file, the options, the forks of the daemon, the working directory
-- and the setup of the log process.
pub record Startup : Type 0 where
  pub content : Option Bytes
  pub opts : List Opt
  pub first_fork : ℤ
  pub second_fork : ℤ
  pub working_dir : Option Bytes
  pub log_setup : gopher_server_cross_plat.LogPipe.Setup.Answers

-- What the options are set on top of: what the file has set.
abbrev pub to_options : Parse → Options
to_options p = record {
  port_number = p.port_number;
  mode_concurrency = p.mode_concurrency;
  root_dir = p.root_dir;
  used_optarg = false;
  dos_protection = false;
  ip_buffer = p.ip_buffer;
  daemon = false;
}

-- The configuration of the server, with the text of its root_dir; `hostname` points to `ip_buffer`.
abbrev pub configured : Bytes → Options → Configs
configured root o = record {
  port_number = o.port_number;
  mode_concurrency = o.mode_concurrency;
  root_dir = root;
  used_optarg = o.used_optarg;
  reset_config = false;
  hostname = some o.ip_buffer;
}

-- Where a process is: main has returned, or it is the log process, or the server with its configuration
-- after the sessions, `cwd` and `DOS_PROTECTION`.
pub data Running : Type 0 where
  returned : ℤ → Running
  log_process : Running
  serving : Configs → Loop → Bytes → Bool → Running

abbrev pub idle : Loop
idle = record { reset_config = false; listening = false; open_fds = []; started = [] }

abbrev pub Sessions : Type 0
Sessions = List (List Event × Option Bytes)

-- Once the log process has been made: the sessions, in the server.
abbrev pub after_fork : Os → Net → Sessions → Bytes → Options → Bytes → Fork → Result Running
after_fork os net sessions root o cwd in_child = ok log_process
after_fork os net sessions root o cwd fork_failed = stop (exited (negsuc 0))
after_fork os net sessions root o cwd in_parent = do
  r ← serve_sessions os net sessions o.ip_buffer (configured root o) idle
  ok (serving r.0 r.1 cwd o.dos_protection)

abbrev into_background : Startup → Options → Result (Unit {0})
into_background s o =
    if o.daemon then (do d ← run_in_daemon s.first_fork s.second_fork; ok tt) else ok tt

-- strlen(root_dir) comes before the rest.
with_options : Os → Net → Startup → Sessions → ℤ × Options → Result Running
unfolding run_in_daemon ut_get_cwd c_text socket_pipe_single_process
with_options os net s sessions (code, o) =
    if eqb_ℤ code (pos 0)
    then (do
      _ ← into_background s o
      root ← c_text o.root_dir
      cwd ← ut_get_cwd s.working_dir
      _ ← socket_pipe_single_process s.log_setup
      after_fork os net sessions root o cwd s.log_setup.fork)
    else ok (returned (pos 1))

-- The return code of the configuration file is not looked at. `before` is what the variables hold.
unfoldable pub main : Os → Net → Startup → Sessions → Parse → Result Running
unfolding with_options
main os net s sessions before = do
  p ← conf_parse_config_file os s.content before
  r ← conf_read_opt s.opts (to_options p.1)
  with_options os net s sessions r
