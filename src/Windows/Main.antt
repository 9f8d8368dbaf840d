-- ===== src/Windows/Main.antt =====
-- main.c on Windows: the named pipe, the configuration, the console handler and the sessions.
use gopher_server_cross_plat.Base.{
  Bool, false, not, List, [], ◌∷◌, Option, none, some, Bytes, ℤ, pos, negsuc, eqb_ℤ, if◌then◌else◌,
}
use gopher_server_cross_plat.Outcome.{Result, ok, stop, exited, ◌>>=◌}
use gopher_server_cross_plat.World.{Os}
use gopher_server_cross_plat.Utils.{Configs, ut_get_cwd, c_text}
use gopher_server_cross_plat.Config.{Opt, Options, Parse, conf_read_opt, conf_parse_config_file}
use gopher_server_cross_plat.Server.{to_parse, reloaded}
use gopher_server_cross_plat.Handler.{Globals}
use gopher_server_cross_plat.Main.{to_options, configured}
use gopher_server_cross_plat.Windows.Runner.{Net, Event, Runner, windows_socket_runner}

-- The answers to main: CreateNamedPipe, the file, the options, the working directory, SetConsoleCtrlHandler.
pub record Startup : Type 0 where
  pub named_pipe : Bool
  pub content : Option Bytes
  pub opts : List Opt
  pub working_dir : Option Bytes
  pub sets_handler : Bool

-- A session: the network, what the loop meets, and the file when it is read again.
pub record Session : Type 0 where
  pub net : Net
  pub events : List Event
  pub content : Option Bytes

-- Main has returned, or the server is in a session or has used them up.
pub data Running : Type 0 where
  returned : ℤ → Running
  serving : Configs → Runner → Globals → Running

-- The loop goes on with the file's values, whatever the session returned.
unfoldable pub serve_sessions : Os → List Session → Globals → Configs → Runner → Result Running
unfolding windows_socket_runner c_text
serve_sessions os [] globals configs r = ok (serving configs r globals)
serve_sessions os (s ∷ sessions) globals configs r = do
  q ← windows_socket_runner globals s.net configs s.events r
  elim q.0 as (λ _. Result Running) [
    | none ↦ ok (serving configs q.1 globals)
    | some _ ↦ (do
      p ← conf_parse_config_file os s.content (to_parse configs globals.ip_buffer)
      root ← c_text p.1.root_dir
      serve_sessions os sessions (record globals { ip_buffer = p.1.ip_buffer })
          (reloaded configs root p) (record q.1 { reset_config = false }))
  ]

abbrev globals_of : Options → Bytes → Globals
globals_of o cwd = record { ip_buffer = o.ip_buffer; cwd = cwd; dos_protection = o.dos_protection }

abbrev no_client : Configs → Runner
no_client configs = record {
  args = record { fd = none; ip_client = []; configs = configs };
  reset_config = false;
  server_open = false;
  timeout = 0;
  sockets = [];
  threads = 0;
  loads = [];
  children = [];
}

with_options : Os → Startup → List Session → ℤ × Options → Result Running
unfolding serve_sessions ut_get_cwd c_text
with_options os s sessions (code, o) =
    if eqb_ℤ code (pos 0)
    then (do
      root ← c_text o.root_dir
      cwd ← ut_get_cwd s.working_dir
      if s.sets_handler
          then serve_sessions os sessions (globals_of o cwd) (configured root o)
              (no_client (configured root o))
          else ok (returned (pos 1)))
    else ok (returned (pos 1))

unfoldable pub main : Os → Startup → List Session → Parse → Result Running
unfolding with_options
main os s sessions before = if not s.named_pipe then stop (exited (negsuc 124)) else (do
  p ← conf_parse_config_file os s.content before
  r ← conf_read_opt s.opts (to_options p.1)
  with_options os s sessions r)
