-- ===== src/Windows/HandleRequest/Process.antt =====
-- main_HandleRequest.c, with the request that it handles: the whole process for a connection.
pub mod Handed
pub mod Files
use gopher_server_cross_plat.Base.{
  ℕ, ◌≤◌, ◌<◌, ◌^◌, ◌≡◌, Bool, true, false, not, List, [], ◌∷◌, ◌++◌, none, some, refl, arith, ◌∙◌,
  ap, sym, subst, Bytes, length, pos, eqb_ℤ,
}
use gopher_server_cross_plat.Outcome.{Result, ok, stop, exited, >>=-returned}
use gopher_server_cross_plat.World.{Os, World, M, Out, done, halt}
use gopher_server_cross_plat.Utils.{Configs, ThreadArgs, buffer_size, m_process}
use gopher_server_cross_plat.Handler.{Globals}
use gopher_server_cross_plat.Handler.Ending.{Ends}
use gopher_server_cross_plat.Windows.Pipe.{child_command}
use gopher_server_cross_plat.Windows.Pipe.Records.{Working, pipe_run_process_pipe}
use gopher_server_cross_plat.Windows.Runner.{command_text, command_line}
use gopher_server_cross_plat.Windows.Handler.{Answers, handle_request}
use gopher_server_cross_plat.Windows.Handler.Closing.{windows_request-Ends}
use gopher_server_cross_plat.Windows.HandleRequest.{
  Request, Offer, Stage, left, handling, Reached, take_socket, make_socket, with_request,
  main_handle_request,
}
use gopher_server_cross_plat.Windows.HandleRequest.CommandLine.{
  IsWord, IsQuotable, Splits, flag, read_arguments-command_line,
}

-- `h_args` and `h_configs`. The fields of the configuration that the process does not set are read by
-- nothing on Windows.
abbrev pub args_of : Request → ThreadArgs
args_of q = record {
  configs = record {
    port_number = q.port_number;
    mode_concurrency = q.mode_concurrency;
    root_dir = q.root_dir;
    used_optarg = false;
    reset_config = false;
    hostname = none;
  };
  ip_client = q.ip_client;
}

-- The global `cwd` is not set in this process.
abbrev pub globals_of : Request → Globals
globals_of q = record {
  ip_buffer = q.ip_buffer;
  cwd = [];
  dos_protection = not (eqb_ℤ q.dos_protection (pos 0));
}

-- After the request main would close its handles and return 0.
abbrev pub after_request : Out (Unit {0}) → Out (Unit {0})
after_request (done u w) = halt (exited (pos 0)) w
after_request (halt s w) = halt s w

-- `h_args` is an object on the stack of main.
at_stage : Answers → Os → Stage → M (Unit {0})
unfolding handle_request
at_stage a os (left code) w = halt (exited code) w
at_stage a os (handling fd q) w =
    after_request (handle_request (record a { allocated = false }) os (globals_of q) (args_of q) w)

at_reached : Answers → Os → Result Reached → M (Unit {0})
unfolding at_stage
at_reached a os (ok r) w = at_stage a os r.stage (record w { pipes = r.pipes })
at_reached a os (stop s) w = halt s w

unfoldable pub process : Answers → Os → Offer → Bytes → List Bytes → M (Unit {0})
unfolding at_reached main_handle_request
process a os o ip_buffer argv w =
    at_reached a os (main_handle_request os a.run o ip_buffer argv w.pipes) w
