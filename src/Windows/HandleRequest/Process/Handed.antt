-- ===== src/Windows/HandleRequest/Process/Handed.antt =====
-- What the process for a connection is handed on its command line, and what it does with it.
use gopher_server_cross_plat.Base.{
  ℕ, ◌≤◌, ◌<◌, ◌^◌, ◌≡◌, Bool, true, false, not, List, [], ◌∷◌, ◌++◌, none, some, refl, arith, ◌∙◌,
  ap, sym, subst, Bytes, length, pos, eqb_ℤ,
}
use gopher_server_cross_plat.Outcome.{>>=-returned}
use gopher_server_cross_plat.World.{Os, World, Out, done, halt}
use gopher_server_cross_plat.Utils.{Configs, ThreadArgs, buffer_size, m_process}
use gopher_server_cross_plat.Handler.{Globals}
use gopher_server_cross_plat.Handler.Ending.{Ends}
use gopher_server_cross_plat.Windows.Pipe.{child_command}
use gopher_server_cross_plat.Windows.Pipe.Records.{Working, pipe_run_process_pipe}
use gopher_server_cross_plat.Windows.Runner.{command_text, command_line}
use gopher_server_cross_plat.Windows.Handler.{Answers, handle_request}
use gopher_server_cross_plat.Windows.Handler.Closing.{windows_request-Ends}
use gopher_server_cross_plat.Windows.HandleRequest.{
  Request, Offer, take_socket, make_socket, with_request, main_handle_request,
}
use gopher_server_cross_plat.Windows.HandleRequest.CommandLine.{
  IsWord, IsQuotable, Splits, flag, read_arguments-command_line,
}
use gopher_server_cross_plat.Windows.HandleRequest.Process.{
  args_of, globals_of, after_request, at_stage, at_reached, process,
}

-- The system gives the process what it asks for.
pub record Grants (o : Offer) : Type 0 where
  pub fd : ℕ
  pub starts : o.startup_ok ≡ true
  pub opens : o.opens_pipe ≡ true
  pub reads : o.reads_info ≡ true
  pub socket_made : o.socket ≡ some fd

-- What the command line says of a connection and of the configuration.
pub record Sayable (ip ip_buffer : Bytes) (configs : Configs) (dos_protection : Bool) : Type 0 where
  pub client : IsWord ip
  pub server : IsWord ip_buffer
  pub root : IsQuotable configs.root_dir
  pub port : configs.port_number < 2 ^ 31
  pub mode : configs.mode_concurrency ≡ m_process
  pub root_fits : length configs.root_dir < buffer_size
  pub server_fits : length ip_buffer < buffer_size
  pub line_fits : length (command_text ip configs ip_buffer dos_protection) ≤ 4095

-- What the process for a connection hands on: the mode is the character of the digit.
abbrev pub handed_args : Bytes → Configs → ThreadArgs
handed_args ip configs = record {
  configs = record {
    port_number = configs.port_number;
    mode_concurrency = 48;
    root_dir = configs.root_dir;
    used_optarg = false;
    reset_config = false;
    hostname = none;
  };
  ip_client = ip;
}

abbrev pub handed_globals : Bytes → Bool → Globals
handed_globals ip_buffer dos_protection = record {
  ip_buffer = ip_buffer;
  cwd = [];
  dos_protection = dos_protection;
}

-- With a log process of its own.
abbrev pub logging_world : ℕ → World → World
logging_world handle w = record w {
  pipes = record w.pipes {
    pipe_read = handle;
    pipe = [];
    commands = w.pipes.commands ++ child_command handle 48 ∷ [];
  };
}

flag_back : (b : Bool) → not (eqb_ℤ (pos (flag b)) (pos 0)) ≡ b
flag_back true = refl
flag_back false = refl

abbrev request_said : Bytes → Bytes → Configs → Bool → Request
request_said ip ip_buffer configs dos_protection = record {
  port_number = configs.port_number;
  mode_concurrency = 48;
  root_dir = configs.root_dir;
  dos_protection = pos (flag dos_protection);
  ip_client = ip;
  hostname = ip_buffer;
  ip_buffer = ip_buffer;
}

with_request_lem :
    (os : Os) (a : Answers) (o : Offer) (q : Request) (handle : ℕ) (w : World)
    → Grants o
    → Working a.run
    → ((text : Bytes) → os.sprintf_ok text ≡ true)
    → a.run.create_pipe ≡ some handle
    → handle < 2 ^ 64
    → q.mode_concurrency ≡ 48
    → at_reached a os (with_request os a.run o w.pipes (some q)) w
      ≡ after_request (
          handle_request
            (record a { allocated = false })
            os
            (globals_of q)
            (args_of q)
            (logging_world handle w))
unfolding with_request take_socket make_socket at_reached at_stage
with_request_lem os a o q handle w grants working printed created small mode =
    ap (λ r. at_reached a os r w)
      (>>=-returned _ _ (
        pipe_run_process_pipe os a.run handle q.mode_concurrency w.pipes working printed created
          small (omega (arith, mode))))
    ∙ rw (mode, grants.starts, grants.opens, grants.reads, grants.socket_made)

-- With the C runtime's division of a command line as a parameter: the process that the accept loop starts for
-- a connection in process mode does with its socket what `handle_request` does with the client's address, the
-- port, the root directory, the server's address and the flag of the server, with the mode 48 and an empty
-- current directory, after it has started a log process of its own. The conditions: the port is below 2^31,
-- the line fits its 4096 bytes, the two addresses are words, the root can stand in quotes, it and the server's
-- address fit their arrays, prints succeed, and the system grants the log process, the pipe and the socket.
pub process-command_line :
    (split : Bytes → List Bytes) (a : Answers) (os : Os) (o : Offer) (handle : ℕ)
    (ip before ip_buffer : Bytes) (configs : Configs) (dos_protection : Bool) (w : World)
    → Splits split
    → Sayable ip ip_buffer configs dos_protection
    → Grants o
    → Working a.run
    → ((text : Bytes) → os.sprintf_ok text ≡ true)
    → a.run.create_pipe ≡ some handle
    → handle < 2 ^ 64
    → process a os o before (split (command_line ip configs ip_buffer dos_protection)) w
      ≡ after_request (
          handle_request
            (record a { allocated = false })
            os
            (handed_globals ip_buffer dos_protection)
            (handed_args ip configs)
            (logging_world handle w))
unfolding process main_handle_request
process-command_line split a os o handle ip before ip_buffer configs dos_protection w splits says
      grants working printed created small =
    ap (λ r. at_reached a os r w)
      (>>=-returned _ _ (
        read_arguments-command_line split ip before ip_buffer configs dos_protection splits
          says.client says.server says.root says.port says.mode says.root_fits says.server_fits
          says.line_fits))
    ∙ with_request_lem os a o (request_said ip ip_buffer configs dos_protection) handle w grants
        working printed created small refl
    ∙ ap
        (λ b. after_request (
          handle_request (record a { allocated = false }) os (handed_globals ip_buffer b)
            (handed_args ip configs) (logging_world handle w)))
        (flag_back dos_protection)

after_request-Ends : (n c : ℕ) (o : Out (Unit {0})) → Ends n c o → Ends n c (after_request o)
after_request-Ends n c (done u v) e = elim e [ ]
after_request-Ends n c (halt s v) e = e

-- With the C runtime's division of a command line as a parameter: whatever the client sends and the system
-- answers to its request, the process that the accept loop starts for a connection in process mode does not
-- return, and does not close its socket. The conditions: the port is below 2^31, the line fits its 4096 bytes,
-- the two addresses are words, the root can stand in quotes, it and the server's address fit their arrays,
-- prints succeed, and the system grants the log process, the pipe and the socket.
pub process-Ends :
    (split : Bytes → List Bytes) (a : Answers) (os : Os) (o : Offer) (handle : ℕ)
    (ip before ip_buffer : Bytes) (configs : Configs) (dos_protection : Bool) (w : World)
    → Splits split
    → Sayable ip ip_buffer configs dos_protection
    → Grants o
    → Working a.run
    → ((text : Bytes) → os.sprintf_ok text ≡ true)
    → a.run.create_pipe ≡ some handle
    → handle < 2 ^ 64
    → Ends 0 w.closes
        (process a os o before (split (command_line ip configs ip_buffer dos_protection)) w)
process-Ends split a os o handle ip before ip_buffer configs dos_protection w splits says grants
      working printed created small =
    subst (Ends 0 w.closes)
      (sym (
        process-command_line split a os o handle ip before ip_buffer configs dos_protection w splits
          says grants working printed created small))
      (after_request-Ends 0 w.closes _ (
        windows_request-Ends (record a { allocated = false }) os
          (handed_globals ip_buffer dos_protection) (handed_args ip configs)
          (logging_world handle w)))
