-- ===== src/Main/Reload.antt =====
-- Which port the server listens on: the command line's or the file's.
use gopher_server_cross_plat.Base.{
  ℕ, ◌<◌, true, false, List, [], ◌∷◌, some, ◌≡◌, refl, ap, ◌∙◌, Bytes, pos, length, All, ◌++◌,
}
use gopher_server_cross_plat.Outcome.{ok, >>=-returned}
use gopher_server_cross_plat.World.{Os}
use gopher_server_cross_plat.Utils.{Configs, ut_get_cwd, buffer_size, c_text}
use gopher_server_cross_plat.Cstring.Decimal.{print_nat}
use gopher_server_cross_plat.Config.{opt_p, Options, Parse}
use gopher_server_cross_plat.Config.RoundTrip.{
  Mode, config_text, parsed, IsValue, conf_parse_config_file-config_text,
}
use gopher_server_cross_plat.Config.Port.{conf_read_opt-port}
use gopher_server_cross_plat.Server.{
  Net, Loop, select_hangup, serve_sessions, to_parse, reloaded, Event, accept_loop,
}
use gopher_server_cross_plat.Server.Hangup.{
  Listens, linux_socket_listening, accept_loop-append_hangup, hung_up,
}
use gopher_server_cross_plat.LogPipe.Setup
use gopher_server_cross_plat.LogPipe.Setup.{End, in_parent, socket_pipe_single_process}
use gopher_server_cross_plat.Main.{
  Startup, Sessions, serving, main, with_options, to_options, configured, after_fork, idle,
}
use gopher_server_cross_plat.Server.Accepting.{Uninterrupted}

-- The file with the port `port`, and the option -p with `given`.
abbrev pub startup :
    ℕ → ℕ → Mode → Bytes → Bytes → Bytes → gopher_server_cross_plat.LogPipe.Setup.Answers → Startup
startup port given mode root ip cwd setup = record {
  content = some (config_text port mode root ip);
  opts = opt_p (print_nat given) ∷ [];
  first_fork = pos 0;
  second_fork = pos 0;
  working_dir = some cwd;
  log_setup = setup;
}

abbrev pub chosen : ℕ → ℕ → Mode → Bytes → Bytes → Options
chosen port given mode root ip = record (to_options (parsed port mode root ip)) {
  port_number = given;
}

module _ (os : Os) (net : Net) (port given : ℕ) (mode : Mode) (root ip cwd : Bytes)
    (setup : gopher_server_cross_plat.LogPipe.Setup.Answers) (ends : List End) (before : Parse)
    (memory : os.calloc_ok 8192 ≡ true) (small : port < 65536) (given_small : given < 65536)
    (root_value : IsValue root) (root_fits : length root < buffer_size) (ip_value : IsValue ip)
    (ip_fits : length ip < buffer_size) (set_up : socket_pipe_single_process setup ≡ ok ends)
    (parent : setup.fork ≡ in_parent) where
  main-startup :
      (sessions : Sessions)
      → main os net (startup port given mode root ip cwd setup) sessions before
        ≡ after_fork os net sessions root (chosen port given mode root ip) cwd in_parent
  unfolding main with_options ut_get_cwd c_text
  main-startup sessions =
      >>=-returned _ _ (
        conf_parse_config_file-config_text os port mode root ip before memory small root_value
          root_fits ip_value ip_fits)
      ∙ >>=-returned _ _
          (conf_read_opt-port given (to_options (parsed port mode root ip)) given_small ip_value.0)
      ∙ >>=-returned _ _ set_up
      ∙ ap (after_fork os net sessions root (chosen port given mode root ip) cwd) parent

  -- The configuration file says `port`, and the command line -p `given`, both below 65536: the
  -- server starts with the port of the command line; and after its first session, with any connections
  -- and failures of select in it, if SIGHUP ends it while select waits, no signal has interrupted select
  -- before and the file is as it was, it goes on with the port of the file. The conditions: the root and
  -- the address of the file are values that can stand in quotes, of at most 2047 bytes, the array of
  -- lines can be allocated, the log process can be set up, and the server can listen on `given`.
  pub main-reload :
      (events : List Event)
      → All Uninterrupted events
      → Listens net given
      → (main os net (startup port given mode root ip cwd setup) [] before
          ≡ ok (serving (configured root (chosen port given mode root ip)) idle cwd false))
        × (c : Configs) × (l : Loop) × (main os net
              (startup port given mode root ip cwd setup)
              ((events ++ select_hangup ∷ [], some (config_text port mode root ip)) ∷ [])
              before
            ≡ ok (serving c l cwd false))
        × (c.port_number ≡ port)
  unfolding serve_sessions c_text
  main-reload events calm listens =
      let first : Configs = configured root (chosen port given mode root ip) in
      let again : Parse = to_parse first ip in
      (
        main-startup [],
        reloaded first root (pos 0, parsed port mode root ip),
        record (hung_up (accept_loop first events (record idle { listening = true })).1) {
          reset_config = false;
        },
        main-startup _
            ∙ >>=-returned _ _ (
                >>=-returned _ _ (
                  linux_socket_listening net first (events ++ select_hangup ∷ []) idle listens
                  ∙ ap ok (
                      accept_loop-append_hangup first events (record idle { listening = true })
                        calm))
                ∙ >>=-returned _ _ (
                    conf_parse_config_file-config_text os port mode root ip again memory small
                      root_value root_fits ip_value ip_fits)),
        refl,
      )
