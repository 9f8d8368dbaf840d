-- ===== src/Tests/Single.antt =====
-- A record with a log process of its own, and main with a reload: the theorems on LogPipe/Single and Main, applied.
use gopher_server_cross_plat.Base.{
  ◌+◌, ◌≤◌, ◌≡◌, ◌⊎◌, true, false, [], ◌∷◌, some, refl, arith, codes, List, ◌++◌,
}
use gopher_server_cross_plat.Outcome.{ok}
use gopher_server_cross_plat.LogPipe.{at_lock, at_post, at_wait, asleep, at_token}
use gopher_server_cross_plat.LogPipe.Single.{
  Pair, pair, Step, lock, post, wait, Reaches, here, next, start,
}
use gopher_server_cross_plat.LogPipe.Single.Ends.{taken, left, Ended, Reaches-Goes}
use gopher_server_cross_plat.LogPipe.Setup
use gopher_server_cross_plat.LogPipe.Setup.{Shared, in_parent, log_write, sync_read, End}
use gopher_server_cross_plat.Utils.{Configs}
use gopher_server_cross_plat.Config.RoundTrip.{process, config_text}
use gopher_server_cross_plat.Server.{Net, Loop, select_hangup, Event, connection, accepted}
use gopher_server_cross_plat.Main.{main, serving, configured, idle}
use gopher_server_cross_plat.Main.Reload.{startup, chosen, main-reload}
use gopher_server_cross_plat.Tests.{test_os}
use gopher_server_cross_plat.Tests.Texts.{no_options, root_IsValue, host_IsValue}
use gopher_server_cross_plat.Tests.Logs.{faultless}

waiting : Reaches faultless (codes "r") (start []) (pair asleep at_token false 1 [] [])
waiting =
    next _ _ (next _ _ (next _ _ here (lock at_token 0 [] [])) (post at_token true 0 [] []))
      (wait at_token true 1 [] [])

Reaches-Goes_example :
    (taken faultless (codes "r") [] (pair asleep at_token false 1 [] []) waiting
        + left (pair asleep at_token false 1 [] [])
      ≤ 13)
    × (Ended faultless (codes "r") [] (pair asleep at_token false 1 [] [])
        ⊎ ((t : Pair) × Step faultless (codes "r") (pair asleep at_token false 1 [] []) t))
Reaches-Goes_example =
    Reaches-Goes faultless (codes "r") [] (pair asleep at_token false 1 [] []) waiting
      ((refl, refl, refl), refl)

abbrev all_mapped : Shared
all_mapped = record { opened = true; sized = true; mapped = true }

abbrev granted : gopher_server_cross_plat.LogPipe.Setup.Answers
granted = record {
  sync_mutex = all_mapped;
  mutex = all_mapped;
  condition = all_mapped;
  sync_pipe = true;
  log_pipe = true;
  fork = in_parent;
}

abbrev pub open_net : Net
open_net = record { socket = some 3; setsockopt_ok = true; bind_ok = λ _. true; listen_ok = true }

abbrev connections : List Event
connections = connection (accepted 4) (codes "1") true true true ∷ []

main-reload_example :
    (main test_os open_net
        (startup 70 7070 process (codes "/g") (codes "host") (codes "/s") granted)
        []
        no_options
      ≡ ok (
          serving
            (configured (codes "/g") (chosen 70 7070 process (codes "/g") (codes "host")))
            idle
            (codes "/s")
            false))
    × (c : Configs) × (l : Loop) × (main test_os open_net
          (startup 70 7070 process (codes "/g") (codes "host") (codes "/s") granted)
          ((
            connections ++ select_hangup ∷ [],
            some (config_text 70 process (codes "/g") (codes "host")),
          )
            ∷ [])
          no_options
        ≡ ok (serving c l (codes "/s") false))
    × (c.port_number ≡ 70)
main-reload_example =
    main-reload test_os open_net 70 7070 process (codes "/g") (codes "host") (codes "/s") granted
      (log_write ∷ sync_read ∷ []) no_options refl (omega arith) (omega arith) root_IsValue
      (omega arith) host_IsValue (omega arith)
      (unfold gopher_server_cross_plat.LogPipe.Setup.socket_pipe_single_process in refl) refl
      connections (tt, tt)
      (record {
        fd = 3;
        has_socket = refl;
        has_option = refl;
        is_bound = refl;
        is_listening = refl;
      })
