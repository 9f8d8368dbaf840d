-- ===== src/Tests/Sessions.antt =====
-- Two sessions of the server on Linux, with a reload between them: the theorem on Server/Sessions, applied.
use gopher_server_cross_plat.Base.{ℕ, pos, ◌≡◌, true, [], ◌∷◌, ◌++◌, some, refl, codes, map, arith}
use gopher_server_cross_plat.Outcome.{ok}
use gopher_server_cross_plat.Utils.{Configs, m_process}
use gopher_server_cross_plat.Config.RoundTrip.{
  process, config_text, parsed, conf_parse_config_file-config_text,
}
use gopher_server_cross_plat.Server.{Loop, accepted, connection, serve_sessions, to_parse}
use gopher_server_cross_plat.Server.Sessions.{
  Session, rounds_of, served, last_configs, next_configs, serve_sessions-served,
}
use gopher_server_cross_plat.Server.Hangup.{Listens}
use gopher_server_cross_plat.Config.{Parse, conf_parse_config_file}
use gopher_server_cross_plat.Main.{idle}
use gopher_server_cross_plat.Tests.{test_os, test_configs}
use gopher_server_cross_plat.Tests.Texts.{root_IsValue, host_IsValue}
use gopher_server_cross_plat.Tests.Single.{open_net}

abbrev session : Session
session = record {
  events = connection (accepted 4) (codes "1") true true true ∷ [];
  content = some (config_text 7070 process (codes "/g") (codes "host"));
  values = parsed 7070 process (codes "/g") (codes "host");
  root = codes "/g";
}

abbrev first_configs : Configs
first_configs = record test_configs { mode_concurrency = m_process }

open_Listens : (port : ℕ) → Listens open_net port
open_Listens port = record {
  fd = 3;
  has_socket = refl;
  has_option = refl;
  is_bound = refl;
  is_listening = refl;
}

reads : (p : Parse) → conf_parse_config_file test_os session.content p ≡ ok (pos 0, session.values)
reads p =
    conf_parse_config_file-config_text test_os 7070 process (codes "/g") (codes "host") p refl
      (omega arith) root_IsValue (omega arith) host_IsValue (omega arith)

serve_sessions-served_example :
    (v : Loop) × (serve_sessions test_os open_net
        (map rounds_of (session ∷ session ∷ []))
        (codes "host")
        first_configs
        idle
      ≡ ok (last_configs (session ∷ session ∷ []) first_configs, v))
    × (v.started ≡ [] ++ served (session ∷ session ∷ []) first_configs)
serve_sessions-served_example =
    serve_sessions-served test_os open_net (session ∷ session ∷ []) (codes "host") first_configs
      idle
      (
        open_Listens 70,
        refl,
        (tt, tt),
        reads (to_parse first_configs (codes "host")),
        refl,
        (
          open_Listens 7070,
          refl,
          (tt, tt),
          reads (to_parse (next_configs first_configs session) (codes "host")),
          refl,
          tt,
        ),
      )
      refl
