-- ===== src/Server/Sessions.antt =====
-- The sessions of main's loop: the handlers that each of them starts, and the configuration of each.
use gopher_server_cross_plat.Base.{
  true, false, List, [], ◌∷◌, ◌++◌, Option, ◌≡◌, ◌∙◌, refl, sym, ap, Bytes, pos, All, append_assoc,
  append-nil, map,
}
use gopher_server_cross_plat.Outcome.{ok, >>=-returned}
use gopher_server_cross_plat.World.{Os}
use gopher_server_cross_plat.Utils.{Configs, m_process, c_text, terminated}
use gopher_server_cross_plat.Config.{Parse, conf_parse_config_file}
use gopher_server_cross_plat.Server.{
  Net, Loop, Event, Started, select_hangup, accept_loop, serve_sessions, to_parse, reloaded,
}
use gopher_server_cross_plat.Server.Accepting.{Uninterrupted, handlers, accept_loop-handlers}
use gopher_server_cross_plat.Server.Hangup.{
  Listens, linux_socket_listening, hung_up, accept_loop-append_hangup,
}

-- A session: its rounds before SIGHUP ends it, the configuration file after that, and what it says, root_dir
-- apart.
pub record Session : Type 0 where
  pub events : List Event
  pub content : Option Bytes
  pub values : Parse
  pub root : Bytes

abbrev pub rounds_of : Session → List Event × Option Bytes
rounds_of s = (s.events ++ select_hangup ∷ [], s.content)

-- The configuration after a session.
abbrev pub next_configs : Configs → Session → Configs
next_configs c s = reloaded c s.root (pos 0, s.values)

-- Each session can listen on its port and starts processes, select is not interrupted in it before its
-- end, and its file is accepted and its root_dir has a terminator.
abbrev pub Runs : Os → Net → List Session → Bytes → Configs → Type 0
Runs os net [] ip c = Unit
Runs os net (s ∷ ss) ip c =
    Listens net c.port_number
    × (c.mode_concurrency ≡ m_process)
    × All Uninterrupted s.events
    × (conf_parse_config_file os s.content (to_parse c ip) ≡ ok (pos 0, s.values))
    × (s.values.root_dir ≡ terminated s.root)
    × Runs os net ss s.values.ip_buffer (next_configs c s)

-- The abstract server: the handlers of each session, with the configuration of that session.
pub served : List Session → Configs → List Started
served [] c = []
served (s ∷ ss) c = handlers c false s.events ++ served ss (next_configs c s)

pub last_configs : List Session → Configs → Configs
last_configs [] c = c
last_configs (s ∷ ss) c = last_configs ss (next_configs c s)

-- Over any number of sessions with processes that can listen and are ended by SIGHUP, and whose files are
-- accepted and leave root_dir with a terminator: main's loop starts exactly the handlers of each session's connections, in order, each with the
-- address of its client and the configuration of its own session, and ends up with the last file's
-- configuration.
pub serve_sessions-served :
    (os : Os) (net : Net) (ss : List Session) (ip : Bytes) (c : Configs) (l : Loop)
    → Runs os net ss ip c
    → l.reset_config ≡ false
    → (v : Loop) × (serve_sessions os net (map rounds_of ss) ip c l ≡ ok (last_configs ss c, v))
      × (v.started ≡ l.started ++ served ss c)
unfolding serve_sessions served last_configs c_text
serve_sessions-served os net [] ip c l h reset = (l, refl, sym (append-nil l.started))
serve_sessions-served os net (s ∷ ss) ip c l (listens, mode, calm, accepted, rooted, rest) reset =
    let opened : Loop = record l { listening = true } in
    let ended : Loop = record (hung_up (accept_loop c s.events opened).1) {
      reset_config = false;
    } in
    let (v, runs, same) =
      serve_sessions-served os net ss s.values.ip_buffer (next_configs c s) ended rest refl in
    (
      v,
      >>=-returned _ _ (
            linux_socket_listening net c (s.events ++ select_hangup ∷ []) l listens
            ∙ ap ok (accept_loop-append_hangup c s.events opened calm))
          ∙ >>=-returned _ _ accepted
          ∙ >>=-returned _ _ (ap c_text rooted)
          ∙ runs,
      same
          ∙ ap (λ b. b ++ served ss (next_configs c s))
              ((accept_loop-handlers c s.events opened mode calm).1
                ∙ ap (λ b. l.started ++ handlers c b s.events) reset)
          ∙ append_assoc l.started (handlers c false s.events) (served ss (next_configs c s)),
    )
