-- ===== src/Server/Hangup.antt =====
-- A session that SIGHUP ends while select waits.
use gopher_server_cross_plat.Base.{
  ℕ, true, false, [], ◌∷◌, List, refl, ◌++◌, All, some, ◌≡◌, arith, ◌%◌, ◌^◌, negsuc,
}
use gopher_server_cross_plat.Outcome.{ok}
use gopher_server_cross_plat.Utils.{Configs}
use gopher_server_cross_plat.Server.{
  Net, Loop, Event, hangup, select_hangup, select_interrupted, select_failed, connection,
  accept_connection, linux_socket, accept_loop, start_server, start_server_on, listen_on,
  end_server, signal_sighup_handler,
}
use gopher_server_cross_plat.Server.Accepting.{Uninterrupted}

-- The network lets the server listen on a port.
pub record Listens (net : Net) (port : ℕ) : Type 0 where
  pub fd : ℕ
  pub has_socket : net.socket ≡ some fd
  pub has_option : net.setsockopt_ok ≡ true
  pub is_bound : net.bind_ok (port % 2 ^ 16) ≡ true
  pub is_listening : net.listen_ok ≡ true

pub linux_socket_listening :
    (net : Net) (configs : Configs) (events : List Event) (l : Loop)
    → Listens net configs.port_number
    → linux_socket net configs events l
      ≡ ok (accept_loop configs events (record l { listening = true }))
unfolding linux_socket start_server start_server_on listen_on
linux_socket_listening net configs events l h =
    ground (arith, h.has_socket, h.has_option, h.is_bound, h.is_listening)

-- The loop once SIGHUP has ended select: the flag is set and the socket is shut.
abbrev pub hung_up : Loop → Loop
hung_up l = record l { reset_config = true; listening = false }

pub linux_socket_hangup :
    (net : Net) (configs : Configs) (l : Loop)
    → Listens net configs.port_number
    → linux_socket net configs (select_hangup ∷ []) l
      ≡ ok (some (negsuc 0), record l { reset_config = true; listening = false })
unfolding accept_loop end_server signal_sighup_handler
linux_socket_hangup net configs l h = linux_socket_listening net configs (select_hangup ∷ []) l h

-- Behind other rounds.
pub accept_loop-append_hangup :
    (configs : Configs) (events : List Event) (l : Loop)
    → All Uninterrupted events
    → accept_loop configs (events ++ select_hangup ∷ []) l
      ≡ (some (negsuc 0), hung_up (accept_loop configs events l).1)
unfolding accept_loop end_server signal_sighup_handler
accept_loop-append_hangup configs [] l h = refl
accept_loop-append_hangup configs (hangup ∷ events) l h =
    accept_loop-append_hangup configs events (signal_sighup_handler l) h.1
accept_loop-append_hangup configs (select_hangup ∷ events) l h = absurd h.0
accept_loop-append_hangup configs (select_interrupted ∷ events) l h = absurd h.0
accept_loop-append_hangup configs (select_failed ∷ events) l h =
    accept_loop-append_hangup configs events l h.1
accept_loop-append_hangup configs (connection a client name_ok args_ok spawned ∷ events) l h =
    accept_loop-append_hangup configs events
      (accept_connection configs a client name_ok args_ok spawned l) h.1
