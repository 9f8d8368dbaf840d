-- ===== src/Windows/Runner/Children.antt =====
-- The processes that the loop starts, and the clients' sockets that it leaves open.
use gopher_server_cross_plat.Base.{
  ℕ, Bool, true, false, ◌&&◌, List, [], ◌∷◌, ◌++◌, none, some, ◌≡◌, refl, sym, ◌∙◌, arith, Bytes,
  map, All, append_assoc, append-nil, if◌then◌else◌,
}
use gopher_server_cross_plat.Outcome.{ok, >>=-returned}
use gopher_server_cross_plat.Utils.{Configs, m_process}
use gopher_server_cross_plat.Handler.{Globals}
use gopher_server_cross_plat.Windows.Runner.{
  Runner, Event, connection, accept_loop, start_client, run_process, accept_client, Launch, Child,
  command_line, remove_socket,
}

-- A connection with a socket, and the answers while its process is started.
pub record Arrival : Type 0 where
  pub fd : ℕ
  pub ip : Bytes
  pub launch : Launch

abbrev pub arrives : Arrival → Event
arrives c = connection (some c.fd) c.ip true c.launch

-- Its socket can be duplicated, and its process ends.
abbrev pub Ends : Arrival → Type 0
Ends c = (c.launch.duplicates ≡ true) × (c.launch.ends ≡ true)

added :
    (b : Bool) (xs : List Child) (x : Child) (ys : List Child)
    → (if b then xs ++ x ∷ [] else xs) ++ ys ≡ xs ++ (if b then x ∷ ys else ys)
added true xs x ys = append_assoc xs (x ∷ []) ys
added false xs x ys = refl

-- A socket is left open where no process was created, or where closesocket fails.
pub left_open : List Arrival → List ℕ → List ℕ
left_open [] fds = fds
left_open (c ∷ cs) fds =
    left_open cs (if c.launch.creates && c.launch.closes then fds else c.fd ∷ fds)

remove_socket-head : (fd : ℕ) (fds : List ℕ) → remove_socket fd (fd ∷ fds) ≡ fds
unfolding remove_socket
remove_socket-head fd fds = ground arith

module _ (globals : Globals) (configs : Configs) where
  abbrev pub child_of : Arrival → Child
  child_of c = record {
    command = command_line c.ip configs globals.ip_buffer globals.dos_protection;
    socket = some c.fd;
    delivered = c.launch.connects && c.launch.writes;
  }

  -- One process for each connection for which CreateProcess succeeds.
  pub children_of : List Arrival → List Child
  children_of [] = []
  children_of (c ∷ cs) =
      let rest = children_of cs in if c.launch.creates then child_of c ∷ rest else rest

  -- The loop after one connection.
  abbrev after_arrival : Arrival → Runner → Runner
  after_arrival c r =
      let s = accept_client (some c.fd) c.ip r in
      record s {
        sockets = if c.launch.creates && c.launch.closes then r.sockets else c.fd ∷ r.sockets;
        children = if c.launch.creates then r.children ++ child_of c ∷ [] else r.children;
      }

  arrive :
      (c : Arrival) (r : Runner)
      → r.args.configs.mode_concurrency ≡ m_process
      → Ends c
      → start_client globals configs
          (some c.fd)
          c.ip
          true
          c.launch
          (accept_client (some c.fd) c.ip r)
        ≡ ok (after_arrival c r)
  unfolding start_client run_process
  arrive c r mode e = ground (arith, remove_socket-head c.fd r.sockets)

  -- With processes, each connection has one process for itself, in order, with its own address and socket,
  -- as far as CreateProcess succeeds; and the sockets that the loop leaves open are those of the
  -- connections for which it fails or whose socket cannot be closed. The condition: no socket fails to be
  -- duplicated, and every process ends.
  pub accept_loop-children :
      (cs : List Arrival) (r : Runner)
      → r.args.configs.mode_concurrency ≡ m_process
      → All Ends cs
      → (s : Runner) × (accept_loop globals configs (map arrives cs) r ≡ ok (none, s))
        × (s.children ≡ r.children ++ children_of cs)
        × (s.sockets ≡ left_open cs r.sockets)
  unfolding accept_loop children_of left_open
  accept_loop-children [] r mode h = (r, refl, sym (append-nil r.children), refl)
  accept_loop-children (c ∷ cs) r mode h =
      let (s, runs, children, sockets) = accept_loop-children cs (after_arrival c r) mode h.1 in
      (
        s,
        >>=-returned _ _ (arrive c r mode h.0) ∙ runs,
        children ∙ added c.launch.creates r.children (child_of c) (children_of cs),
        sockets,
      )
