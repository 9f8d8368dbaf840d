-- ===== src/Server/Accepting.antt =====
-- What the accept loop does with its connections, and when it ends.
use gopher_server_cross_plat.Base.{
  ℕ, Bool, true, false, ◌&&◌, List, [], ◌∷◌, ◌++◌, Option, none, some, ◌≡◌, ◌∙◌, refl, ap, arith,
  if◌then◌else◌, Bytes, ℤ, negsuc, Bool-cases, inl, inr, append_assoc, append-nil, All,
}
use gopher_server_cross_plat.Utils.{Configs, m_process}
use gopher_server_cross_plat.Server.{
  Started, Loop, Event, Accept, accepted, accept_interrupted, accept_failed, hangup, select_hangup,
  select_interrupted, select_failed, connection, accept_loop, accept_connection, start_handler,
  run_concurrency, end_server, signal_sighup_handler, remove_fd, args_of, close_fd,
}

-- The loop goes on waiting, on a socket as it was, or it returns -1, and then the flag was set
-- and the socket is shut.
abbrev pub Returns : Loop → Option ℤ × Loop → Type 0
Returns l (none, v) = v.listening ≡ l.listening
Returns l (some code, v) = (code ≡ negsuc 0) × (v.reset_config ≡ true) × (v.listening ≡ false)

accept_connection-keeps :
    (configs : Configs) (a : Accept) (client : Bytes) (name_ok args_ok spawned : Bool) (l : Loop)
    → (accept_connection configs a client name_ok args_ok spawned l).listening ≡ l.listening
unfolding accept_connection start_handler run_concurrency
accept_connection-keeps configs a client name_ok args_ok spawned l = ground arith

Returns-same :
    (k l : Loop) (r : Option ℤ × Loop) → k.listening ≡ l.listening → Returns k r → Returns l r
Returns-same k l (none, v) e h = h ∙ e
Returns-same k l (some code, v) e h = h

if-Returns :
    (l : Loop) (b : Bool) (x y : Option ℤ × Loop)
    → (b ≡ true → Returns l x)
    → Returns l y
    → Returns l (if b then x else y)
if-Returns l true x y h k = h refl
if-Returns l false x y h k = k

-- Whatever happens, the accept loop returns nothing but -1, only with the flag of SIGHUP set, and then
-- its socket is shut; as long as it waits for more, the socket is as it was.
pub accept_loop-Returns :
    (configs : Configs) (events : List Event) (l : Loop) → Returns l (accept_loop configs events l)
unfolding accept_loop end_server signal_sighup_handler
accept_loop-Returns configs [] l = refl
accept_loop-Returns configs (hangup ∷ events) l =
    accept_loop-Returns configs events (signal_sighup_handler l)
accept_loop-Returns configs (select_hangup ∷ events) l = (refl, refl, refl)
accept_loop-Returns configs (select_interrupted ∷ events) l =
    if-Returns l l.reset_config _ _ (λ set. (refl, set, refl))
      (accept_loop-Returns configs events l)
accept_loop-Returns configs (select_failed ∷ events) l = accept_loop-Returns configs events l
accept_loop-Returns configs (connection a client name_ok args_ok spawned ∷ events) l =
    Returns-same (accept_connection configs a client name_ok args_ok spawned l) l _
      (accept_connection-keeps configs a client name_ok args_ok spawned l)
      (accept_loop-Returns configs events
        (accept_connection configs a client name_ok args_ok spawned l))

-- A connection whose handler starts.
abbrev pub starts : Bool → Bool → Bool → Bool
starts name_ok args_ok spawned = name_ok && args_ok && spawned

-- The handlers that a sequence of rounds starts, and the descriptors that are left open on top of
-- those given, when select is not interrupted.
pub handlers : Configs → Bool → List Event → List Started
handlers configs reset [] = []
handlers configs reset (hangup ∷ events) = handlers configs true events
handlers configs reset (connection (accepted fd) client name_ok args_ok spawned ∷ events) =
    let rest = handlers configs reset events in
    if starts name_ok args_ok spawned then (some fd, args_of configs reset client) ∷ rest else rest
handlers configs reset (connection accept_interrupted client name_ok args_ok spawned ∷ events) =
    let rest = handlers configs reset events in
    if starts name_ok args_ok spawned then (none, args_of configs reset client) ∷ rest else rest
handlers configs reset (_ ∷ events) = handlers configs reset events

pub left_open : List Event → List ℕ → List ℕ
left_open [] fds = fds
left_open (connection (accepted fd) client name_ok args_ok spawned ∷ events) fds =
    left_open events (if starts name_ok args_ok spawned then fds else fd ∷ fds)
left_open (_ ∷ events) fds = left_open events fds

abbrev pub Uninterrupted : Event → Type 0
Uninterrupted select_hangup = ⊥
Uninterrupted select_interrupted = ⊥
Uninterrupted _ = Unit

remove_fd-head : (fd : ℕ) (fds : List ℕ) → remove_fd fd (fd ∷ fds) ≡ fds
unfolding remove_fd
remove_fd-head fd fds = ground arith

-- The loop once a handler has been started.
abbrev with_handler : Configs → Option ℕ → Bytes → Loop → Loop
with_handler configs fd client l = record l {
  started = l.started ++ (fd, args_of configs l.reset_config client) ∷ [];
  open_fds = close_fd fd l.open_fds;
}

module _ (configs : Configs) (fd : Option ℕ) (client : Bytes) (name_ok args_ok spawned : Bool)
    (l : Loop) (mode : configs.mode_concurrency ≡ m_process) where
  start_handler_started :
      starts name_ok args_ok spawned ≡ true
      → start_handler configs fd client name_ok args_ok spawned l ≡ with_handler configs fd client l
  unfolding start_handler run_concurrency
  start_handler_started on = ground arith

  start_handler_dropped :
      starts name_ok args_ok spawned ≡ false
      → start_handler configs fd client name_ok args_ok spawned l ≡ l
  unfolding start_handler run_concurrency
  start_handler_dropped off = ground arith

-- With processes, in rounds in which select is not interrupted: exactly the handlers of the
-- connections whose allocations and fork succeed are started, in order, with the address and the
-- configuration of their time; the parent keeps open only the descriptors of the connections
-- that were accepted and whose handler did not start.
pub accept_loop-handlers :
    (configs : Configs) (events : List Event) (l : Loop)
    → configs.mode_concurrency ≡ m_process
    → All Uninterrupted events
    → ((accept_loop configs events l).0 ≡ none)
      × ((accept_loop configs events l).1.started
          ≡ l.started ++ handlers configs l.reset_config events)
      × ((accept_loop configs events l).1.open_fds ≡ left_open events l.open_fds)
unfolding accept_loop handlers left_open signal_sighup_handler
accept_loop-handlers configs [] l mode h = (refl, rw append-nil, refl)
accept_loop-handlers configs (hangup ∷ events) l mode h =
    accept_loop-handlers configs events (signal_sighup_handler l) mode h.1
accept_loop-handlers configs (select_hangup ∷ events) l mode h = absurd h.0
accept_loop-handlers configs (select_interrupted ∷ events) l mode h = absurd h.0
accept_loop-handlers configs (select_failed ∷ events) l mode h =
    accept_loop-handlers configs events l mode h.1
accept_loop-handlers configs (connection accept_failed client name_ok args_ok spawned ∷ events) l
      mode h =
    unfold accept_connection in accept_loop-handlers configs events l mode h.1
accept_loop-handlers configs (connection accept_interrupted client name_ok args_ok spawned ∷ events)
      l mode h =
    elim (Bool-cases (starts name_ok args_ok spawned)) [
      | inl on ↦
          let (waits, same, left) =
            accept_loop-handlers configs events (with_handler configs none client l) mode h.1 in
          rw
            (
              on,
              accept_loop,
              accept_connection,
              start_handler_started configs none client name_ok args_ok spawned l mode on,
            )
            (
              waits,
              same ∙ append_assoc l.started (_ ∷ []) (handlers configs l.reset_config events),
              left,
            )
      | inr off ↦
          rw
            (
              off,
              accept_loop,
              accept_connection,
              start_handler_dropped configs none client name_ok args_ok spawned l mode off,
            )
            (accept_loop-handlers configs events l mode h.1)
    ]
accept_loop-handlers configs (connection (accepted fd) client name_ok args_ok spawned ∷ events) l
      mode h =
    let opened = record l { open_fds = fd ∷ l.open_fds } in
    elim (Bool-cases (starts name_ok args_ok spawned)) [
      | inl on ↦
          let (waits, same, left) =
            accept_loop-handlers configs events (with_handler configs (some fd) client opened) mode
              h.1 in
          rw
            (
              on,
              accept_loop,
              accept_connection,
              start_handler_started configs (some fd) client name_ok args_ok spawned opened mode on,
            )
            (
              waits,
              same ∙ append_assoc l.started (_ ∷ []) (handlers configs l.reset_config events),
              left ∙ ap (left_open events) (remove_fd-head fd l.open_fds),
            )
      | inr off ↦
          rw
            (
              off,
              accept_loop,
              accept_connection,
              start_handler_dropped configs (some fd) client name_ok args_ok spawned opened mode
                  off,
            )
            (accept_loop-handlers configs events opened mode h.1)
    ]
