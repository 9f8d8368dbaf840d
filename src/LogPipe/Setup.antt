-- ===== src/LogPipe/Setup.antt =====
-- linux/lib/pipe/linux_pipe.c `socket_pipe_single_process` before the log process's loop: the three
-- shared objects, the two pipes and the fork.
use gopher_server_cross_plat.Base.{
  Bool, true, false, not, ◌&&◌, List, [], ◌∷◌, if◌then◌else◌, ◌≡◌, arith, pos, negsuc,
}
use gopher_server_cross_plat.Outcome.{Result, ok, stop, exited, ◌>>=◌}

-- The answers of shm_open, ftruncate and mmap for one object.
pub record Shared : Type 0 where
  pub opened : Bool
  pub sized : Bool
  pub mapped : Bool

pub data Fork : Type 0 where
  fork_failed in_parent in_child : Fork

pub record Answers : Type 0 where
  pub sync_mutex : Shared
  pub mutex : Shared
  pub condition : Shared
  pub sync_pipe : Bool
  pub log_pipe : Bool
  pub fork : Fork

-- The ends of the two pipes.
pub data End : Type 0 where
  log_read log_write sync_read sync_write : End

map_shared : Shared → Result (Unit {0})
map_shared s =
    if not s.opened
    then stop (exited (pos 1))
    else if not s.sized
    then stop (exited (negsuc 0))
    else if not s.mapped
    then stop (exited (pos 1))
    else ok tt

make_pipe : Bool → Result (Unit {0})
make_pipe made = if made then ok tt else stop (exited (negsuc 0))

-- The process that goes on keeps two ends: the log process goes into its loop, the server returns.
keep_ends : Fork → Result (List End)
keep_ends fork_failed = stop (exited (negsuc 0))
keep_ends in_parent = ok (log_write ∷ sync_read ∷ [])
keep_ends in_child = ok (log_read ∷ sync_write ∷ [])

unfoldable pub socket_pipe_single_process : Answers → Result (List End)
unfolding map_shared make_pipe keep_ends
socket_pipe_single_process a = do
  _ ← map_shared a.sync_mutex
  _ ← map_shared a.mutex
  _ ← map_shared a.condition
  _ ← make_pipe a.sync_pipe
  _ ← make_pipe a.log_pipe
  keep_ends a.fork

-- The variant with a log process for each record. The server has read its byte when the call returns.
keep_log_end : Fork → Result (List End)
keep_log_end fork_failed = stop (exited (negsuc 0))
keep_log_end in_parent = ok (log_write ∷ [])
keep_log_end in_child = ok (log_read ∷ sync_write ∷ [])

unfoldable pub socket_pipe_multiple_process : Answers → Result (List End)
unfolding map_shared make_pipe keep_log_end
socket_pipe_multiple_process a = do
  _ ← map_shared a.mutex
  _ ← map_shared a.condition
  _ ← make_pipe a.sync_pipe
  _ ← make_pipe a.log_pipe
  keep_log_end a.fork

-- What a process has to have before it may go on.
abbrev pub is_mapped : Shared → Bool
is_mapped s = s.opened && s.sized && s.mapped

abbrev pub has_forked : Fork → Bool
has_forked fork_failed = false
has_forked _ = true

abbrev pub is_complete : Answers → Bool
is_complete a =
    is_mapped a.sync_mutex
    && is_mapped a.mutex
    && is_mapped a.condition
    && a.sync_pipe
    && a.log_pipe
    && has_forked a.fork

abbrev pub goes_on : Result (List End) → Bool
goes_on (ok ends) = true
goes_on (stop s) = false

-- A process goes on after the setup exactly when all three shared objects are mapped, both pipes are
-- made and the fork has succeeded.
pub socket_pipe_single_process_complete :
    (a : Answers) → goes_on (socket_pipe_single_process a) ≡ is_complete a
unfolding socket_pipe_single_process
socket_pipe_single_process_complete a = ground arith

abbrev pub is_complete_pair : Answers → Bool
is_complete_pair a =
    is_mapped a.mutex && is_mapped a.condition && a.sync_pipe && a.log_pipe && has_forked a.fork

-- With a log process for each record two shared objects are enough.
socket_pipe_multiple_process_complete :
    (a : Answers) → goes_on (socket_pipe_multiple_process a) ≡ is_complete_pair a
unfolding socket_pipe_multiple_process
socket_pipe_multiple_process_complete a = ground arith
