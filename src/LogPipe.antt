-- ===== src/LogPipe.antt =====
-- linux/lib/pipe/linux_pipe.c: the log process and the handlers that send it records, with their
-- synchronization pipe, process-shared mutex and condition variable. A relation on the states of all of
-- them; each step is one call.
pub mod Invariant
pub mod Progress
pub mod Setup
pub mod Lines
pub mod Refines
pub mod Single
pub mod Forked
pub mod Records
pub mod Stuck
pub mod Handlers
use gopher_server_cross_plat.Base.{
  ℕ, zero, suc, ◌+◌, ◌-◌, ◌<◌, Bool, true, false, List, [], ◌∷◌, ◌++◌, ◌==◌, if◌then◌else◌, ◌≡◌,
  Bytes, length, codes, take,
}
use gopher_server_cross_plat.Cstring.{c_string}

-- Where the log process is: before pthread_mutex_lock; before the write of a byte; before
-- pthread_cond_wait; in it; signalled, before it has the mutex again; before open and read; before
-- pthread_mutex_unlock; or ended, since the log file could not be opened.
pub data Logger : Type 0 where
  at_lock at_post at_wait asleep woken at_read at_unlock exited : Logger

-- Where a handler is in `socket_pipe_log_server_single_process`: before the read of a byte; before
-- pthread_mutex_lock; before write; before pthread_cond_signal; before pthread_mutex_unlock; or
-- behind it.
pub data Stage : Type 0 where
  at_token at_mutex at_write at_signal at_release finished : Stage

pub record Worker : Type 0 where
  pub stage : Stage
  pub message : Bytes

pub record Sys : Type 0 where
  pub logger : Logger
  pub workers : List Worker
  pub held : Bool  -- `mutex`
  pub tokens : ℕ  -- bytes in global_fd_sync_pipe
  pub pipe : List Bytes  -- records in fd_pipe
  pub file : List Bytes  -- lines of the log file

-- snprintf into the zeroed array, and write of 4096 bytes of it.
unfoldable pub zeros : ℕ → Bytes
zeros zero = []
zeros (suc n) = 0 ∷ zeros n

unfoldable pub frame : Bytes → Bytes
unfolding zeros
frame message = take 4095 message ++ zeros (4096 - length (take 4095 message))

-- "L->  %s\n"
unfoldable pub log_line : Bytes → Bytes
unfolding c_string
log_line record_bytes = codes "L->  " ++ c_string record_bytes ++ b'\n' ∷ []

-- pthread_cond_signal wakes the log process if it waits.
abbrev pub wake : Logger → Logger
wake asleep = woken
wake l = l

-- A worker among the others, at one stage and then at the next.
abbrev pub among : List Worker → Stage → Bytes → List Worker → List Worker
among before st m after = before ++ record { stage = st; message = m } ∷ after

-- How the system's calls may go: whether the log file can be opened, whether read, write and dprintf may
-- fail, and whether pthread_cond_wait may return without a signal.
pub record Calls : Type 0 where
  pub opens : Bool
  pub read_may_fail : Bool
  pub write_may_fail : Bool
  pub print_may_fail : Bool
  pub may_wake_unsignalled : Bool

-- A pipe holds 16 records of 4096 bytes. A call that fails is reported, and its caller goes on: the log
-- process prints the zeroed array when it has read nothing. The log process has the only write end of
-- global_fd_sync_pipe, so that once it has ended a read that finds no byte returns 0.
pub data Step (calls : Calls) : Sys → Sys → Type 0 where
  lock :
      (s : Sys)
      → s.logger ≡ at_lock
      → s.held ≡ false
      → Step calls s (record s { logger = at_post; held = true })
  post :
      (s : Sys)
      → s.logger ≡ at_post
      → Step calls s (record s { logger = at_wait; tokens = s.tokens + 1 })
  post_fails :
      (s : Sys)
      → s.logger ≡ at_post
      → calls.write_may_fail ≡ true
      → Step calls s (record s { logger = at_wait })
  wait : (s : Sys) → s.logger ≡ at_wait → Step calls s (record s { logger = asleep; held = false })
  wake_unsignalled :
      (s : Sys)
      → s.logger ≡ asleep
      → calls.may_wake_unsignalled ≡ true
      → Step calls s (record s { logger = woken })
  resume :
      (s : Sys)
      → s.logger ≡ woken
      → s.held ≡ false
      → Step calls s (record s { logger = at_read; held = true })
  read_record :
      (s : Sys) (r : Bytes) (rest : List Bytes)
      → s.logger ≡ at_read
      → calls.opens ≡ true
      → s.pipe ≡ r ∷ rest
      → Step calls s
          (record s { logger = at_unlock; pipe = rest; file = s.file ++ log_line r ∷ [] })
  read_fails :
      (s : Sys)
      → s.logger ≡ at_read
      → calls.opens ≡ true
      → calls.read_may_fail ≡ true
      → Step calls s (record s { logger = at_unlock; file = s.file ++ log_line [] ∷ [] })
  print_fails :
      (s : Sys) (r : Bytes) (rest : List Bytes)
      → s.logger ≡ at_read
      → calls.opens ≡ true
      → s.pipe ≡ r ∷ rest
      → calls.print_may_fail ≡ true
      → Step calls s (record s { logger = at_unlock; pipe = rest })
  both_fail :
      (s : Sys)
      → s.logger ≡ at_read
      → calls.opens ≡ true
      → calls.read_may_fail ≡ true
      → calls.print_may_fail ≡ true
      → Step calls s (record s { logger = at_unlock })
  open_fails :
      (s : Sys)
      → s.logger ≡ at_read
      → calls.opens ≡ false
      → Step calls s (record s { logger = exited })
  unlock :
      (s : Sys) → s.logger ≡ at_unlock → Step calls s (record s { logger = at_lock; held = false })
  take_token :
      (s : Sys) (before after : List Worker) (m : Bytes) (n : ℕ)
      → s.workers ≡ among before at_token m after
      → s.tokens ≡ suc n
      → Step calls s (record s { workers = among before at_mutex m after; tokens = n })
  token_fails :
      (s : Sys) (before after : List Worker) (m : Bytes)
      → s.workers ≡ among before at_token m after
      → calls.read_may_fail ≡ true
      → Step calls s (record s { workers = among before at_mutex m after })
  token_ends :
      (s : Sys) (before after : List Worker) (m : Bytes)
      → s.workers ≡ among before at_token m after
      → s.logger ≡ exited
      → s.tokens ≡ 0
      → Step calls s (record s { workers = among before at_mutex m after })
  take_mutex :
      (s : Sys) (before after : List Worker) (m : Bytes)
      → s.workers ≡ among before at_mutex m after
      → s.held ≡ false
      → Step calls s (record s { workers = among before at_write m after; held = true })
  write_record :
      (s : Sys) (before after : List Worker) (m : Bytes)
      → s.workers ≡ among before at_write m after
      → length s.pipe < 16
      → Step calls s
          (record s { workers = among before at_signal m after; pipe = s.pipe ++ frame m ∷ [] })
  write_fails :
      (s : Sys) (before after : List Worker) (m : Bytes)
      → s.workers ≡ among before at_write m after
      → calls.write_may_fail ≡ true
      → Step calls s (record s { workers = among before at_signal m after })
  signal :
      (s : Sys) (before after : List Worker) (m : Bytes)
      → s.workers ≡ among before at_signal m after
      → Step calls s
          (record s { workers = among before at_release m after; logger = wake s.logger })
  release_mutex :
      (s : Sys) (before after : List Worker) (m : Bytes)
      → s.workers ≡ among before at_release m after
      → Step calls s (record s { workers = among before finished m after; held = false })

-- The states that follow from one.
pub data Reaches (calls : Calls) (s : Sys) : Sys → Type 0 where
  here : Reaches calls s s
  next : (t u : Sys) → Reaches calls s t → Step calls t u → Reaches calls s u

-- The log process before its first round, and the handlers before their calls.
abbrev pub arriving : List Bytes → List Worker
arriving [] = []
arriving (m ∷ ms) = record { stage = at_token; message = m } ∷ arriving ms

abbrev pub start : List Bytes → List Bytes → Sys
start file messages = record {
  logger = at_lock;
  workers = arriving messages;
  held = false;
  tokens = 0;
  pipe = [];
  file = file;
}

-- What a theorem relies on: that no read, write or dprintf fails; that besides the log file can be opened
-- and nobody is woken without a signal.
abbrev pub Transfers : Calls → Type 0
Transfers calls =
    (calls.read_may_fail ≡ false) × (calls.write_may_fail ≡ false) × (calls.print_may_fail ≡ false)

abbrev pub Exchanges : Calls → Type 0
Exchanges calls =
    (calls.opens ≡ true)
    × (calls.read_may_fail ≡ false)
    × (calls.write_may_fail ≡ false)
    × (calls.may_wake_unsignalled ≡ false)
