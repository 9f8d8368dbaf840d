-- ===== src/LogPipe/Single.antt =====
-- linux/lib/pipe/linux_pipe.c `socket_pipe_multiple_process` and `socket_pipe_log_server`: a log process
-- for one record (LOG_WITH_MULTIPLE_PROCESS). A relation on the states of it and of the server; each step is
-- one call.
pub mod Ends
use gopher_server_cross_plat.Base.{
  ℕ, zero, suc, ◌+◌, Bool, true, false, List, [], ◌∷◌, ◌++◌, ◌≡◌, Bytes, codes, ℤ,
}
use gopher_server_cross_plat.Cstring.{c_string}
use gopher_server_cross_plat.Cstring.Decimal.{print_int}
use gopher_server_cross_plat.LogPipe.{
  Logger, at_lock, at_post, at_wait, asleep, woken, at_read, at_unlock, exited, Stage, at_token,
  at_mutex, at_write, at_signal, at_release, finished, frame, wake, Calls,
}

-- "FileName: %s\t%d Byte \t IP Client: %s"
unfoldable pub server_record : Bytes → ℤ → Bytes → Bytes
server_record path dim_file ip_client =
    codes "FileName: "
    ++ path
    ++ b'\t' ∷ print_int dim_file
    ++ codes " Byte \t IP Client: "
    ++ ip_client

-- "Byte %s\n"
unfoldable pub byte_line : Bytes → Bytes
unfolding c_string
byte_line record_bytes = codes "Byte " ++ c_string record_bytes ++ b'\n' ∷ []

-- The log process and the server, each before the call that it is at; `exited` is a log process that has
-- ended, and `finished` a server that has returned.
pub record Pair : Type 0 where
  pub child : Logger
  pub parent : Stage
  pub held : Bool  -- `mutex`
  pub tokens : ℕ  -- bytes in fd_sync_pipe
  pub pipe : List Bytes  -- records in fd_pipe
  pub file : List Bytes

abbrev pub pair : Logger → Stage → Bool → ℕ → List Bytes → List Bytes → Pair
pair l st held n q f = record {
  child = l;
  parent = st;
  held = held;
  tokens = n;
  pipe = q;
  file = f;
}

-- After its write the log process has closed the only write end of fd_sync_pipe, and after its end too.
abbrev has_closed : Logger → Bool
has_closed at_lock = false
has_closed at_post = false
has_closed _ = true

-- `message` is what the server writes. A call that fails is reported, and its caller goes on. The log process ends behind its unlock, and when it cannot open the
-- log file.
pub data Step (calls : Calls) (message : Bytes) : Pair → Pair → Type 0 where
  lock :
      (st : Stage) (n : ℕ) (q f : List Bytes)
      → Step calls message (pair at_lock st false n q f) (pair at_post st true n q f)
  post :
      (st : Stage) (held : Bool) (n : ℕ) (q f : List Bytes)
      → Step calls message (pair at_post st held n q f) (pair at_wait st held (suc n) q f)
  post_fails :
      (st : Stage) (held : Bool) (n : ℕ) (q f : List Bytes)
      → calls.write_may_fail ≡ true
      → Step calls message (pair at_post st held n q f) (pair at_wait st held n q f)
  wait :
      (st : Stage) (held : Bool) (n : ℕ) (q f : List Bytes)
      → Step calls message (pair at_wait st held n q f) (pair asleep st false n q f)
  wake_unsignalled :
      (st : Stage) (held : Bool) (n : ℕ) (q f : List Bytes)
      → calls.may_wake_unsignalled ≡ true
      → Step calls message (pair asleep st held n q f) (pair woken st held n q f)
  resume :
      (st : Stage) (n : ℕ) (q f : List Bytes)
      → Step calls message (pair woken st false n q f) (pair at_read st true n q f)
  read_record :
      (st : Stage) (held : Bool) (n : ℕ) (r : Bytes) (q f : List Bytes)
      → calls.opens ≡ true
      → Step calls message
          (pair at_read st held n (r ∷ q) f)
          (pair at_unlock st held n q (f ++ byte_line r ∷ []))
  read_fails :
      (st : Stage) (held : Bool) (n : ℕ) (q f : List Bytes)
      → calls.opens ≡ true
      → calls.read_may_fail ≡ true
      → Step calls message
          (pair at_read st held n q f)
          (pair at_unlock st held n q (f ++ byte_line [] ∷ []))
  print_fails :
      (st : Stage) (held : Bool) (n : ℕ) (r : Bytes) (q f : List Bytes)
      → calls.opens ≡ true
      → calls.print_may_fail ≡ true
      → Step calls message (pair at_read st held n (r ∷ q) f) (pair at_unlock st held n q f)
  both_fail :
      (st : Stage) (held : Bool) (n : ℕ) (q f : List Bytes)
      → calls.opens ≡ true
      → calls.read_may_fail ≡ true
      → calls.print_may_fail ≡ true
      → Step calls message (pair at_read st held n q f) (pair at_unlock st held n q f)
  open_fails :
      (st : Stage) (held : Bool) (n : ℕ) (q f : List Bytes)
      → calls.opens ≡ false
      → Step calls message (pair at_read st held n q f) (pair exited st held n q f)
  unlock :
      (st : Stage) (held : Bool) (n : ℕ) (q f : List Bytes)
      → Step calls message (pair at_unlock st held n q f) (pair exited st false n q f)
  take_token :
      (l : Logger) (held : Bool) (n : ℕ) (q f : List Bytes)
      → Step calls message (pair l at_token held (suc n) q f) (pair l at_mutex held n q f)
  token_fails :
      (l : Logger) (held : Bool) (n : ℕ) (q f : List Bytes)
      → calls.read_may_fail ≡ true
      → Step calls message (pair l at_token held n q f) (pair l at_mutex held n q f)
  token_ends :
      (l : Logger) (held : Bool) (q f : List Bytes)
      → has_closed l ≡ true
      → Step calls message (pair l at_token held 0 q f) (pair l at_mutex held 0 q f)
  take_mutex :
      (l : Logger) (n : ℕ) (q f : List Bytes)
      → Step calls message (pair l at_mutex false n q f) (pair l at_write true n q f)
  write_record :
      (l : Logger) (held : Bool) (n : ℕ) (q f : List Bytes)
      → Step calls message
          (pair l at_write held n q f)
          (pair l at_signal held n (q ++ frame message ∷ []) f)
  write_fails :
      (l : Logger) (held : Bool) (n : ℕ) (q f : List Bytes)
      → calls.write_may_fail ≡ true
      → Step calls message (pair l at_write held n q f) (pair l at_signal held n q f)
  signal :
      (l : Logger) (held : Bool) (n : ℕ) (q f : List Bytes)
      → Step calls message (pair l at_signal held n q f) (pair (wake l) at_release held n q f)
  release_mutex :
      (l : Logger) (held : Bool) (n : ℕ) (q f : List Bytes)
      → Step calls message (pair l at_release held n q f) (pair l finished false n q f)

pub data Reaches (calls : Calls) (message : Bytes) (s : Pair) : Pair → Type 0 where
  here : Reaches calls message s s
  next :
      (t u : Pair) → Reaches calls message s t → Step calls message t u → Reaches calls message s u

-- After the fork.
abbrev pub start : List Bytes → Pair
start file = pair at_lock at_token false 0 [] file
