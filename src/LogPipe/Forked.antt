-- ===== src/LogPipe/Forked.antt =====
-- linux/lib/pipe/linux_pipe.c `socket_pipe_log`, with `socket_pipe_log_child` and
-- `socket_pipe_log_father`: one record is handed to a process that is forked for it. A relation on the states
-- of the two processes; each step is one call.
pub mod Ends
use gopher_server_cross_plat.Base.{
  ℕ, ◌+◌, Bool, true, false, List, [], ◌∷◌, ◌++◌, Option, none, some, ◌≡◌, Bytes, codes, take, ℤ,
  pos, negsuc,
}
use gopher_server_cross_plat.Cstring.{c_string}
use gopher_server_cross_plat.Cstring.Decimal.{print_int}

-- "FileName: %s\t%d Byte \t IP Client: %s Port: %d\n"
unfoldable pub forked_record : Bytes → ℤ → Bytes → ℤ → Bytes
forked_record path dim_file ip_client port =
    codes "FileName: "
    ++ path
    ++ b'\t' ∷ print_int dim_file
    ++ codes " Byte \t IP Client: "
    ++ ip_client
    ++ codes " Port: "
    ++ print_int port
    ++ codes "\n"

-- The array of 4096 bytes behind snprintf: what stands behind the terminator is not initialised.
abbrev pub forked_message : Bytes → Bytes → Bytes
forked_message text junk = take 4095 text ++ 0 ∷ junk

-- "L -> %s"
unfoldable pub forked_line : Bytes → Bytes
unfolding c_string
forked_line message = codes "L -> " ++ c_string message

-- The forked process, before the call that it is at: it closes its end for writing, opens the log file, reads
-- the record, prints it, and closes its end for reading.
pub data Reader : Type 0 where
  at_close at_open at_read at_close_read : Reader
  at_print : Bytes → Reader
  ended : ℤ → Reader

-- The server: it closes its end for reading, writes the record, and closes its end for writing. A write to a
-- pipe that nobody can read ends its process.
pub data Writer : Type 0 where
  at_close_in at_write at_close_out returned killed : Writer

pub record Fork : Type 0 where
  pub reader : Reader
  pub writer : Writer
  pub pipe : Option Bytes  -- the record in the pipe
  pub file : List Bytes  -- what has been printed to the log

abbrev pub fork : Reader → Writer → Option Bytes → List Bytes → Fork
fork r w q f = record { reader = r; writer = w; pipe = q; file = f }

-- The ends of the pipe that are open.
abbrev pub can_read : Reader → Bool
can_read (ended c) = false
can_read r = true

abbrev pub can_write : Writer → Bool
can_write returned = false
can_write killed = false
can_write w = true

abbrev pub printed_to : Bool → Bytes → List Bytes → List Bytes
printed_to true m file = file ++ forked_line m ∷ []
printed_to false m file = file

-- Whether the log can be opened and printed to; the array of the reader before it has read; and what the
-- server writes.
pub data Step (opens prints : Bool) (array message : Bytes) : Fork → Fork → Type 0 where
  close_write :
      (w : Writer) (q : Option Bytes) (f : List Bytes)
      → Step opens prints array message (fork at_close w q f) (fork at_open w q f)
  open_log :
      (w : Writer) (q : Option Bytes) (f : List Bytes)
      → opens ≡ true
      → Step opens prints array message (fork at_open w q f) (fork at_read w q f)
  open_fails :
      (w : Writer) (q : Option Bytes) (f : List Bytes)
      → opens ≡ false
      → Step opens prints array message (fork at_open w q f) (fork (ended (negsuc 0)) w q f)
  read_record :
      (w : Writer) (m : Bytes) (f : List Bytes)
      → Step opens prints array message (fork at_read w (some m) f) (fork (at_print m) w none f)
  read_end :
      (w : Writer) (f : List Bytes)
      → can_write w ≡ false
      → Step opens prints array message (fork at_read w none f) (fork (at_print array) w none f)
  print_line :
      (w : Writer) (q : Option Bytes) (m : Bytes) (f : List Bytes)
      → Step opens prints array message
          (fork (at_print m) w q f)
          (fork at_close_read w q (printed_to prints m f))
  end_reader :
      (w : Writer) (q : Option Bytes) (f : List Bytes)
      → Step opens prints array message (fork at_close_read w q f) (fork (ended (pos 0)) w q f)
  close_in :
      (r : Reader) (q : Option Bytes) (f : List Bytes)
      → Step opens prints array message (fork r at_close_in q f) (fork r at_write q f)
  write_record :
      (r : Reader) (f : List Bytes)
      → can_read r ≡ true
      → Step opens prints array message
          (fork r at_write none f)
          (fork r at_close_out (some message) f)
  broken_pipe :
      (r : Reader) (q : Option Bytes) (f : List Bytes)
      → can_read r ≡ false
      → Step opens prints array message (fork r at_write q f) (fork r killed q f)
  close_out :
      (r : Reader) (q : Option Bytes) (f : List Bytes)
      → Step opens prints array message (fork r at_close_out q f) (fork r returned q f)

-- With the number of steps.
pub data Reaches (opens prints : Bool) (array message : Bytes) (s : Fork) : ℕ → Fork → Type 0 where
  here : Reaches opens prints array message s 0 s
  next :
      (n : ℕ) (t u : Fork)
      → Reaches opens prints array message s n t
      → Step opens prints array message t u
      → Reaches opens prints array message s (1 + n) u

-- After the fork.
abbrev pub start : List Bytes → Fork
start file = fork at_close at_close_in none file
