-- ===== src/Windows/Pipe.antt =====
-- windows/lib/pipe/windows_pipe.c and main_LogProcess.c: the pipe between the server and the process
-- that appends its records to the log file.
pub mod Output
pub mod Records
use gopher_server_cross_plat.Base.{
  ℕ, zero, suc, ◌+◌, ◌-◌, Bool, true, false, not, List, [], ◌∷◌, ◌++◌, Option, none, some, ◌==◌,
  ltb, ◌^◌, if◌then◌else◌, Bytes, length, take, drop, codes, ℤ, pos, negsuc, is_negative,
}
use gopher_server_cross_plat.Outcome.{Stop, Result, ok, stop, exited, fault, blocked, ◌>>=◌}
use gopher_server_cross_plat.World.{Os, Pipes}
use gopher_server_cross_plat.Cstring.{strlen}
use gopher_server_cross_plat.Send.{sprintf_into}
use gopher_server_cross_plat.Cstring.Decimal.{print_nat, print_int}

-- struct PipeArgs
pub record PipeArgs : Type 0 where
  pub ip_client : Bytes
  pub dim_file : ℤ
  pub path : Bytes
  pub port : ℤ

-- Answers of the system. SetStdHandle is told whether it sets or restores.
pub record Answers : Type 0 where
  pub create_pipe : Option ℕ  -- the handle of the end for reading
  pub sets_out : Bool  -- the first SetStdHandle
  pub restores_out : Bool  -- the second one
  pub create_process : Bool
  pub duplicates : Bool  -- DuplicateHandle
  pub pipe_write_valid : Bool  -- pipe_write is not INVALID_HANDLE_VALUE
  pub writes : Bool  -- WriteFile
  pub create_event : Bool

-- general/include/definitions.h: `BUFFER_SIZE * 2`
abbrev pub message_size : ℕ
message_size = 4096

unfoldable pub padding : ℕ → Bytes
padding zero = []
padding (suc n) = 0 ∷ padding n

-- The zeroed array with the text in it.
unfoldable pub message_of : Bytes → Bytes
unfolding padding
message_of text = text ++ padding (message_size - length text)

-- "W -> FileName: %s\t%d KByte \t IP Client: %s\t Port: %d \n"
unfoldable pub simple_text : PipeArgs → Bytes
simple_text args =
    codes "W -> FileName: "
    ++ args.path
    ++ b'\t' ∷ print_int args.dim_file
    ++ codes " KByte \t IP Client: "
    ++ args.ip_client
    ++ codes "\t Port: "
    ++ print_int args.port
    ++ codes " \n"

-- "W -> FileName: %s\t%d KByte \t IP Client: %s\n"
unfoldable pub named_text : PipeArgs → Bytes
named_text args =
    codes "W -> FileName: "
    ++ args.path
    ++ b'\t' ∷ print_int args.dim_file
    ++ codes " KByte \t IP Client: "
    ++ args.ip_client
    ++ codes "\n"

-- A named pipe, which is opened for each record; none: it cannot be opened. The result of sprintf is not
-- looked at.
unfoldable pub pipe_write_to_pipe : Os → Bool → Option Bytes → PipeArgs → Result (ℤ × Option Bytes)
unfolding sprintf_into message_of named_text
pipe_write_to_pipe os writes pipe args = do
  ret ← sprintf_into os message_size (named_text args)
  ok (
    pos 0,
    elim pipe [
      | none ↦ none
      | some b ↦
          some (
            if writes then b ++ message_of (if is_negative ret then [] else named_text args) else b)
    ],
  )

restore_out : Answers → ℕ → Pipes → ℤ × Pipes
restore_out a father p =
    if a.restores_out then (pos 0, record p { std_out = father }) else (negsuc 0, p)

signal_event : Answers → ℕ → Pipes → ℤ × Pipes
unfolding restore_out
signal_event a father p =
    if a.create_event then restore_out a father (record p { event_set = true }) else (negsuc 1, p)

abbrev pub write_message : Answers → Bytes → Pipes → Pipes
write_message a text p =
    if a.pipe_write_valid
    then (if a.writes then record p { pipe = p.pipe ++ message_of text } else p)
    else p

after_sprintf : Answers → ℕ → Bytes → ℤ → Pipes → ℤ × Pipes
unfolding signal_event message_of
after_sprintf a father text ret p =
    if is_negative ret then (negsuc 0, p) else signal_event a father (write_message a text p)

unfoldable pub pipe_simple_write_to_pipe : Os → Answers → PipeArgs → Pipes → Result (ℤ × Pipes)
unfolding sprintf_into after_sprintf simple_text
pipe_simple_write_to_pipe os a args p =
    if a.sets_out
    then (do
      ret ← sprintf_into os message_size (simple_text args)
      ok (after_sprintf a p.std_out (simple_text args) ret (record p { std_out = p.pipe_read })))
    else ok (negsuc 1, p)

-- "%lld" of a handle that is cast to an unsigned number of 64 bits.
unfoldable pub print_handle : ℕ → Bytes
print_handle handle =
    if ltb handle (2 ^ 63) then print_nat handle else b'-' ∷ print_nat (2 ^ 64 - handle)

-- "%lld %d"
unfoldable pub child_command : ℕ → ℕ → Bytes
unfolding print_handle
child_command handle mode = print_handle handle ++ b' ' ∷ print_nat (1 + mode)

create_child : Answers → ℕ → Bytes → Pipes → ℤ × Pipes
create_child a father command p =
    if not a.create_process
    then (pos 24, p)
    else if not a.duplicates
    then (pos 23, record p { commands = p.commands ++ command ∷ [] })
    else if not a.restores_out
    then (pos 23, record p { commands = p.commands ++ command ∷ [] })
    else (pos 0, record p { commands = p.commands ++ command ∷ []; std_out = father })

link_child : Answers → ℕ → Bytes → Pipes → ℤ × Pipes
unfolding create_child
link_child a handle command p =
    if a.sets_out
    then create_child a p.std_out command (record p { std_out = handle })
    else (pos 23, p)

-- An array that sprintf did not fill is not initialised.
with_pipe : Os → Answers → ℕ → Option ℕ → Pipes → Result (ℤ × Pipes)
unfolding sprintf_into link_child child_command
with_pipe os a mode none p = ok (pos 22, p)
with_pipe os a mode (some handle) p = do
  ret ← sprintf_into os 32 (child_command handle mode)
  if is_negative ret
      then stop fault
      else ok (
          link_child a handle (child_command handle mode)
            (record p { pipe_read = handle; pipe = [] }))

-- A new pipe and a new log process. The mode is a `char` that is not negative.
unfoldable pub pipe_run_process : Os → Answers → ℕ → Pipes → Result (ℤ × Pipes)
unfolding with_pipe
pipe_run_process os a mode p = with_pipe os a mode a.create_pipe p

-- Answers to the log process.
pub record LogAnswers : Type 0 where
  pub signalled : Bool  -- the event, when it is waited for
  pub reads : Bool  -- ReadFile
  pub opens : Bool  -- fopen of the log file
  pub argument : Bool  -- whether argv[1] is there

-- Only one round is made, since the condition of the loop ends in `&& 0`; argv[1] is looked at.
abbrev log_end : LogAnswers → Bytes → Bytes → Stop × Bytes × Bytes
log_end l pipe file = (if l.argument then exited (pos 0) else fault, pipe, file)

-- "%s" of the array.
append_string : LogAnswers → Bytes → Option ℕ → Bytes → Bytes → Stop × Bytes × Bytes
append_string l buf none pipe file = (fault, pipe, file)
append_string l buf (some n) pipe file = log_end l pipe (file ++ take n buf)

append_record : LogAnswers → Bytes → Bytes → Bytes → Stop × Bytes × Bytes
unfolding append_string strlen
append_record l buf pipe file =
    if l.opens then append_string l buf (strlen buf) pipe file else (fault, pipe, file)

read_pipe : LogAnswers → Bytes → Bytes → Stop × Bytes × Bytes
unfolding append_record padding
read_pipe l [] file = (blocked, [], file)
read_pipe l (c ∷ pipe) file =
    append_record l
      (take message_size (c ∷ pipe)
        ++ padding (message_size - length (take message_size (c ∷ pipe))))
      (drop message_size (c ∷ pipe)) file

-- How the log process ends, what it leaves in the pipe, and the log file.
unfoldable pub main_log_process : LogAnswers → Bytes → Bytes → Stop × Bytes × Bytes
unfolding read_pipe
main_log_process l pipe file =
    if not l.signalled
    then (blocked, pipe, file)
    else if l.reads
    then read_pipe l pipe file
    else log_end l pipe file
