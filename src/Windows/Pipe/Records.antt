-- ===== src/Windows/Pipe/Records.antt =====
-- A record on its way from the server to the log file.
use gopher_server_cross_plat.Base.{
  ℕ, zero, suc, ◌-◌, ◌^◌, ◌<◌, ◌≤◌, true, some, ◌≡◌, refl, ap, ◌∙◌, arith, Bytes, pos, length,
  length-append, ◌++◌, ◌∷◌, [], take, drop, take-all, Without, append-nil,
}
use gopher_server_cross_plat.Outcome.{ok, exited}
use gopher_server_cross_plat.World.{Os}
use gopher_server_cross_plat.Send.{sprintf_into}
use gopher_server_cross_plat.Cstring.{strlen, strlen-append, take-prefix}
use gopher_server_cross_plat.World.{Pipes}
use gopher_server_cross_plat.Windows.Pipe.{
  Answers, LogAnswers, PipeArgs, pipe_simple_write_to_pipe, after_sprintf, signal_event,
  restore_out, message_of, simple_text, message_size, padding, main_log_process, read_pipe,
  append_record, append_string, pipe_run_process, with_pipe, link_child, create_child,
  child_command,
}
use gopher_server_cross_plat.Windows.Pipe.Output.{child_command-fits}

length-padding : (n : ℕ) → length (padding n) ≡ n
unfolding padding
length-padding zero = refl
length-padding (suc n) = ap suc (length-padding n)

length-message_of :
    (text : Bytes) → length text < message_size → length (message_of text) ≡ message_size
unfolding message_of
length-message_of text h = omega (
  arith,
  length-append text (padding (message_size - length text)),
  length-padding (message_size - length text),
)

drop-all : (s : Bytes) (n : ℕ) → length s ≤ n → drop n s ≡ []
drop-all [] zero h = refl
drop-all [] (suc n) h = refl
drop-all (c ∷ s) zero h = absurd (omega arith)
drop-all (c ∷ s) (suc n) h = drop-all s n (omega arith)

padding-suc : (n : ℕ) → 0 < n → padding n ≡ 0 ∷ padding (n - 1)
unfolding padding
padding-suc zero h = absurd (omega arith)
padding-suc (suc n) h = ap (λ m. 0 ∷ padding m) (omega arith)

message_of-cut :
    (text : Bytes)
    → length text < message_size
    → message_of text ≡ text ++ 0 ∷ padding (message_size - length text - 1)
unfolding message_of
message_of-cut text h = ap (λ s. text ++ s) (padding-suc (message_size - length text) (omega arith))

-- The array that the log process prints, after it has read one record.
strlen-message_of :
    (text : Bytes)
    → Without 0 text
    → length text < message_size
    → strlen (message_of text) ≡ some (length text)
strlen-message_of text h k =
    rw (message_of-cut text k) (strlen-append text (padding (message_size - length text - 1)) h)

take-message_of : (text : Bytes) → take (length text) (message_of text) ≡ text
unfolding message_of
take-message_of text = take-prefix text (padding (message_size - length text))

append_record_text :
    (l : LogAnswers) (text file : Bytes)
    → l.opens ≡ true
    → l.argument ≡ true
    → Without 0 text
    → length text < message_size
    → append_record l (message_of text) [] file ≡ (exited (pos 0), [], file ++ text)
unfolding append_record append_string
append_record_text l text file o g h k =
    rw (o, strlen-message_of text h k, take-message_of text, g) refl

array_whole :
    (size : ℕ) (s : Bytes)
    → length s ≡ size
    → take size s ++ padding (size - length (take size s)) ≡ s
unfolding padding
array_whole size s h =
    let none_left : size - length s ≡ 0 = omega arith in
    rw (take-all size s (omega arith), none_left) (append-nil s)

read_pipe_whole :
    (l : LogAnswers) (s file : Bytes)
    → length s ≡ message_size
    → read_pipe l s file ≡ append_record l s [] file
unfolding read_pipe
read_pipe_whole l [] file h = absurd (omega arith)
read_pipe_whole l (c ∷ s) file h =
    ap (λ b. append_record l b (drop message_size (c ∷ s)) file)
      (array_whole message_size (c ∷ s) h)
    ∙ ap (λ d. append_record l (c ∷ s) d file) (drop-all (c ∷ s) message_size (omega arith))

-- Everything that the log process asks of the system is granted.
pub record Granted (l : LogAnswers) : Type 0 where
  pub is_signalled : l.signalled ≡ true
  pub is_read : l.reads ≡ true
  pub is_open : l.opens ≡ true
  pub has_argument : l.argument ≡ true

pub main_log_process_record :
    (l : LogAnswers) (text file : Bytes)
    → Granted l
    → Without 0 text
    → length text < message_size
    → main_log_process l (message_of text) file ≡ (exited (pos 0), [], file ++ text)
unfolding main_log_process
main_log_process_record l text file g h k =
    rw
      (
        g.is_signalled,
        g.is_read,
        read_pipe_whole l (message_of text) file (length-message_of text k),
      )
      (append_record_text l text file g.is_open g.has_argument h k)

-- Everything that the two calls before it ask of the system is granted.
pub record Working (a : Answers) : Type 0 where
  pub sets : a.sets_out ≡ true
  pub restores : a.restores_out ≡ true
  pub valid : a.pipe_write_valid ≡ true
  pub writing : a.writes ≡ true
  pub event : a.create_event ≡ true
  pub starting : a.create_process ≡ true
  pub duplicating : a.duplicates ≡ true

pub pipe_simple_write_to_pipe_record :
    (os : Os) (a : Answers) (args : PipeArgs) (p : Pipes)
    → Working a
    → os.sprintf_ok (simple_text args) ≡ true
    → length (simple_text args) < message_size
    → pipe_simple_write_to_pipe os a args p
      ≡ ok (pos 0, record p { pipe = p.pipe ++ message_of (simple_text args); event_set = true })
unfolding pipe_simple_write_to_pipe sprintf_into after_sprintf signal_event restore_out
pipe_simple_write_to_pipe_record os a args p w printed fits =
    ground (arith, w.sets, w.restores, w.valid, w.writing, w.event)

-- Then a new process starts with an empty pipe.
pub pipe_run_process_pipe :
    (os : Os) (a : Answers) (handle mode : ℕ) (p : Pipes)
    → Working a
    → ((text : Bytes) → os.sprintf_ok text ≡ true)
    → a.create_pipe ≡ some handle
    → handle < 2 ^ 64
    → mode < 128
    → pipe_run_process os a mode p
      ≡ ok (
        pos 0,
        record p {
          pipe_read = handle;
          pipe = [];
          commands = p.commands ++ child_command handle mode ∷ [];
        },
      )
unfolding pipe_run_process with_pipe link_child create_child sprintf_into
pipe_run_process_pipe os a handle mode p w printed created small m = rw created (
    ground (
      arith,
      printed (child_command handle mode),
      child_command-fits handle mode small m,
      w.sets,
      w.restores,
      w.starting,
      w.duplicating,
    ))
