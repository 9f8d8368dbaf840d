-- ===== src/Windows/Pipe/Output.antt =====
-- What becomes of the standard output while records are sent.
use gopher_server_cross_plat.Base.{
  ℕ, ◌+◌, ◌-◌, ◌^◌, ◌≤◌, ◌<◌, true, Option, none, some, ◌≡◌, refl, ◌⊎◌, inl, inr, arith, Bytes, ℤ,
  pos, negsuc, length, length-append, Bool-cases, ltb, ◌++◌, ◌∷◌, [],
}
use gopher_server_cross_plat.Outcome.{Result, ok, stop, fault}
use gopher_server_cross_plat.World.{Os}
use gopher_server_cross_plat.Send.{sprintf_into}
use gopher_server_cross_plat.Cstring.Decimal.{print_nat, length-print_nat}
use gopher_server_cross_plat.World.{Pipes}
use gopher_server_cross_plat.Windows.Pipe.{
  Answers, PipeArgs, pipe_simple_write_to_pipe, pipe_run_process, child_command, print_handle,
  after_sprintf, signal_event, restore_out, create_child, link_child, with_pipe, write_message,
  simple_text, message_size,
}

-- The ways in which a log process is started: it is, and the standard output is as before; or one of three
-- codes tells that a call failed, and the standard output is as before or is the pipe's end for reading.
abbrev pub Started : ℕ → Pipes → ℤ × Pipes → Type 0
Started mode p (code, q) =
    ((code ≡ pos 0)
      × (q.std_out ≡ p.std_out)
      × (q.commands ≡ p.commands ++ child_command q.pipe_read mode ∷ []))
    ⊎ (((code ≡ pos 22) ⊎ ((code ≡ pos 23) ⊎ (code ≡ pos 24)))
        × ((q.std_out ≡ p.std_out) ⊎ (q.std_out ≡ q.pipe_read)))

length-print_handle : (handle : ℕ) → handle < 2 ^ 64 → length (print_handle handle) ≤ 20
unfolding print_handle
length-print_handle handle h = elim (Bool-cases (ltb handle (2 ^ 63))) [
  | inl small ↦ rw small (omega (arith, length-print_nat 18 handle (ground arith)))
  | inr large ↦ rw large (omega (arith, length-print_nat 18 (2 ^ 64 - handle) (ground arith)))
]

pub child_command-fits :
    (handle mode : ℕ) → handle < 2 ^ 64 → mode < 128 → length (child_command handle mode) < 32
unfolding child_command
child_command-fits handle mode h m = omega (
  arith,
  length-append (print_handle handle) (b' ' ∷ print_nat (1 + mode)),
  length-print_handle handle h,
  length-print_nat 2 (1 + mode) (omega arith),
)

link_child-Started :
    (a : Answers) (handle mode : ℕ) (p : Pipes)
    → Started mode p (
        link_child a handle
          (child_command handle mode)
          (record p { pipe_read = handle; pipe = [] }))
unfolding link_child create_child
link_child-Started a handle mode p = ground arith

with_pipe-Started :
    (os : Os) (a : Answers) (mode : ℕ) (pipe : Option ℕ) (p : Pipes)
    → ((text : Bytes) → os.sprintf_ok text ≡ true)
    → ((handle : ℕ) → pipe ≡ some handle → handle < 2 ^ 64)
    → mode < 128
    → (r : ℤ × Pipes) × (with_pipe os a mode pipe p ≡ ok r) × Started mode p r
unfolding with_pipe sprintf_into
with_pipe-Started os a mode none p printed handles m = ((pos 22, p), refl, inr (inl refl, inl refl))
with_pipe-Started os a mode (some handle) p printed handles m = (
  link_child a handle (child_command handle mode) (record p { pipe_read = handle; pipe = [] }),
  ground (
    arith,
    printed (child_command handle mode),
    child_command-fits handle mode (handles handle refl) m,
  ),
  link_child-Started a handle mode p,
)

-- When sprintf succeeds, starting a log process always returns: a handle that fits 64 bits and a
-- mode that fits a char print into the 32 bytes of the command line. It returns 0 with the
-- standard output as before and the process started, or 22, 23 or 24, and then the standard output
-- may be left as the pipe's end for reading.
pub pipe_run_process-Started :
    (os : Os) (a : Answers) (mode : ℕ) (p : Pipes)
    → ((text : Bytes) → os.sprintf_ok text ≡ true)
    → ((handle : ℕ) → a.create_pipe ≡ some handle → handle < 2 ^ 64)
    → mode < 128
    → (r : ℤ × Pipes) × (pipe_run_process os a mode p ≡ ok r) × Started mode p r
unfolding pipe_run_process
pipe_run_process-Started os a mode p = with_pipe-Started os a mode a.create_pipe p

-- A record has been written whole and the event set, with the standard output as before; or the code is
-- negative, and nothing has changed or the standard output is the pipe's end for reading.
abbrev pub Written : Answers → Bytes → Pipes → ℤ × Pipes → Type 0
Written a text p (code, q) =
    ((code ≡ pos 0) × (q ≡ record (write_message a text p) { event_set = true }))
    ⊎ (((code ≡ negsuc 0) ⊎ (code ≡ negsuc 1)) × ((q ≡ p) ⊎ (q.std_out ≡ p.pipe_read)))

after_sprintf-Written :
    (a : Answers) (text : Bytes) (ret : ℤ) (p : Pipes)
    → Written a text p (after_sprintf a p.std_out text ret (record p { std_out = p.pipe_read }))
unfolding after_sprintf signal_event restore_out
after_sprintf-Written a text ret p = ground arith

-- Once the standard output has been set, and when sprintf succeeds: either the record is at most
-- 4095 bytes long and the call returns, with the standard output as before if it returns 0; or it
-- is longer, and writing it is an access outside the array.
pub pipe_simple_write_to_pipe-Written :
    (os : Os) (a : Answers) (args : PipeArgs) (p : Pipes)
    → os.sprintf_ok (simple_text args) ≡ true
    → a.sets_out ≡ true
    → ((length (simple_text args) < message_size)
        × (r : ℤ × Pipes) × (pipe_simple_write_to_pipe os a args p ≡ ok r)
        × Written a (simple_text args) p r)
      ⊎ ((message_size ≤ length (simple_text args))
          × (pipe_simple_write_to_pipe os a args p ≡ stop fault))
unfolding pipe_simple_write_to_pipe sprintf_into
pipe_simple_write_to_pipe-Written os a args p printed sets =
    elim (Bool-cases (ltb (length (simple_text args)) message_size)) [
      | inl fits ↦ inl (
        ground arith,
        after_sprintf a p.std_out (simple_text args) (pos (length (simple_text args)))
            (record p { std_out = p.pipe_read }),
        ground arith,
        after_sprintf-Written a (simple_text args) (pos (length (simple_text args))) p,
      )
      | inr long ↦ inr (ground arith, ground arith)
    ]

-- A call that stops only by an access outside an object.
abbrev pub OnlyFaults : Result (ℤ × Pipes) → Type 0
OnlyFaults (ok r) = Unit
OnlyFaults (stop s) = s ≡ fault

with_pipe-OnlyFaults :
    (os : Os) (a : Answers) (mode : ℕ) (pipe : Option ℕ) (p : Pipes)
    → OnlyFaults (with_pipe os a mode pipe p)
unfolding with_pipe sprintf_into
with_pipe-OnlyFaults os a mode none p = tt
with_pipe-OnlyFaults os a mode (some handle) p = ground arith

pub pipe_run_process-OnlyFaults :
    (os : Os) (a : Answers) (mode : ℕ) (p : Pipes) → OnlyFaults (pipe_run_process os a mode p)
unfolding pipe_run_process
pipe_run_process-OnlyFaults os a mode p = with_pipe-OnlyFaults os a mode a.create_pipe p
