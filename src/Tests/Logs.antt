-- ===== src/Tests/Logs.antt =====
-- One handler's record, from its arrival to the log file.
use gopher_server_cross_plat.Base.{
  ◌+◌, ◌≤◌, ◌<◌, true, false, [], ◌∷◌, ◌≡◌, refl, arith, length, codes, Bytes, pos,
}
use gopher_server_cross_plat.LogPipe.{
  at_lock, asleep, at_read, at_mutex, at_write, at_signal, at_release, finished, Sys, lock, post,
  wait, resume, read_record, unlock, take_token, take_mutex, write_record, signal, release_mutex,
  Reaches, here, next, start, frame, log_line, among, Calls, Step,
}
use gopher_server_cross_plat.LogPipe.Invariant.{count}
use gopher_server_cross_plat.LogPipe.Handlers.{Reaches-one_handler}
use gopher_server_cross_plat.LogPipe.Setup.{Answers, in_child}
use gopher_server_cross_plat.LogPipe.Refines.{Appends, journal_of, Reaches-Appends}
use gopher_server_cross_plat.LogPipe.Progress.{Continues, Reaches-Continues}
use gopher_server_cross_plat.LogPipe.Records.{Served}
use gopher_server_cross_plat.Tests.{test_args}
use gopher_server_cross_plat.LogPipe.Lines.{times, meant, meant_line, Reaches-lines}
use gopher_server_cross_plat.LogPipe.Stuck.{unsignalled, Reaches-blocked}

-- No call fails, and nobody is woken without a signal.
abbrev pub faultless : Calls
faultless = record {
  opens = true;
  read_may_fail = false;
  write_may_fail = false;
  print_may_fail = false;
  may_wake_unsignalled = false;
}

module _ (m : Bytes) where
  abbrev first : Sys
  first = start [] (m ∷ [])

  abbrev with_worker : Sys
  with_worker = record {
    logger = asleep;
    workers = among [] at_mutex m [];
    held = false;
    tokens = 0;
    pipe = [];
    file = [];
  }

  waiting-Reaches : Reaches faultless first (record first { logger = asleep; tokens = 1 })
  waiting-Reaches =
      next _ _ (next _ _ (next _ _ here (lock first refl refl)) (post _ refl)) (wait _ refl)

  writing-Reaches :
      Reaches faultless first (record with_worker { workers = among [] at_write m []; held = true })
  writing-Reaches =
      next _ _ (next _ _ waiting-Reaches (take_token _ [] [] m 0 refl refl))
        (take_mutex with_worker [] [] m refl refl)

  abbrev written : Sys
  written = record with_worker {
    workers = among [] at_signal m [];
    held = true;
    pipe = frame m ∷ [];
  }

  written-Reaches : Reaches faultless first written
  written-Reaches = next _ _ writing-Reaches (write_record _ [] [] m refl (omega arith))

  abbrev ended : Sys
  ended = record with_worker {
    logger = at_lock;
    workers = among [] finished m [];
    file = log_line (frame m) ∷ [];
  }

  reading-Reaches : Reaches faultless first (record with_worker {
    logger = at_read;
    workers = among [] finished m [];
    held = true;
    pipe = frame m ∷ [];
  })
  reading-Reaches =
      next _ _
        (next _ _ (next _ _ written-Reaches (signal written [] [] m refl))
          (release_mutex _ [] [] m refl))
        (resume _ refl refl)

  ended-Reaches : Reaches faultless first ended
  ended-Reaches =
      next _ _ (next _ _ reading-Reaches (read_record _ (frame m) [] refl refl refl))
        (unlock _ refl)

one_signals : 1 ≤ count at_signal (written (codes "r")).workers
unfolding count
one_signals = omega arith

none_finished : count finished (first (codes "r")).workers < length (first (codes "r")).workers
unfolding count
none_finished = omega arith

all_finished : count finished (ended (codes "r")).workers ≡ length (ended (codes "r")).workers
unfolding count
all_finished = refl

Reaches-one_handler_example :
    count at_mutex (written (codes "r")).workers
      + count at_write (written (codes "r")).workers
      + count at_signal (written (codes "r")).workers
      + count at_release (written (codes "r")).workers
    ≤ 1
Reaches-one_handler_example =
    Reaches-one_handler faultless [] (codes "r" ∷ []) (written (codes "r")) (refl, refl)
      (written-Reaches (codes "r"))

Reaches-Continues_example : Continues faultless (first (codes "r"))
Reaches-Continues_example =
    Reaches-Continues faultless [] (codes "r" ∷ []) (first (codes "r")) (refl, refl, refl, refl)
      here none_finished

Reaches-lines_example :
    times (meant_line (codes "r")) (ended (codes "r")).file
    ≡ times (meant_line (codes "r")) [] + times (meant_line (codes "r")) (meant (codes "r" ∷ []))
Reaches-lines_example =
    Reaches-lines faultless [] (codes "r" ∷ []) (ended (codes "r")) (meant_line (codes "r"))
      (refl, refl, refl) (ended-Reaches (codes "r")) ((omega arith, (refl, tt)), tt) all_finished
      refl

abbrev answers : Answers
answers = record {
  sync_mutex = record { opened = true; sized = true; mapped = true };
  mutex = record { opened = true; sized = true; mapped = true };
  condition = record { opened = true; sized = true; mapped = true };
  sync_pipe = true;
  log_pipe = false;
  fork = in_child;
}

Reaches-Appends_example :
    Appends (record { lines = []; pending = codes "r" ∷ [] }) (journal_of (written (codes "r")))
Reaches-Appends_example =
    Reaches-Appends faultless [] (codes "r" ∷ []) (written (codes "r")) (refl, refl, refl)
      (written-Reaches (codes "r"))

abbrev one_served : Served
one_served = record { path = codes "/g/f"; size = pos 2; args = test_args; hostname = codes "host" }

Reaches-blocked_example :
    (s : Sys) × Reaches unsignalled (start [] (codes "r" ∷ [])) s
    × (count finished s.workers ≡ 0)
    × ((t : Sys) → ¬ Step unsignalled s t)
Reaches-blocked_example = Reaches-blocked [] (codes "r") []
