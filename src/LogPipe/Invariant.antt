-- ===== src/LogPipe/Invariant.antt =====
-- linux/lib/pipe/linux_pipe.c: how many handlers are at each place of their call, by where the log
-- process is.
use gopher_server_cross_plat.Base.{
  ℕ, ◌+◌, ◌≤◌, Bool, true, false, List, [], ◌∷◌, ◌==◌, if◌then◌else◌, ◌≡◌, refl, arith, Bytes,
  length, length-append, subst,
}
use gopher_server_cross_plat.LogPipe.{
  Logger, at_lock, at_wait, asleep, woken, at_read, exited, Stage, at_token, at_mutex, at_write,
  at_signal, at_release, finished, Worker, Sys, Step, lock, post, wait, resume, read_record,
  open_fails, unlock, take_token, take_mutex, write_record, signal, release_mutex, Reaches, here,
  next, arriving, start, frame, wake, among, Calls, post_fails, wake_unsignalled, read_fails,
  print_fails, both_fail, token_fails, token_ends, write_fails, Exchanges,
}

-- How many handlers are at a stage.
abbrev pub rank : Stage → ℕ
rank at_token = 0
rank at_mutex = 1
rank at_write = 2
rank at_signal = 3
rank at_release = 4
rank finished = 5

abbrev pub at : Stage → Stage → ℕ
at st st' = if rank st == rank st' then 1 else 0

unfoldable pub count : Stage → List Worker → ℕ
count st [] = 0
count st (w ∷ ws) = at st w.stage + count st ws

pub count-among :
    (st st' : Stage) (m : Bytes) (before after : List Worker)
    → count st (among before st' m after) ≡ count st before + at st st' + count st after
unfolding count
count-among st st' m [] after = omega arith
count-among st st' m (w ∷ before) after = omega (arith, count-among st st' m before after)

pub counts-length :
    (ws : List Worker)
    → count at_token ws
        + count at_mutex ws
        + count at_write ws
        + count at_signal ws
        + count at_release ws
        + count finished ws
      ≡ length ws
unfolding count
counts-length [] = refl
counts-length (w ∷ ws) = ground (arith, counts-length ws)

-- The handlers past their byte, those holding the mutex, and the mutex itself.
abbrev pub bit : Bool → ℕ
bit true = 1
bit false = 0

-- Whether the log process holds the mutex.
abbrev pub owns : Logger → ℕ
owns at_lock = 0
owns asleep = 0
owns woken = 0
owns _ = 1

-- For each place of the log process: the bytes, the handlers at each stage between and the records.
abbrev pub Phase : Logger → ℕ → ℕ → ℕ → ℕ → ℕ → ℕ → Type 0
Phase at_wait t a w s r p = (t + a ≡ 1) × (w ≡ 0) × (s ≡ 0) × (r ≡ 0) × (p ≡ 0)
Phase asleep t a w s r p = (t + a + w + s ≡ 1) × (r ≡ 0) × (p ≡ s)
Phase woken t a w s r p = (t ≡ 0) × (a ≡ 0) × (w ≡ 0) × (s ≡ 0) × (r ≤ 1) × (p ≡ 1)
Phase at_read t a w s r p = (t ≡ 0) × (a ≡ 0) × (w ≡ 0) × (s ≡ 0) × (r ≡ 0) × (p ≡ 1)
Phase exited t a w s r p = ⊥
Phase _ t a w s r p = (t ≡ 0) × (a ≡ 0) × (w ≡ 0) × (s ≡ 0) × (r ≡ 0) × (p ≡ 0)

pub record Inv (s : Sys) : Type 0 where
  pub mutex :
      bit s.held
      ≡ owns s.logger
        + count at_write s.workers
        + count at_signal s.workers
        + count at_release s.workers
  pub phase :
      Phase s.logger s.tokens
        (count at_mutex s.workers)
        (count at_write s.workers)
        (count at_signal s.workers)
        (count at_release s.workers)
        (length s.pipe)

pub count-arriving :
    (st : Stage) (ms : List Bytes) → (rank st == 0) ≡ false → count st (arriving ms) ≡ 0
unfolding count
count-arriving st [] h = refl
count-arriving st (m ∷ ms) h = ground (arith, count-arriving st ms h)

start-Inv : (file messages : List Bytes) → Inv (start file messages)
start-Inv file messages = omega (
  arith,
  count-arriving at_mutex messages refl,
  count-arriving at_write messages refl,
  count-arriving at_signal messages refl,
  count-arriving at_release messages refl,
)

-- The counts of the stages between, before and after a handler goes from one stage to the next.
pub record Counts (ws : List Worker) (st : Stage) (n : Stage → ℕ) : Type 0 where
  pub mutexes : count at_mutex ws ≡ n at_mutex + at at_mutex st
  pub writes : count at_write ws ≡ n at_write + at at_write st
  pub signals : count at_signal ws ≡ n at_signal + at at_signal st
  pub releases : count at_release ws ≡ n at_release + at at_release st

unfoldable pub others : List Worker → List Worker → Stage → ℕ
others before after x = count x before + count x after

pub among-Counts :
    (ws before after : List Worker) (m : Bytes) (st : Stage)
    → ws ≡ among before st m after
    → Counts ws st (others before after)
unfolding others
among-Counts ws before after m st e = rw e (
    omega (
      arith,
      count-among at_mutex st m before after,
      count-among at_write st m before after,
      count-among at_signal st m before after,
      count-among at_release st m before after,
    ))

module _ (calls : Calls) (x : Exchanges calls) where
  pub Step-Inv : (s t : Sys) → Inv s → Step calls s t → Inv t
  Step-Inv _ _ i (lock s l h) = ground (arith, i.mutex, i.phase)
  Step-Inv _ _ i (post s l) = ground (arith, i.mutex, i.phase)
  Step-Inv _ _ i (post_fails s l w) = cc
  Step-Inv _ _ i (wait s l) = ground (arith, i.mutex, i.phase)
  Step-Inv _ _ i (wake_unsignalled s l w) = cc
  Step-Inv _ _ i (resume s l h) = ground (arith, i.mutex, i.phase)
  Step-Inv _ _ i (read_record s r rest l o p) = ground (arith, i.mutex, i.phase)
  Step-Inv _ _ i (read_fails s l o f) = cc
  Step-Inv _ _ i (print_fails s r rest l o p f) = ground (arith, i.mutex, i.phase)
  Step-Inv _ _ i (both_fail s l o f g) = cc
  Step-Inv _ _ i (open_fails s l o) = cc
  Step-Inv _ _ i (unlock s l) = ground (arith, i.mutex, i.phase)
  Step-Inv _ _ i (take_token s before after m n e k) =
      let old = among-Counts s.workers before after m at_token e in
      let new = among-Counts (among before at_mutex m after) before after m at_mutex refl in
      ground (
        arith, k, i.mutex, i.phase, old.mutexes, old.writes, old.signals, old.releases, new.mutexes,
        new.writes, new.signals, new.releases,
      )
  Step-Inv _ _ i (token_fails s before after m e f) = cc
  Step-Inv _ _ i (token_ends s before after m e l n) = absurd (
      subst
        (λ k.
          Phase k s.tokens (count at_mutex s.workers) (count at_write s.workers)
            (count at_signal s.workers) (count at_release s.workers) (length s.pipe))
        l i.phase)
  Step-Inv _ _ i (take_mutex s before after m e h) =
      let old = among-Counts s.workers before after m at_mutex e in
      let new = among-Counts (among before at_write m after) before after m at_write refl in
      ground (
        arith, h, i.mutex, i.phase, old.mutexes, old.writes, old.signals, old.releases, new.mutexes,
        new.writes, new.signals, new.releases,
      )
  Step-Inv _ _ i (write_record s before after m e h) =
      let old = among-Counts s.workers before after m at_write e in
      let new = among-Counts (among before at_signal m after) before after m at_signal refl in
      ground (
        arith,
        length-append s.pipe (frame m ∷ []),
        i.mutex,
        i.phase,
        old.mutexes,
        old.writes,
        old.signals,
        old.releases,
        new.mutexes,
        new.writes,
        new.signals,
        new.releases,
      )
  Step-Inv _ _ i (write_fails s before after m e f) = cc
  Step-Inv _ _ i (signal s before after m e) =
      let old = among-Counts s.workers before after m at_signal e in
      let new = among-Counts (among before at_release m after) before after m at_release refl in
      ground (
        arith, i.mutex, i.phase, old.mutexes, old.writes, old.signals, old.releases, new.mutexes,
        new.writes, new.signals, new.releases,
      )
  Step-Inv _ _ i (release_mutex s before after m e) =
      let old = among-Counts s.workers before after m at_release e in
      let new = among-Counts (among before finished m after) before after m finished refl in
      ground (
        arith, i.mutex, i.phase, old.mutexes, old.writes, old.signals, old.releases, new.mutexes,
        new.writes, new.signals, new.releases,
      )

  -- What holds from the start on.
  pub Reaches-Inv :
      (file messages : List Bytes) (s : Sys) → Reaches calls (start file messages) s → Inv s
  Reaches-Inv file messages _ here = start-Inv file messages
  Reaches-Inv file messages _ (next t u r step) = Step-Inv t u (Reaches-Inv file messages t r) step

-- While, too, the log file can be opened, no read and no write fails and nobody is woken without a signal: in
-- every state that they reach, a handler that is about to signal finds the log process asleep: no
-- signal is lost.
pub Reaches-signal_wakes :
    (calls : Calls) (file messages : List Bytes) (s : Sys)
    → Exchanges calls
    → Reaches calls (start file messages) s
    → 1 ≤ count at_signal s.workers
    → wake s.logger ≡ woken
Reaches-signal_wakes calls file messages s x r h =
    let i = Reaches-Inv calls x file messages s r in ground (arith, i.mutex, i.phase)

-- Under the same conditions, the log process finds exactly one record in the pipe when it is
-- about to read, and the pipe is empty when a handler is about to write: neither call blocks.
pub Reaches-pipe :
    (calls : Calls) (file messages : List Bytes) (s : Sys)
    → Exchanges calls
    → Reaches calls (start file messages) s
    → (s.logger ≡ at_read → length s.pipe ≡ 1) × (1 ≤ count at_write s.workers → length s.pipe ≡ 0)
Reaches-pipe calls file messages s x r =
    let i = Reaches-Inv calls x file messages s r in
    ((λ e. ground (arith, i.mutex, i.phase)), (λ e. ground (arith, i.mutex, i.phase)))
