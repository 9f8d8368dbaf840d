-- ===== src/LogPipe/Handlers.antt =====
-- linux/lib/pipe/linux_pipe.c: the handlers between the read of their byte and their end, also when writing or
-- printing fails and when pthread_cond_wait returns without a signal.
use gopher_server_cross_plat.Base.{
  ℕ, ◌+◌, ◌≤◌, true, false, List, [], ◌∷◌, ◌≡◌, refl, arith, Bytes, length, length-append, subst,
}
use gopher_server_cross_plat.LogPipe.{
  Logger, at_wait, asleep, woken, at_read, exited, at_token, at_mutex, at_write, at_signal,
  at_release, finished, Sys, Step, lock, post, wait, resume, read_record, open_fails, unlock,
  take_token, take_mutex, write_record, signal, release_mutex, Reaches, here, next, start, frame,
  among, Calls, post_fails, wake_unsignalled, read_fails, print_fails, both_fail, token_fails,
  token_ends, write_fails,
}
use gopher_server_cross_plat.LogPipe.Invariant.{count, bit, owns, among-Counts, count-arriving}

-- The log file can be opened and no read fails.
abbrev pub Reads : Calls → Type 0
Reads calls = (calls.opens ≡ true) × (calls.read_may_fail ≡ false)

-- For each place of the log process: the bytes, the handlers at each stage between and the records.
abbrev Phase : Logger → ℕ → ℕ → ℕ → ℕ → ℕ → ℕ → Type 0
Phase at_wait t a w s r p = (t + a ≤ 1) × (w ≡ 0) × (s ≡ 0) × (r ≡ 0) × (p ≡ 0)
Phase asleep t a w s r p = (t + a + w + s ≤ 1) × (r ≡ 0) × (p ≤ s)
Phase woken t a w s r p = (t + a + w + s + r ≤ 1) × (t + a + w + p ≤ 1)
Phase at_read t a w s r p = (t + a + p ≤ 1) × (w ≡ 0) × (s ≡ 0) × (r ≡ 0)
Phase exited t a w s r p = ⊥
Phase _ t a w s r p = (t ≡ 0) × (a ≡ 0) × (w ≡ 0) × (s ≡ 0) × (r ≡ 0) × (p ≡ 0)

record Inv (s : Sys) : Type 0 where
  mutex :
      bit s.held
      ≡ owns s.logger
        + count at_write s.workers
        + count at_signal s.workers
        + count at_release s.workers
  phase :
      Phase s.logger s.tokens
        (count at_mutex s.workers)
        (count at_write s.workers)
        (count at_signal s.workers)
        (count at_release s.workers)
        (length s.pipe)

start-Inv : (file messages : List Bytes) → Inv (start file messages)
start-Inv file messages = omega (
  arith,
  count-arriving at_mutex messages refl,
  count-arriving at_write messages refl,
  count-arriving at_signal messages refl,
  count-arriving at_release messages refl,
)

module _ (calls : Calls) (x : Reads calls) where
  Step-Inv : (s t : Sys) → Inv s → Step calls s t → Inv t
  Step-Inv _ _ i (lock s l h) = ground (arith, i.mutex, i.phase)
  Step-Inv _ _ i (post s l) = ground (arith, i.mutex, i.phase)
  Step-Inv _ _ i (post_fails s l w) = ground (arith, i.mutex, i.phase)
  Step-Inv _ _ i (wait s l) = ground (arith, i.mutex, i.phase)
  Step-Inv _ _ i (wake_unsignalled s l w) = ground (arith, i.mutex, i.phase)
  Step-Inv _ _ i (resume s l h) = ground (arith, i.mutex, i.phase)
  Step-Inv _ _ i (read_record s r rest l o p) = ground (arith, i.mutex, i.phase)
  Step-Inv _ _ i (read_fails s l o f) = cc
  Step-Inv _ _ i (print_fails s r rest l o p f) = ground (arith, i.mutex, i.phase)
  Step-Inv _ _ i (both_fail s l o f g) = cc
  Step-Inv _ _ i (open_fails s l o) = cc
  Step-Inv _ _ i (unlock s l) = ground (arith, i.mutex, i.phase)
  Step-Inv _ _ i (take_token s before after m n e k) =
      let old = among-Counts s.workers before after m at_token e in
      let new = among-Counts (among before at_mutex m after) before after m at_mutex refl in
      ground (
        arith, k, i.mutex, i.phase, old.mutexes, old.writes, old.signals, old.releases, new.mutexes,
        new.writes, new.signals, new.releases,
      )
  Step-Inv _ _ i (token_fails s before after m e f) = cc
  Step-Inv _ _ i (token_ends s before after m e l n) = absurd (
      subst
        (λ k.
          Phase k s.tokens (count at_mutex s.workers) (count at_write s.workers)
            (count at_signal s.workers) (count at_release s.workers) (length s.pipe))
        l i.phase)
  Step-Inv _ _ i (take_mutex s before after m e h) =
      let old = among-Counts s.workers before after m at_mutex e in
      let new = among-Counts (among before at_write m after) before after m at_write refl in
      ground (
        arith, h, i.mutex, i.phase, old.mutexes, old.writes, old.signals, old.releases, new.mutexes,
        new.writes, new.signals, new.releases,
      )
  Step-Inv _ _ i (write_record s before after m e h) =
      let old = among-Counts s.workers before after m at_write e in
      let new = among-Counts (among before at_signal m after) before after m at_signal refl in
      ground (
        arith,
        length-append s.pipe (frame m ∷ []),
        i.mutex,
        i.phase,
        old.mutexes,
        old.writes,
        old.signals,
        old.releases,
        new.mutexes,
        new.writes,
        new.signals,
        new.releases,
      )
  Step-Inv _ _ i (write_fails s before after m e f) =
      let old = among-Counts s.workers before after m at_write e in
      let new = among-Counts (among before at_signal m after) before after m at_signal refl in
      ground (
        arith, i.mutex, i.phase, old.mutexes, old.writes, old.signals, old.releases, new.mutexes,
        new.writes, new.signals, new.releases,
      )
  Step-Inv _ _ i (signal s before after m e) =
      let old = among-Counts s.workers before after m at_signal e in
      let new = among-Counts (among before at_release m after) before after m at_release refl in
      ground (
        arith, i.mutex, i.phase, old.mutexes, old.writes, old.signals, old.releases, new.mutexes,
        new.writes, new.signals, new.releases,
      )
  Step-Inv _ _ i (release_mutex s before after m e) =
      let old = among-Counts s.workers before after m at_release e in
      let new = among-Counts (among before finished m after) before after m finished refl in
      ground (
        arith, i.mutex, i.phase, old.mutexes, old.writes, old.signals, old.releases, new.mutexes,
        new.writes, new.signals, new.releases,
      )

  -- What holds from the start on.
  Reaches-Inv :
      (file messages : List Bytes) (s : Sys) → Reaches calls (start file messages) s → Inv s
  Reaches-Inv file messages _ here = start-Inv file messages
  Reaches-Inv file messages _ (next t u r step) = Step-Inv t u (Reaches-Inv file messages t r) step

-- While the log file can be opened and no read fails, also when a write or dprintf fails and when
-- pthread_cond_wait returns without a signal: in every state that the log process and any number of handlers
-- reach, at most one handler is past its byte and not yet at its end, so that at most one has the mutex.
pub Reaches-one_handler :
    (calls : Calls) (file messages : List Bytes) (s : Sys)
    → Reads calls
    → Reaches calls (start file messages) s
    → count at_mutex s.workers
        + count at_write s.workers
        + count at_signal s.workers
        + count at_release s.workers
      ≤ 1
Reaches-one_handler calls file messages s x r =
    let i = Reaches-Inv calls x file messages s r in ground (arith, i.mutex, i.phase)
