-- ===== src/LogPipe/Stuck.antt =====
-- linux/lib/pipe/linux_pipe.c, line 514: pthread_cond_wait without a loop around it, when it returns without
-- a signal.
use gopher_server_cross_plat.Base.{
  true, false, List, [], ◌∷◌, ◌==◌, ◌≡◌, refl, ap, sym, arith, Bytes, ◌∙◌,
}
use gopher_server_cross_plat.LogPipe.{
  at_read, Stage, at_mutex, at_write, at_signal, at_release, finished, Worker, Sys, Calls, Step,
  lock, post, post_fails, wait, wake_unsignalled, resume, read_record, read_fails, print_fails,
  both_fail, open_fails, unlock, take_token, token_fails, token_ends, take_mutex, write_record,
  write_fails, signal, release_mutex, Reaches, here, next, start, arriving, among,
}
use gopher_server_cross_plat.LogPipe.Invariant.{count, at, count-among, count-arriving, rank}

-- No call fails, but pthread_cond_wait may return without a signal.
abbrev pub unsignalled : Calls
unsignalled = record {
  opens = true;
  read_may_fail = false;
  write_may_fail = false;
  print_may_fail = false;
  may_wake_unsignalled = true;
}

-- The log process reads the empty pipe with the mutex, and one handler has its byte.
abbrev pub blocked : List Bytes → Bytes → List Bytes → Sys
blocked file m ms = record {
  logger = at_read;
  workers = among [] at_mutex m (arriving ms);
  held = true;
  tokens = 0;
  pipe = [];
  file = file;
}

module _ (file : List Bytes) (m : Bytes) (ms : List Bytes) where
  pub blocked-Reaches : Reaches unsignalled (start file (m ∷ ms)) (blocked file m ms)
  blocked-Reaches =
      let init = start file (m ∷ ms) in
      let posted = next _ _ (next _ _ here (lock init refl refl)) (post _ refl) in
      let signalled = next _ _ (next _ _ posted (wait _ refl)) (wake_unsignalled _ refl refl) in
      next _ _ (next _ _ signalled (resume _ refl refl))
        (take_token _ [] (arriving ms) m 0 refl refl)

  -- A handler of the state is at the read of its byte or before the mutex.
  count-blocked :
      (st : Stage)
      → (rank st == 0) ≡ false
      → (rank st == 1) ≡ false
      → count st (blocked file m ms).workers ≡ 0
  unfolding count
  count-blocked st zeroth first = ground (arith, count-arriving st ms zeroth)

  none_behind :
      (s : Sys) (st : Stage) (before after : List Worker) (m' : Bytes)
      → s ≡ blocked file m ms
      → (rank st == 0) ≡ false
      → (rank st == 1) ≡ false
      → at st st ≡ 1
      → s.workers ≡ among before st m' after
      → ⊥
  none_behind s st before after m' b zeroth first same e = omega (
    arith,
    ap (count st) (sym (ap (λ u. u.workers) b) ∙ e),
    count-among st st m' before after,
    count-blocked st zeroth first,
    same,
  )

  blocked-ends : (s t : Sys) → s ≡ blocked file m ms → ¬ Step unsignalled s t
  blocked-ends _ _ b (lock s l h) = cc
  blocked-ends _ _ b (post s l) = cc
  blocked-ends _ _ b (post_fails s l w) = cc
  blocked-ends _ _ b (wait s l) = cc
  blocked-ends _ _ b (wake_unsignalled s l w) = cc
  blocked-ends _ _ b (resume s l h) = cc
  blocked-ends _ _ b (read_record s r rest l o p) = cc
  blocked-ends _ _ b (read_fails s l o f) = cc
  blocked-ends _ _ b (print_fails s r rest l o p f) = cc
  blocked-ends _ _ b (both_fail s l o f g) = cc
  blocked-ends _ _ b (open_fails s l o) = cc
  blocked-ends _ _ b (unlock s l) = cc
  blocked-ends _ _ b (take_token s before after m' n e k) = cc
  blocked-ends _ _ b (token_fails s before after m' e f) = cc
  blocked-ends _ _ b (token_ends s before after m' e l n) = cc
  blocked-ends _ _ b (take_mutex s before after m' e h) = cc
  blocked-ends _ _ b (write_record s before after m' e h) =
      none_behind s at_write before after m' b refl refl refl e
  blocked-ends _ _ b (write_fails s before after m' e f) = cc
  blocked-ends _ _ b (signal s before after m' e) =
      none_behind s at_signal before after m' b refl refl refl e
  blocked-ends _ _ b (release_mutex s before after m' e) =
      none_behind s at_release before after m' b refl refl refl e

  none_finished : count finished (blocked file m ms).workers ≡ 0
  none_finished = count-blocked finished refl refl

-- When pthread_cond_wait returns once without a signal, the log process and the handlers can block each
-- other for ever, although no call fails: with at least one handler they reach a state in which no handler
-- has ended its call and in which none of them can take a step, not even after another such return.
pub Reaches-blocked :
    (file : List Bytes) (m : Bytes) (ms : List Bytes)
    → (s : Sys) × Reaches unsignalled (start file (m ∷ ms)) s
      × (count finished s.workers ≡ 0)
      × ((t : Sys) → ¬ Step unsignalled s t)
Reaches-blocked file m ms = (
  blocked file m ms,
  blocked-Reaches file m ms,
  none_finished file m ms,
  (λ t. blocked-ends file m ms (blocked file m ms) t refl),
)
