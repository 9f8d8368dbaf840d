-- ===== src/LogPipe/Lines.antt =====
-- Which lines the log file has.
use gopher_server_cross_plat.Base.{
  ℕ, zero, suc, ◌+◌, ◌-◌, ◌≤◌, Bool, true, false, List, [], ◌∷◌, ◌++◌, if◌then◌else◌, ◌≡◌, ◌∙◌,
  refl, ap, sym, arith, Bytes, length, beq, Without, take-all, codes, All,
}
use gopher_server_cross_plat.Cstring.{c_string-append}
use gopher_server_cross_plat.LogPipe.{
  Stage, at_token, at_mutex, at_write, at_signal, at_release, finished, Worker, Sys, Step, lock,
  post, wait, resume, read_record, open_fails, unlock, take_token, take_mutex, write_record, signal,
  release_mutex, Reaches, here, next, arriving, start, frame, log_line, among, zeros, Calls,
  post_fails, wake_unsignalled, read_fails, print_fails, both_fail, token_fails, token_ends,
  write_fails, Transfers,
}
use gopher_server_cross_plat.LogPipe.Invariant.{count, at, counts-length}

abbrev same : Bytes → Bytes → ℕ
same a b = if beq a b then 1 else 0

-- How often a line stands in the file, and how many records in the pipe print as it.
pub times : Bytes → List Bytes → ℕ
times line [] = 0
times line (l ∷ ls) = same line l + times line ls

printed_times : Bytes → List Bytes → ℕ
printed_times line [] = 0
printed_times line (r ∷ rs) = same line (log_line r) + printed_times line rs

-- Whether the record has been written.
abbrev pub has_written : Stage → Bool
has_written at_token = false
has_written at_mutex = false
has_written at_write = false
has_written _ = true

-- How many handlers have written a record that prints as the line.
pub sent_times : Bytes → List Worker → ℕ
sent_times line [] = 0
sent_times line (w ∷ ws) =
    (if has_written w.stage then same line (log_line (frame w.message)) else 0) + sent_times line ws

times-append : (line : Bytes) (a b : List Bytes) → times line (a ++ b) ≡ times line a + times line b
unfolding times
times-append line [] b = omega arith
times-append line (l ∷ a) b = omega (arith, times-append line a b)

printed_times-append :
    (line : Bytes) (a b : List Bytes)
    → printed_times line (a ++ b) ≡ printed_times line a + printed_times line b
unfolding printed_times
printed_times-append line [] b = omega arith
printed_times-append line (l ∷ a) b = omega (arith, printed_times-append line a b)

sent_times-among :
    (line : Bytes) (before after : List Worker) (st : Stage) (m : Bytes)
    → sent_times line (among before st m after)
      ≡ sent_times line before
        + (if has_written st then same line (log_line (frame m)) else 0)
        + sent_times line after
unfolding sent_times
sent_times-among line [] after st m = omega arith
sent_times-among line (w ∷ before) after st m =
    omega (arith, sent_times-among line before after st m)

sent_times-arriving : (line : Bytes) (ms : List Bytes) → sent_times line (arriving ms) ≡ 0
unfolding sent_times
sent_times-arriving line [] = refl
sent_times-arriving line (m ∷ ms) = omega (arith, sent_times-arriving line ms)

-- What is in the file and in the pipe is what was in the file and what the handlers have written.
abbrev Logged : Bytes → List Bytes → Sys → Type 0
Logged line old s =
    times line s.file + printed_times line s.pipe ≡ times line old + sent_times line s.workers

module _ (calls : Calls) (x : Transfers calls) (line : Bytes) (old : List Bytes) where
  -- A handler that goes on without a write.
  goes_on :
      (s : Sys) (before after : List Worker) (m : Bytes) (st st' : Stage)
      → Logged line old s
      → s.workers ≡ among before st m after
      → has_written st ≡ has_written st'
      → times line s.file + printed_times line s.pipe
        ≡ times line old + sent_times line (among before st' m after)
  goes_on s before after m st st' i e h =
      i
      ∙ ap (λ n. times line old + n)
          (ap (sent_times line) e
            ∙ sent_times-among line before after st m
            ∙ ap
                (λ b.
                  sent_times line before
                  + (if b then same line (log_line (frame m)) else 0)
                  + sent_times line after)
                h
            ∙ sym (sent_times-among line before after st' m))

  Step-Logged : (s t : Sys) → Logged line old s → Step calls s t → Logged line old t
  unfolding times printed_times
  Step-Logged _ _ i (lock s l h) = i
  Step-Logged _ _ i (post s l) = i
  Step-Logged _ _ i (post_fails s l w) = i
  Step-Logged _ _ i (wait s l) = i
  Step-Logged _ _ i (wake_unsignalled s l w) = i
  Step-Logged _ _ i (resume s l h) = i
  Step-Logged _ _ i (read_record s r rest l o p) =
      omega (arith, i, ap (printed_times line) p, times-append line s.file (log_line r ∷ []))
  Step-Logged _ _ i (read_fails s l o f) = cc
  Step-Logged _ _ i (print_fails s r rest l o p f) = cc
  Step-Logged _ _ i (both_fail s l o f g) = cc
  Step-Logged _ _ i (open_fails s l o) = i
  Step-Logged _ _ i (unlock s l) = i
  Step-Logged _ _ i (take_token s before after m n e k) =
      goes_on s before after m at_token at_mutex i e refl
  Step-Logged _ _ i (token_fails s before after m e f) = cc
  Step-Logged _ _ i (token_ends s before after m e l n) =
      goes_on s before after m at_token at_mutex i e refl
  Step-Logged _ _ i (take_mutex s before after m e h) =
      goes_on s before after m at_mutex at_write i e refl
  Step-Logged _ _ i (write_record s before after m e h) = omega (
    arith,
    i,
    ap (sent_times line) e,
    sent_times-among line before after at_write m,
    sent_times-among line before after at_signal m,
    printed_times-append line s.pipe (frame m ∷ []),
  )
  Step-Logged _ _ i (write_fails s before after m e f) = cc
  Step-Logged _ _ i (signal s before after m e) =
      goes_on s before after m at_signal at_release i e refl
  Step-Logged _ _ i (release_mutex s before after m e) =
      goes_on s before after m at_release finished i e refl

  Reaches-Logged :
      (messages : List Bytes) (s : Sys) → Reaches calls (start old messages) s → Logged line old s
  unfolding printed_times
  Reaches-Logged messages _ here = omega (arith, sent_times-arriving line messages)
  Reaches-Logged messages _ (next t u r step) = Step-Logged t u (Reaches-Logged messages t r) step

-- The records of the handlers.
messages_of : List Worker → List Bytes
messages_of [] = []
messages_of (w ∷ ws) = w.message ∷ messages_of ws

messages_of-among :
    (before after : List Worker) (st : Stage) (m : Bytes)
    → messages_of (among before st m after) ≡ messages_of before ++ m ∷ messages_of after
unfolding messages_of
messages_of-among [] after st m = refl
messages_of-among (w ∷ before) after st m =
    ap (λ ms. w.message ∷ ms) (messages_of-among before after st m)

messages_of-arriving : (ms : List Bytes) → messages_of (arriving ms) ≡ ms
unfolding messages_of
messages_of-arriving [] = refl
messages_of-arriving (m ∷ ms) = ap (λ ms. m ∷ ms) (messages_of-arriving ms)

moved_messages :
    (ws before after : List Worker) (st st' : Stage) (m : Bytes)
    → ws ≡ among before st m after
    → messages_of (among before st' m after) ≡ messages_of ws
moved_messages ws before after st st' m e =
    messages_of-among before after st' m
    ∙ sym (ap messages_of e ∙ messages_of-among before after st m)

Step-messages :
    (calls : Calls) (s t : Sys) → Step calls s t → messages_of t.workers ≡ messages_of s.workers
Step-messages calls _ _ (lock s l h) = refl
Step-messages calls _ _ (post s l) = refl
Step-messages calls _ _ (post_fails s l w) = refl
Step-messages calls _ _ (wait s l) = refl
Step-messages calls _ _ (wake_unsignalled s l w) = refl
Step-messages calls _ _ (resume s l h) = refl
Step-messages calls _ _ (read_record s r rest l o p) = refl
Step-messages calls _ _ (read_fails s l o f) = refl
Step-messages calls _ _ (print_fails s r rest l o p f) = refl
Step-messages calls _ _ (both_fail s l o f g) = refl
Step-messages calls _ _ (open_fails s l o) = refl
Step-messages calls _ _ (unlock s l) = refl
Step-messages calls _ _ (take_token s before after m n e k) =
    moved_messages s.workers before after at_token at_mutex m e
Step-messages calls _ _ (token_fails s before after m e f) =
    moved_messages s.workers before after at_token at_mutex m e
Step-messages calls _ _ (token_ends s before after m e l n) =
    moved_messages s.workers before after at_token at_mutex m e
Step-messages calls _ _ (take_mutex s before after m e h) =
    moved_messages s.workers before after at_mutex at_write m e
Step-messages calls _ _ (write_record s before after m e h) =
    moved_messages s.workers before after at_write at_signal m e
Step-messages calls _ _ (write_fails s before after m e f) =
    moved_messages s.workers before after at_write at_signal m e
Step-messages calls _ _ (signal s before after m e) =
    moved_messages s.workers before after at_signal at_release m e
Step-messages calls _ _ (release_mutex s before after m e) =
    moved_messages s.workers before after at_release finished m e

Reaches-messages :
    (calls : Calls) (old messages : List Bytes) (s : Sys)
    → Reaches calls (start old messages) s
    → messages_of s.workers ≡ messages
Reaches-messages calls old messages _ here = messages_of-arriving messages
Reaches-messages calls old messages _ (next t u r step) =
    Step-messages calls t u step ∙ Reaches-messages calls old messages t r

-- The line meant for a record.
abbrev pub meant_line : Bytes → Bytes
meant_line m = codes "L->  " ++ m ++ b'\n' ∷ []

pub meant : List Bytes → List Bytes
meant [] = []
meant (m ∷ ms) = meant_line m ∷ meant ms

-- A record that fits, with no NUL in it.
abbrev pub Fits : Bytes → Type 0
Fits m = (length m ≤ 4095) × Without 0 m

zeros-pos : (n : ℕ) → 1 ≤ n → zeros n ≡ 0 ∷ zeros (n - 1)
unfolding zeros
zeros-pos zero h = absurd (omega arith)
zeros-pos (suc n) h = ap (λ k. 0 ∷ zeros k) (omega arith)

log_line-frame : (m : Bytes) → Fits m → log_line (frame m) ≡ meant_line m
unfolding log_line frame
log_line-frame m (short, plain) = rw (
  take-all 4095 m short,
  zeros-pos (4096 - length m) (omega (arith, short)),
  c_string-append m (zeros (4096 - length m - 1)) plain,
)

stage-finished :
    (st : Stage) (c n : ℕ) → (at finished st) + c ≡ suc n → c ≤ n → (st ≡ finished) × (c ≡ n)
stage-finished finished c n h k = (refl, omega (arith, h))
stage-finished at_token c n h k = absurd (omega (arith, h, k))
stage-finished at_mutex c n h k = absurd (omega (arith, h, k))
stage-finished at_write c n h k = absurd (omega (arith, h, k))
stage-finished at_signal c n h k = absurd (omega (arith, h, k))
stage-finished at_release c n h k = absurd (omega (arith, h, k))

sent_times-finished :
    (line : Bytes) (ws : List Worker)
    → count finished ws ≡ length ws
    → All Fits (messages_of ws)
    → sent_times line ws ≡ times line (meant (messages_of ws))
unfolding sent_times times meant messages_of count
sent_times-finished line [] h f = refl
sent_times-finished line (w ∷ ws) h f =
    let (ended, rest) =
      stage-finished w.stage (count finished ws) (length ws) h (omega (arith, counts-length ws)) in
    rw (ended, log_line-frame w.message f.0, sent_times-finished line ws rest f.1)

-- When no read, write or dprintf has failed, every handler has ended its call and no record is in the pipe,
-- the log file has, besides the lines that it had, one line for each record of at most 4095 bytes without
-- NUL that a handler was called with, as often as it was called, and no other line. All records are of that
-- kind. The log file may fail to open, and pthread_cond_wait may return without a signal.
pub Reaches-lines :
    (calls : Calls) (old messages : List Bytes) (s : Sys) (line : Bytes)
    → Transfers calls
    → Reaches calls (start old messages) s
    → All Fits messages
    → count finished s.workers ≡ length s.workers
    → s.pipe ≡ []
    → times line s.file ≡ times line old + times line (meant messages)
unfolding printed_times
Reaches-lines calls old messages s line x r f h p =
    let same_messages = Reaches-messages calls old messages s r in
    omega (
      arith,
      Reaches-Logged calls x line old messages s r,
      ap (printed_times line) p,
      sent_times-finished line s.workers h (rw same_messages f),
      ap (λ ms. times line (meant ms)) same_messages,
    )
