-- ===== src/LogPipe/Refines.antt =====
-- What the log promises, without pipes and locks: each record that is waiting is appended once, in
-- some order. The steps of the log process and the handlers against that.
use gopher_server_cross_plat.Base.{
  List, [], ◌∷◌, ◌++◌, ◌≡◌, ◌⊎◌, inl, inr, refl, ap, sym, subst, Bool-cases, ◌∙◌, append_assoc,
  append-nil, Bytes, if◌then◌else◌,
}
use gopher_server_cross_plat.LogPipe.{
  Stage, at_token, at_mutex, at_write, at_signal, at_release, finished, Worker, Sys, Step, lock,
  post, wait, resume, read_record, open_fails, unlock, take_token, take_mutex, write_record, signal,
  release_mutex, Reaches, here, next, arriving, start, frame, log_line, among, Calls, post_fails,
  wake_unsignalled, read_fails, print_fails, both_fail, token_fails, token_ends, write_fails,
  Transfers,
}
use gopher_server_cross_plat.LogPipe.Lines.{has_written}

-- The lines of the log and the records that are not in it yet.
pub record Journal : Type 0 where
  pub lines : List Bytes
  pub pending : List Bytes

-- One of the pending records is appended.
pub data Append : Journal → Journal → Type 0 where
  append :
      (j : Journal) (before after : List Bytes) (m : Bytes)
      → j.pending ≡ before ++ m ∷ after
      → Append j (record { lines = j.lines ++ log_line (frame m) ∷ []; pending = before ++ after })

pub data Appends (j : Journal) : Journal → Type 0 where
  none_yet : Appends j j
  one_more : (k l : Journal) → Appends j k → Append k l → Appends j l

unfoldable pub unwritten : List Worker → List Bytes
unwritten [] = []
unwritten (w ∷ ws) =
    let rest = unwritten ws in if has_written w.stage then rest else w.message ∷ rest

unfoldable pub printed : List Bytes → List Bytes
printed [] = []
printed (r ∷ rs) = log_line r ∷ printed rs

-- A record in the pipe counts as a line.
abbrev pub journal_of : Sys → Journal
journal_of s = record { lines = s.file ++ printed s.pipe; pending = unwritten s.workers }

unwritten-among :
    (before after : List Worker) (st : Stage) (m : Bytes)
    → unwritten (among before st m after)
      ≡ unwritten before ++ (if has_written st then unwritten after else m ∷ unwritten after)
unfolding unwritten
unwritten-among [] after st m = refl
unwritten-among (w ∷ before) after st m = elim (Bool-cases (has_written w.stage)) [
  | inl yes_written ↦ rw (yes_written, unwritten-among before after st m)
  | inr not_written ↦ rw (not_written, unwritten-among before after st m)
]

printed-append : (a b : List Bytes) → printed (a ++ b) ≡ printed a ++ printed b
unfolding printed
printed-append [] b = refl
printed-append (r ∷ a) b = ap (λ l. log_line r ∷ l) (printed-append a b)

-- A step changes nothing that the journal shows, or appends one record.
abbrev Refined : Sys → Sys → Type 0
Refined s t = (journal_of t ≡ journal_of s) ⊎ Append (journal_of s) (journal_of t)

same_lines :
    (s : Sys) (ws : List Worker)
    → unwritten ws ≡ unwritten s.workers
    → journal_of (record s { workers = ws }) ≡ journal_of s
same_lines s ws e = ap (λ p. record { lines = s.file ++ printed s.pipe; pending = p }) e

moved :
    (ws before after : List Worker) (st st' : Stage) (m : Bytes)
    → ws ≡ among before st m after
    → has_written st ≡ has_written st'
    → unwritten (among before st' m after) ≡ unwritten ws
moved ws before after st st' m e h =
    unwritten-among before after st' m
    ∙ ap (λ b. unwritten before ++ (if b then unwritten after else m ∷ unwritten after)) (sym h)
    ∙ sym (ap unwritten e ∙ unwritten-among before after st m)

journal-ext :
    {a b : List Bytes} (p : List Bytes)
    → a ≡ b
    → Path Journal (record { lines = a; pending = p }) (record { lines = b; pending = p })
journal-ext p e = ap (λ l. record { lines = l; pending = p }) e

read-lines :
    (s : Sys) (r : Bytes) (rest : List Bytes)
    → s.pipe ≡ r ∷ rest
    → (s.file ++ log_line r ∷ []) ++ printed rest ≡ s.file ++ printed s.pipe
unfolding printed
read-lines s r rest p =
    append_assoc s.file (log_line r ∷ []) (printed rest) ∙ sym (ap (λ q. s.file ++ printed q) p)

write-Append :
    (s : Sys) (before after : List Worker) (m : Bytes)
    → s.workers ≡ among before at_write m after
    → Append (journal_of s) (
        journal_of
          (record s { workers = among before at_signal m after; pipe = s.pipe ++ frame m ∷ [] }))
unfolding printed
write-Append s before after m e =
    subst (Append (journal_of s))
      (ap (λ l. record { lines = l; pending = unwritten before ++ unwritten after }) lines_same
        ∙ ap (λ p. record { lines = s.file ++ printed (s.pipe ++ frame m ∷ []); pending = p })
            (sym (unwritten-among before after at_signal m)))
      (append (journal_of s) (unwritten before) (unwritten after) m
        (ap unwritten e ∙ unwritten-among before after at_write m))
  where
    lines_same :
        (s.file ++ printed s.pipe) ++ log_line (frame m) ∷ []
        ≡ s.file ++ printed (s.pipe ++ frame m ∷ [])
    lines_same =
        append_assoc s.file (printed s.pipe) (log_line (frame m) ∷ [])
        ∙ ap (λ q. s.file ++ q) (sym (printed-append s.pipe (frame m ∷ [])))

Step-Refined : (calls : Calls) (x : Transfers calls) (s t : Sys) → Step calls s t → Refined s t
Step-Refined calls x _ _ (lock s l h) = inl refl
Step-Refined calls x _ _ (post s l) = inl refl
Step-Refined calls x _ _ (post_fails s l w) = inl refl
Step-Refined calls x _ _ (wait s l) = inl refl
Step-Refined calls x _ _ (wake_unsignalled s l w) = inl refl
Step-Refined calls x _ _ (resume s l h) = inl refl
Step-Refined calls x _ _ (read_record s r rest l o p) =
    inl (journal-ext (unwritten s.workers) (read-lines s r rest p))
Step-Refined calls x _ _ (read_fails s l o f) = cc
Step-Refined calls x _ _ (print_fails s r rest l o p f) = cc
Step-Refined calls x _ _ (both_fail s l o f g) = cc
Step-Refined calls x _ _ (open_fails s l o) = inl refl
Step-Refined calls x _ _ (unlock s l) = inl refl
Step-Refined calls x _ _ (take_token s before after m n e k) =
    inl (same_lines s _ (moved s.workers before after at_token at_mutex m e refl))
Step-Refined calls x _ _ (token_fails s before after m e f) = cc
Step-Refined calls x _ _ (token_ends s before after m e l n) =
    inl (same_lines s _ (moved s.workers before after at_token at_mutex m e refl))
Step-Refined calls x _ _ (take_mutex s before after m e h) =
    inl (same_lines s _ (moved s.workers before after at_mutex at_write m e refl))
Step-Refined calls x _ _ (write_record s before after m e h) = inr (write-Append s before after m e)
Step-Refined calls x _ _ (write_fails s before after m e f) = cc
Step-Refined calls x _ _ (signal s before after m e) =
    inl (same_lines s _ (moved s.workers before after at_signal at_release m e refl))
Step-Refined calls x _ _ (release_mutex s before after m e) =
    inl (same_lines s _ (moved s.workers before after at_release finished m e refl))

unwritten-arriving : (ms : List Bytes) → unwritten (arriving ms) ≡ ms
unfolding unwritten
unwritten-arriving [] = refl
unwritten-arriving (m ∷ ms) = ap (λ r. m ∷ r) (unwritten-arriving ms)

Appends-Refined :
    (j : Journal) (s t : Sys) → Appends j (journal_of s) → Refined s t → Appends j (journal_of t)
Appends-Refined j s t a (inl e) = subst (Appends j) (sym e) a
Appends-Refined j s t a (inr step) = one_more (journal_of s) (journal_of t) a step

start-journal :
    (file messages : List Bytes)
    → journal_of (start file messages) ≡ record { lines = file; pending = messages }
unfolding printed
start-journal file messages =
    ap (λ l. record { lines = l; pending = unwritten (arriving messages) }) (append-nil file)
    ∙ ap (λ p. record { lines = file; pending = p }) (unwritten-arriving messages)

-- As long as no read, write or dprintf fails, whatever else the log process and the handlers do: the log file
-- with what is in the pipe is what an ideal log comes to, a log that starts with the file's lines and the
-- handlers' records pending, and that in each step takes one pending record and appends its line. The log
-- file may fail to open, and pthread_cond_wait may return without a signal.
pub Reaches-Appends :
    (calls : Calls) (file messages : List Bytes) (s : Sys)
    → Transfers calls
    → Reaches calls (start file messages) s
    → Appends (record { lines = file; pending = messages }) (journal_of s)
Reaches-Appends calls file messages _ x here =
    subst (Appends (record { lines = file; pending = messages }))
      (sym (start-journal file messages)) none_yet
Reaches-Appends calls file messages _ x (next t u r step) =
    Appends-Refined _ t u (Reaches-Appends calls file messages t x r)
      (Step-Refined calls x t u step)
