-- ===== src/LogPipe/Forked/Ends.antt =====
-- How the exchange of one record with a forked process ends.
use gopher_server_cross_plat.Base.{
  ℕ, ◌+◌, ◌≤◌, Bool, true, false, List, Option, none, some, ◌≡◌, ◌⊎◌, inl, inr, refl, arith, Bytes,
  pos, negsuc, zero, suc, ap, Bool-cases,
}
use gopher_server_cross_plat.LogPipe.Forked.{
  Reader, at_close, at_open, at_read, at_close_read, at_print, ended, Writer, at_close_in, at_write,
  at_close_out, returned, killed, Fork, fork, can_read, printed_to, Step, close_write, open_log,
  open_fails, read_record, read_end, print_line, end_reader, close_in, write_record, broken_pipe,
  close_out, Reaches, here, next, start,
}

-- The steps that are left at most.
abbrev reader_left : Reader → ℕ
reader_left at_close = 5
reader_left at_open = 4
reader_left at_read = 3
reader_left (at_print m) = 2
reader_left at_close_read = 1
reader_left (ended c) = 0

abbrev writer_left : Writer → ℕ
writer_left at_close_in = 3
writer_left at_write = 2
writer_left at_close_out = 1
writer_left returned = 0
writer_left killed = 0

abbrev left : Fork → ℕ
left s = reader_left s.reader + writer_left s.writer

-- The server and the pipe, before the record is read, and after it.
abbrev Pending : Bytes → Writer → Option Bytes → Type 0
Pending m at_close_in none = Unit
Pending m at_write none = Unit
Pending m at_close_out (some x) = x ≡ m
Pending m returned (some x) = x ≡ m
Pending m _ _ = ⊥

abbrev Taken : Writer → Option Bytes → Type 0
Taken at_close_out none = Unit
Taken returned none = Unit
Taken _ _ = ⊥

-- The same, when the record is never read.
abbrev Lost : Bytes → Writer → Option Bytes → Type 0
Lost m killed none = Unit
Lost m at_close_in none = Unit
Lost m at_write none = Unit
Lost m at_close_out (some x) = x ≡ m
Lost m returned (some x) = x ≡ m
Lost m _ _ = ⊥

module _ (opens prints : Bool) (array message : Bytes) (file : List Bytes) where
  abbrev GoodAt : Reader → Writer → Option Bytes → List Bytes → Type 0
  GoodAt at_close w q f = Pending message w q × (f ≡ file)
  GoodAt at_open w q f = Pending message w q × (f ≡ file)
  GoodAt at_read w q f = Pending message w q × (f ≡ file) × (opens ≡ true)
  GoodAt (at_print m) w q f = Taken w q × (m ≡ message) × (f ≡ file) × (opens ≡ true)
  GoodAt at_close_read w q f = Taken w q × (f ≡ printed_to prints message file) × (opens ≡ true)
  GoodAt (ended (pos zero)) w q f =
      Taken w q × (f ≡ printed_to prints message file) × (opens ≡ true)
  GoodAt (ended (negsuc zero)) w q f = Lost message w q × (f ≡ file) × (opens ≡ false)
  GoodAt (ended _) w q f = ⊥

  abbrev Good : Fork → Type 0
  Good s = GoodAt s.reader s.writer s.pipe s.file

  Pending-Lost : (w : Writer) (q : Option Bytes) → Pending message w q → Lost message w q
  Pending-Lost w q h = ground arith

  close_in-Good :
      (r : Reader) (q : Option Bytes) (f : List Bytes)
      → GoodAt r at_close_in q f
      → GoodAt r at_write q f
  close_in-Good r q f h = ground arith

  write_record-Good :
      (r : Reader) (f : List Bytes)
      → can_read r ≡ true
      → GoodAt r at_write none f
      → GoodAt r at_close_out (some message) f
  write_record-Good r f e h = ground arith

  broken_pipe-Good :
      (r : Reader) (q : Option Bytes) (f : List Bytes)
      → can_read r ≡ false
      → GoodAt r at_write q f
      → GoodAt r killed q f
  broken_pipe-Good r q f e h = ground arith

  close_out-Good :
      (r : Reader) (q : Option Bytes) (f : List Bytes)
      → GoodAt r at_close_out q f
      → GoodAt r returned q f
  close_out-Good r q f h = ground arith

  Step-Good : (s t : Fork) → Step opens prints array message s t → Good s → Good t
  Step-Good _ _ (close_write w q f) h = h
  Step-Good _ _ (open_log w q f e) h = (h.0, h.1, e)
  Step-Good _ _ (open_fails w q f e) h = (Pending-Lost w q h.0, h.1, e)
  Step-Good _ _ (read_record w m f) h = ground arith
  Step-Good _ _ (read_end w f e) h = ground arith
  Step-Good _ _ (print_line w q m f) h = ground arith
  Step-Good _ _ (end_reader w q f) h = h
  Step-Good _ _ (close_in r q f) h = close_in-Good r q f h
  Step-Good _ _ (write_record r f e) h = write_record-Good r f e h
  Step-Good _ _ (broken_pipe r q f e) h = broken_pipe-Good r q f e h
  Step-Good _ _ (close_out r q f) h = close_out-Good r q f h

  Step-left : (s t : Fork) → Step opens prints array message s t → suc (left t) ≤ left s
  Step-left _ _ (close_write w q f) = omega arith
  Step-left _ _ (open_log w q f e) = omega arith
  Step-left _ _ (open_fails w q f e) = omega arith
  Step-left _ _ (read_record w m f) = omega arith
  Step-left _ _ (read_end w f e) = omega arith
  Step-left _ _ (print_line w q m f) = omega arith
  Step-left _ _ (end_reader w q f) = omega arith
  Step-left _ _ (close_in r q f) = omega arith
  Step-left _ _ (write_record r f e) = omega arith
  Step-left _ _ (broken_pipe r q f e) = omega arith
  Step-left _ _ (close_out r q f) = omega arith

  -- The record stands in the log as one line, if it can be printed; or the log could not be opened, and the
  -- server has returned or has been ended.
  abbrev pub Over : Fork → Type 0
  Over s =
      ((opens ≡ true) × (s ≡ fork (ended (pos 0)) returned none (printed_to prints message file)))
      ⊎ ((opens ≡ false)
          × (s.reader ≡ ended (negsuc 0))
          × (s.file ≡ file)
          × ((s.writer ≡ returned) ⊎ (s.writer ≡ killed)))

  abbrev pub GoesOn : Fork → Type 0
  GoesOn s = (t : Fork) × Step opens prints array message s t

  progress :
      (r : Reader) (w : Writer) (q : Option Bytes) (f : List Bytes)
      → GoodAt r w q f
      → GoesOn (fork r w q f) ⊎ Over (fork r w q f)
  progress r at_close_in q f h = inl (_, close_in r q f)
  progress r at_close_out q f h = inl (_, close_out r q f)
  progress at_close w q f h = inl (_, close_write w q f)
  progress at_open w q f h = elim (Bool-cases opens) [
    | inl opened ↦ inl (_, open_log w q f opened)
    | inr closed ↦ inl (_, open_fails w q f closed)
  ]
  progress (at_print m) w q f h = inl (_, print_line w q m f)
  progress at_close_read w q f h = inl (_, end_reader w q f)
  progress (ended c) at_write q f h = inl (_, broken_pipe (ended c) q f refl)
  progress at_read at_write none f h = inl (_, write_record at_read f refl)
  progress at_read at_write (some x) f h = elim h.0 [ ]
  progress at_read returned (some x) f h = inl (_, read_record returned x f)
  progress at_read returned none f h = elim h.0 [ ]
  progress at_read killed q f h = elim h.0 [ ]
  progress (ended (pos zero)) returned none f h =
      inr (inl (h.2, ap (fork (ended (pos 0)) returned none) h.1))
  progress (ended (pos zero)) returned (some x) f h = elim h.0 [ ]
  progress (ended (pos zero)) killed q f h = elim h.0 [ ]
  progress (ended (pos (suc n))) returned q f h = elim h [ ]
  progress (ended (pos (suc n))) killed q f h = elim h [ ]
  progress (ended (negsuc zero)) returned q f h = inr (inr (h.2, refl, h.1, inl refl))
  progress (ended (negsuc zero)) killed q f h = inr (inr (h.2, refl, h.1, inr refl))
  progress (ended (negsuc (suc n))) returned q f h = elim h [ ]
  progress (ended (negsuc (suc n))) killed q f h = elim h [ ]

  Reaches-Good :
      (n : ℕ) (s : Fork)
      → Reaches opens prints array message (start file) n s
      → Good s × (n + left s ≤ 8)
  Reaches-Good _ _ here = ((tt, refl), omega arith)
  Reaches-Good _ _ (next n t u run step) =
      let (good, steps) = Reaches-Good n t run in
      (Step-Good t u step good, omega (arith, steps, Step-left t u step))

  -- The exchange takes at most eight calls and cannot be stuck: in every state that the two processes reach
  -- from the fork, one of them can make a call, or it is over. When it is over and the log could be opened,
  -- the server has returned and the record has been printed as one line, if printing succeeds; when it could
  -- not be opened, nothing has been printed, and the server has returned or has been ended by its write.
  pub Reaches-Over :
      (n : ℕ) (s : Fork)
      → Reaches opens prints array message (start file) n s
      → (n ≤ 8) × (GoesOn s ⊎ Over s)
  Reaches-Over n s run =
      let (good, steps) = Reaches-Good n s run in
      (omega (arith, steps), progress s.reader s.writer s.pipe s.file good)
