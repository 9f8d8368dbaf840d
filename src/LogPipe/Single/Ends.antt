-- ===== src/LogPipe/Single/Ends.antt =====
-- How the exchange of one record between the server and its log process goes on and ends.
use gopher_server_cross_plat.Base.{
  ℕ, zero, suc, ◌+◌, ◌<◌, ◌≤◌, Bool, true, false, List, [], ◌∷◌, ◌++◌, ◌≡◌, ◌⊎◌, inl, inr,
  Bool-cases, refl, arith, Bytes, if◌then◌else◌,
}
use gopher_server_cross_plat.LogPipe.{
  Logger, at_lock, at_post, at_wait, asleep, woken, at_read, at_unlock, exited, Stage, at_token,
  at_mutex, at_write, at_signal, at_release, finished, frame, Calls, Transfers,
}
use gopher_server_cross_plat.LogPipe.Single.{
  Pair, pair, Step, lock, post, wait, resume, read_record, open_fails, unlock, take_token,
  take_mutex, write_record, signal, release_mutex, Reaches, here, next, start, byte_line,
  post_fails, wake_unsignalled, read_fails, print_fails, both_fail, token_fails, token_ends,
  write_fails,
}

-- The calls that each of the two still has to make, at most.
abbrev child_left : Logger → ℕ
child_left at_lock = 8
child_left at_post = 7
child_left at_wait = 6
child_left asleep = 5
child_left woken = 4
child_left at_read = 3
child_left at_unlock = 2
child_left exited = 0

abbrev parent_left : Stage → ℕ
parent_left at_token = 5
parent_left at_mutex = 4
parent_left at_write = 3
parent_left at_signal = 2
parent_left at_release = 1
parent_left finished = 0

abbrev pub left : Pair → ℕ
left s = child_left s.child + parent_left s.parent

module _ (calls : Calls) (message : Bytes) (file : List Bytes) where
  -- No read, write or dprintf fails, and nobody is woken without a signal.
  abbrev pub Faultless : Type 0
  Faultless = Transfers calls × (calls.may_wake_unsignalled ≡ false)

  -- The other four parts of a state.
  abbrev Rest : Pair → Bool → ℕ → List Bytes → List Bytes → Type 0
  Rest s held n q f = (s.held ≡ held) × (s.tokens ≡ n) × (s.pipe ≡ q) × (s.file ≡ f)

  -- The log file at the end.
  abbrev pub at_end : List Bytes
  at_end = if calls.opens then file ++ byte_line (frame message) ∷ [] else file

  -- What a state of the two goes with.
  abbrev Phase : Logger → Stage → Pair → Type 0
  Phase at_lock at_token s = Rest s false 0 [] file
  Phase at_post at_token s = Rest s true 0 [] file
  Phase at_wait at_token s = Rest s true 1 [] file
  Phase at_wait at_mutex s = Rest s true 0 [] file
  Phase asleep at_token s = Rest s false 1 [] file
  Phase asleep at_mutex s = Rest s false 0 [] file
  Phase asleep at_write s = Rest s true 0 [] file
  Phase asleep at_signal s = Rest s true 0 (frame message ∷ []) file
  Phase woken at_release s = Rest s true 0 (frame message ∷ []) file
  Phase woken finished s = Rest s false 0 (frame message ∷ []) file
  Phase at_read finished s = Rest s true 0 (frame message ∷ []) file
  Phase at_unlock finished s =
      (calls.opens ≡ true) × Rest s true 0 [] (file ++ byte_line (frame message) ∷ [])
  Phase exited finished s = s.file ≡ at_end
  Phase _ _ s = ⊥

  abbrev Inv : Pair → Type 0
  Inv s = Phase s.child s.parent s

  Step-Inv : (s t : Pair) → Faultless → Step calls message s t → Inv s → Inv t
  Step-Inv _ _ x (lock st n q f) i = ground arith
  Step-Inv _ _ x (post st held n q f) i = ground arith
  Step-Inv _ _ x (post_fails st held n q f w) i = cc
  Step-Inv _ _ x (wait st held n q f) i = ground arith
  Step-Inv _ _ x (wake_unsignalled st held n q f w) i = cc
  Step-Inv _ _ x (resume st n q f) i = ground arith
  Step-Inv _ _ x (read_record st held n r q f o) i = ground arith
  Step-Inv _ _ x (read_fails st held n q f o w) i = cc
  Step-Inv _ _ x (print_fails st held n r q f o w) i = cc
  Step-Inv _ _ x (both_fail st held n q f o w v) i = cc
  Step-Inv _ _ x (open_fails st held n q f o) i = ground arith
  Step-Inv _ _ x (unlock st held n q f) i = ground arith
  Step-Inv _ _ x (take_token l held n q f) i = ground arith
  Step-Inv _ _ x (token_fails l held n q f w) i = cc
  Step-Inv _ _ x (token_ends l held q f w) i = ground arith
  Step-Inv _ _ x (take_mutex l n q f) i = ground arith
  Step-Inv _ _ x (write_record l held n q f) i = ground arith
  Step-Inv _ _ x (write_fails l held n q f w) i = cc
  Step-Inv _ _ x (signal l held n q f) i = ground arith
  Step-Inv _ _ x (release_mutex l held n q f) i = ground arith

  Reaches-Inv : (s : Pair) → Faultless → Reaches calls message (start file) s → Inv s
  Reaches-Inv _ x here = (refl, refl, refl, refl)
  Reaches-Inv _ x (next t u r step) = Step-Inv t u x step (Reaches-Inv t x r)

  Step-left : (s t : Pair) → Step calls message s t → left t < left s
  Step-left _ _ (lock st n q f) = ground arith
  Step-left _ _ (post st held n q f) = ground arith
  Step-left _ _ (post_fails st held n q f w) = ground arith
  Step-left _ _ (wait st held n q f) = ground arith
  Step-left _ _ (wake_unsignalled st held n q f w) = ground arith
  Step-left _ _ (resume st n q f) = ground arith
  Step-left _ _ (read_record st held n r q f o) = ground arith
  Step-left _ _ (read_fails st held n q f o w) = ground arith
  Step-left _ _ (print_fails st held n r q f o w) = ground arith
  Step-left _ _ (both_fail st held n q f o w v) = ground arith
  Step-left _ _ (open_fails st held n q f o) = ground arith
  Step-left _ _ (unlock st held n q f) = ground arith
  Step-left _ _ (take_token l held n q f) = ground arith
  Step-left _ _ (token_fails l held n q f w) = ground arith
  Step-left _ _ (token_ends l held q f w) = ground arith
  Step-left _ _ (take_mutex l n q f) = ground arith
  Step-left _ _ (write_record l held n q f) = ground arith
  Step-left _ _ (write_fails l held n q f w) = ground arith
  Step-left _ _ (signal l held n q f) = ground arith
  Step-left _ _ (release_mutex l held n q f) = ground arith

  -- The number of steps of a run.
  pub taken : (s : Pair) → Reaches calls message (start file) s → ℕ
  taken _ here = 0
  taken _ (next t u r step) = taken t r + 1

  taken-left : (s : Pair) (r : Reaches calls message (start file) s) → taken s r + left s ≤ 13
  unfolding taken
  taken-left _ here = omega arith
  taken-left _ (next t u r step) = omega (arith, taken-left t r, Step-left t u step)

  -- Both have ended, and the log file is as it should be.
  abbrev pub Ended : Pair → Type 0
  Ended s = (s.child ≡ exited) × (s.parent ≡ finished) × (s.file ≡ at_end)

  abbrev Goes : Pair → Type 0
  Goes s = Ended s ⊎ ((t : Pair) × Step calls message s t)

  goes :
      (l : Logger) (st : Stage) (held : Bool) (n : ℕ) (q f : List Bytes)
      → Inv (pair l st held n q f)
      → Goes (pair l st held n q f)
  goes at_lock at_token false n q f i = inr (_, lock at_token n q f)
  goes at_lock at_token true n q f i = cc
  goes at_post at_token held n q f i = inr (_, post at_token held n q f)
  goes at_wait st held n q f i = inr (_, wait st held n q f)
  goes asleep at_token held zero q f i = absurd (omega (arith, i.1))
  goes asleep at_token held (suc n) q f i = inr (_, take_token asleep held n q f)
  goes asleep at_mutex false n q f i = inr (_, take_mutex asleep n q f)
  goes asleep at_mutex true n q f i = cc
  goes asleep at_write held n q f i = inr (_, write_record asleep held n q f)
  goes asleep at_signal held n q f i = inr (_, signal asleep held n q f)
  goes woken at_release held n q f i = inr (_, release_mutex woken held n q f)
  goes woken finished false n q f i = inr (_, resume finished n q f)
  goes woken finished true n q f i = cc
  goes at_read finished held n [] f i = cc
  goes at_read finished held n (r ∷ q) f i = elim (Bool-cases calls.opens) [
    | inl can ↦ inr (_, read_record finished held n r q f can)
    | inr cannot ↦ inr (_, open_fails finished held n (r ∷ q) f cannot)
  ]
  goes at_unlock finished held n q f i = inr (_, unlock finished held n q f)
  goes exited finished held n q f i = inl (refl, refl, i)
  goes _ _ held n q f i = absurd i

  -- When no read, write or dprintf fails and pthread_cond_wait returns only when it is signalled, the
  -- exchange of one record cannot be stuck and takes at most 13 steps: in every state that the log process
  -- and the server reach, the steps made and those left are at most 13, and either both have ended, with
  -- the record's line appended to the log file if it can be opened, or one of them goes on.
  pub Reaches-Goes :
      (s : Pair) (r : Reaches calls message (start file) s)
      → Faultless
      → (taken s r + left s ≤ 13) × (Ended s ⊎ ((t : Pair) × Step calls message s t))
  Reaches-Goes s r x =
      (taken-left s r, goes s.child s.parent s.held s.tokens s.pipe s.file (Reaches-Inv s x r))
