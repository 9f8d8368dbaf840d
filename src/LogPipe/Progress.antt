-- ===== src/LogPipe/Progress.antt =====
-- linux/lib/pipe/linux_pipe.c: which step comes next for the log process and the handlers.
use gopher_server_cross_plat.Base.{
  ℕ, zero, suc, ◌≤◌, ◌<◌, true, false, List, [], ◌∷◌, ◌==◌, ◌≡◌, refl, ap, sym, arith, Bytes,
  length, ◌⊎◌, inl, inr, Bool-cases,
}
use gopher_server_cross_plat.LogPipe.{
  Logger, at_lock, at_post, at_wait, asleep, woken, at_read, at_unlock, exited, Stage, at_token,
  at_mutex, at_write, at_signal, at_release, finished, Worker, Sys, Step, lock, post, wait, resume,
  read_record, unlock, take_token, take_mutex, write_record, signal, release_mutex, Reaches, start,
  among, Calls, Exchanges,
}
use gopher_server_cross_plat.LogPipe.Invariant.{count, Inv, Reaches-Inv, counts-length, rank}

-- A handler at a stage that is counted.
abbrev Found : Stage → List Worker → Type 0
Found st ws = (before after : List Worker) × (m : Bytes) × (ws ≡ among before st m after)

rank-injective : (a b : Stage) → (rank a == rank b) ≡ true → a ≡ b
rank-injective a b h = ground arith

find_at : (st : Stage) (ws : List Worker) → 1 ≤ count st ws → Found st ws
unfolding count
find_at st [] h = absurd (omega arith)
find_at st (w ∷ ws) h = elim (Bool-cases (rank st == rank w.stage)) [
  | inl e ↦ (
    [],
    ws,
    w.message,
    ap (λ x. record { stage = x; message = w.message } ∷ ws) (sym (rank-injective st w.stage e)),
  )
  | inr ne ↦
      let (before, after, m, e) = find_at st ws (ground (arith, ne, h)) in
      (w ∷ before, after, m, ap (λ ws. w ∷ ws) e)
]

positive : (n : ℕ) → (n ≡ 0) ⊎ (1 ≤ n)
positive zero = inl refl
positive (suc n) = inr (omega arith)

abbrev pub Continues : Calls → Sys → Type 0
Continues calls s = (t : Sys) × Step calls s t

module _ (calls : Calls) (x : Exchanges calls) (s : Sys) (i : Inv s) where
  -- A handler at each of the stages goes on.
  release_step : 1 ≤ count at_release s.workers → Continues calls s
  release_step h =
      let (before, after, m, e) = find_at at_release s.workers h in
      (_, release_mutex s before after m e)

  signal_step : 1 ≤ count at_signal s.workers → Continues calls s
  signal_step h =
      let (before, after, m, e) = find_at at_signal s.workers h in (_, signal s before after m e)

  write_step : 1 ≤ count at_write s.workers → length s.pipe < 16 → Continues calls s
  write_step h room =
      let (before, after, m, e) = find_at at_write s.workers h in
      (_, write_record s before after m e room)

  mutex_step : 1 ≤ count at_mutex s.workers → s.held ≡ false → Continues calls s
  mutex_step h free =
      let (before, after, m, e) = find_at at_mutex s.workers h in
      (_, take_mutex s before after m e free)

  token_step : 1 ≤ count at_token s.workers → s.tokens ≡ 1 → Continues calls s
  token_step h one =
      let (before, after, m, e) = find_at at_token s.workers h in
      (_, take_token s before after m 0 e one)

  free_asleep :
      s.logger ≡ asleep
      → count at_write s.workers ≡ 0
      → count at_signal s.workers ≡ 0
      → s.held ≡ false
  free_asleep e w g = ground (arith, i.mutex, i.phase)

  asleep_step : s.logger ≡ asleep → count finished s.workers < length s.workers → Continues calls s
  asleep_step e h = elim (positive (count at_write s.workers)) [
    | inr some_write ↦ write_step some_write (ground (arith, i.phase))
    | inl no_write ↦ elim (positive (count at_signal s.workers)) [
      | inr some_signal ↦ signal_step some_signal
      | inl no_signal ↦ elim (positive (count at_mutex s.workers)) [
        | inr some_mutex ↦ mutex_step some_mutex (free_asleep e no_write no_signal)
        | inl no_mutex ↦
            token_step (ground (arith, i.phase, counts-length s.workers)) (ground (arith, i.phase))
      ]
    ]
  ]

  woken_step : s.logger ≡ woken → Continues calls s
  woken_step e = elim (positive (count at_release s.workers)) [
    | inr some_release ↦ release_step some_release
    | inl no_release ↦ (_, resume s e (ground (arith, i.mutex, i.phase)))
  ]

  read_step : s.logger ≡ at_read → Continues calls s
  read_step e = go s.pipe refl (ground (arith, i.phase))
    where
      go : (p : List Bytes) → s.pipe ≡ p → length s.pipe ≡ 1 → Continues calls s
      go [] same one = absurd (omega (arith, ap length same, one))
      go (r ∷ rest) same one = (_, read_record s r rest e x.0 same)

  ended : s.logger ≡ exited → ⊥
  ended e = ground (arith, e, i.phase)

  continues :
      (l : Logger) → s.logger ≡ l → count finished s.workers < length s.workers → Continues calls s
  continues at_lock e h = (_, lock s e (ground (arith, i.mutex, i.phase)))
  continues at_post e h = (_, post s e)
  continues at_wait e h = (_, wait s e)
  continues asleep e h = asleep_step e h
  continues woken e h = woken_step e
  continues at_read e h = read_step e
  continues at_unlock e h = (_, unlock s e)
  continues exited e h = absurd (ended e)

-- While the log file can be opened, no read and no write fails and pthread_cond_wait returns only when it is
-- signalled, whether or not a line can be printed: in every state that the log process and any number of
-- handlers reach in which some handler has not ended its call, the log process or a handler can take a step. They do not block each other.
pub Reaches-Continues :
    (calls : Calls) (file messages : List Bytes) (s : Sys)
    → Exchanges calls
    → Reaches calls (start file messages) s
    → count finished s.workers < length s.workers
    → Continues calls s
Reaches-Continues calls file messages s x r h =
    continues calls x s (Reaches-Inv calls x file messages s r) s.logger refl h
