-- ===== src/Windows/Runner/Sharing.antt =====
-- Which connection a thread finds in the arguments that the loop shares with all of them.
use gopher_server_cross_plat.Base.{
  ℕ, ◌+◌, ◌<◌, true, List, [], ◌∷◌, ◌++◌, none, ◌≡◌, refl, sym, ap, subst, ◌∙◌, arith, length, map,
  All, append_assoc, append-nil,
}
use gopher_server_cross_plat.Outcome.{ok}
use gopher_server_cross_plat.Utils.{Configs, m_thread}
use gopher_server_cross_plat.Handler.{Globals}
use gopher_server_cross_plat.Windows.Runner.{
  Runner, Event, connection, load, accept_loop, start_client, accept_client, load_args, Launch,
  Client,
}

-- It is accepted, and CreateThread succeeds.
abbrev pub accepted : Launch → Client → Event
accepted a (client, ip) = connection client ip true a

-- The loop after a connection for which a thread was started.
abbrev with_client : Client → Runner → Runner
with_client (client, ip) r =
    let s = accept_client client ip r in record s { threads = s.threads + 1 }

-- What threads have read, each with the same connection.
abbrev pub saw : Client → List ℕ → List (ℕ × Client)
saw c is = map (λ i. (i, c)) is

-- The loop after connections in a row.
abbrev pub with_clients : List Client → Runner → Runner
with_clients [] r = r
with_clients (c ∷ cs) r = with_clients cs (with_client c r)

-- Each thread reads before the next connection is accepted.
abbrev pub in_turn : Launch → ℕ → List Client → List Event
in_turn a n [] = []
in_turn a n (c ∷ cs) = accepted a c ∷ load n ∷ in_turn a (n + 1) cs

abbrev pub own : ℕ → List Client → List (ℕ × Client)
own n [] = []
own n (c ∷ cs) = (n, c) ∷ own (n + 1) cs

module _ (globals : Globals) (configs : Configs) (a : Launch) where
  accept_one :
      (c : Client) (events : List Event) (r : Runner)
      → r.args.configs.mode_concurrency ≡ m_thread
      → accept_loop globals configs (accepted a c ∷ events) r
        ≡ accept_loop globals configs events (with_client c r)
  unfolding accept_loop start_client
  accept_one (client, ip) events r mode = ground arith

  load_one :
      (i : ℕ) (events : List Event) (r : Runner)
      → i < r.threads
      → accept_loop globals configs (load i ∷ events) r
        ≡ accept_loop globals configs events
            (record r { loads = r.loads ++ (i, (r.args.fd, r.args.ip_client)) ∷ [] })
  unfolding accept_loop load_args
  load_one i events r h = ground arith

  loads_same :
      (is : List ℕ) (r : Runner)
      → All (λ i. i < r.threads) is
      → accept_loop globals configs (map load is) r
        ≡ ok (none, record r { loads = r.loads ++ saw (r.args.fd, r.args.ip_client) is })
  loads_same [] r h =
      unfold accept_loop in ap (λ l. ok (none, record r { loads = l })) (sym (append-nil r.loads))
  loads_same (i ∷ is) r h =
      load_one i (map load is) r h.0
      ∙ loads_same is (record r { loads = r.loads ++ (i, (r.args.fd, r.args.ip_client)) ∷ [] }) h.1
      ∙ ap (λ l. ok (none, record r { loads = l }))
          (append_assoc r.loads ((i, (r.args.fd, r.args.ip_client)) ∷ [])
            (saw (r.args.fd, r.args.ip_client) is))

  accept_all :
      (cs : List Client) (events : List Event) (r : Runner)
      → r.args.configs.mode_concurrency ≡ m_thread
      → accept_loop globals configs (map (accepted a) cs ++ events) r
        ≡ accept_loop globals configs events (with_clients cs r)
  accept_all [] events r mode = refl
  accept_all (c ∷ cs) events r mode =
      accept_one c (map (accepted a) cs ++ events) r mode
      ∙ accept_all cs events (with_client c r) mode

  threads_more :
      (cs : List Client) (r : Runner) → (with_clients cs r).threads ≡ r.threads + length cs
  threads_more [] r = omega arith
  threads_more (c ∷ cs) r = threads_more cs (with_client c r) ∙ omega arith

  mode_same :
      (cs : List Client) (r : Runner)
      → (with_clients cs r).args.configs.mode_concurrency ≡ r.args.configs.mode_concurrency
  mode_same [] r = refl
  mode_same (c ∷ cs) r = mode_same cs (with_client c r)

  loads_kept : (cs : List Client) (r : Runner) → (with_clients cs r).loads ≡ r.loads
  loads_kept [] r = refl
  loads_kept (c ∷ cs) r = loads_kept cs (with_client c r)

  -- In thread mode, when connections are accepted in a row, with a thread for each, and the
  -- threads read their arguments only then, every thread, also those of the earlier connections,
  -- finds the last connection.
  pub accept_loop-last :
      (cs : List Client) (last : Client) (is : List ℕ) (r : Runner)
      → r.args.configs.mode_concurrency ≡ m_thread
      → All (λ i. i < r.threads + length cs + 1) is
      → (s : Runner) × (accept_loop globals configs
            (map (accepted a) cs ++ accepted a last ∷ map load is)
            r
          ≡ ok (none, s))
        × (s.loads ≡ r.loads ++ saw last is)
  accept_loop-last cs last is r mode h =
      let t : Runner = with_client last (with_clients cs r) in
      (
        record t { loads = t.loads ++ saw last is },
        accept_all cs (accepted a last ∷ map load is) r mode
            ∙ accept_one last (map load is) (with_clients cs r) (mode_same cs r ∙ mode)
            ∙ loads_same is t (subst (λ n. All (λ i. i < n + 1) is) (sym (threads_more cs r)) h),
        ap (λ l. l ++ saw last is) (loads_kept cs r),
      )

  -- In thread mode, when a thread is made for each connection and reads its arguments before the
  -- next one is accepted, each finds its own connection.
  pub accept_loop-in_turn :
      (cs : List Client) (r : Runner)
      → r.args.configs.mode_concurrency ≡ m_thread
      → (s : Runner) × (accept_loop globals configs (in_turn a r.threads cs) r ≡ ok (none, s))
        × (s.loads ≡ r.loads ++ own r.threads cs)
  accept_loop-in_turn [] r mode = unfold accept_loop in (r, refl, sym (append-nil r.loads))
  accept_loop-in_turn (c ∷ cs) r mode =
      let t : Runner = record (with_client c r) { loads = r.loads ++ (r.threads, c) ∷ [] } in
      let (s, runs, same) = accept_loop-in_turn cs t mode in
      (
        s,
        accept_one c (load r.threads ∷ in_turn a (r.threads + 1) cs) r mode
            ∙ load_one r.threads (in_turn a (r.threads + 1) cs) (with_client c r) (omega arith)
            ∙ runs,
        same ∙ append_assoc r.loads ((r.threads, c) ∷ []) (own (r.threads + 1) cs),
      )
