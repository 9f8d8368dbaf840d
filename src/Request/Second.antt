-- ===== src/Request/Second.antt =====
-- general/lib/socket/socket.c `socket_read_request2` and `socket_drain_tcp2`, which nothing calls: a request
-- that is read by one call of recv, and a socket that is emptied without waiting.
use gopher_server_cross_plat.Base.{
  ℕ, zero, suc, ◌+◌, ◌≤◌, Bool, true, List, [], ◌∷◌, ◌++◌, ◌≡◌, ◌≢◌, ◌⊎◌, inl, inr, refl, arith, ap,
  ◌==◌, if◌then◌else◌, Bytes, length, ℤ, pos, negsuc, leb, Bool-cases,
}
use gopher_server_cross_plat.Outcome.{Result, ok, stop, fault, blocked, no_fuel}
use gopher_server_cross_plat.World.{Os, Recv, got, interrupted, failed, World, M, Out, done, halt}
use gopher_server_cross_plat.Platform.{Platform}
use gopher_server_cross_plat.Utils.{ThreadArgs, buffer_size}
use gopher_server_cross_plat.Cstring.{c_string}
use gopher_server_cross_plat.Request.Lines.{c_string_cut}
use gopher_server_cross_plat.Request.Total.{rounds-pos, recv_got}
use gopher_server_cross_plat.Request.{
  clean_request, recv, recv_from, bytes, eintr, error, rounds, drain, socket_drain_tcp,
}

abbrev is_line_end : ℕ → Bool
is_line_end c = if c == b'\r' then true else c == b'\n'

-- The byte in front of the last one is tried first, then the last one; of a single byte, that is the byte
-- before the array. The array is zero behind what was received.
unfoldable pub cut_end : Bytes → Result Bytes
cut_end [] = ok []
cut_end (x ∷ []) = stop fault
cut_end (x ∷ y ∷ []) =
    if is_line_end x then ok (0 ∷ y ∷ []) else ok (x ∷ (if is_line_end y then 0 else y) ∷ [])
cut_end (x ∷ y ∷ z ∷ s) = elim (cut_end (y ∷ z ∷ s)) [ ok r ↦ ok (x ∷ r) | stop e ↦ stop e ]

-- What follows once the buffer is cut: the rest of a line is waited for.
drain_then : Result Bytes → M Bytes
unfolding socket_drain_tcp
drain_then (stop s) w = halt s w
drain_then (ok b) w = elim (socket_drain_tcp w) [ done _ v ↦ done b v | halt s v ↦ halt s v ]

-- The rounds without a wait; where nothing is there, recv fails.
unfoldable pub drain_now : ℕ → M ℤ
drain_now zero w = halt no_fuel w
drain_now (suc f) w = elim w.incoming [
  | [] ↦ done (negsuc 0) w
  | r ∷ rest ↦ elim (recv buffer_size w) [
    | halt s v ↦ halt s v
    | done eintr v ↦ done (negsuc 0) v
    | done error v ↦ done (negsuc 0) v
    | done (bytes []) v ↦ done (pos 0) v
    | done (bytes (x ∷ g)) v ↦ drain_now f v
  ]
]

unfoldable pub socket_drain_tcp2 : M ℤ
unfolding drain_now rounds
socket_drain_tcp2 w = drain_now (rounds w.incoming) w

two_ends : (line : Bytes) → cut_end (line ++ b'\r' ∷ b'\n' ∷ []) ≡ ok (line ++ 0 ∷ b'\n' ∷ [])
unfolding cut_end
two_ends [] = refl
two_ends (x ∷ []) = refl
two_ends (x ∷ y ∷ []) = refl
two_ends (x ∷ y ∷ z ∷ s) = rw (two_ends (y ∷ z ∷ s))

recv_whole :
    (g : Bytes) (l : List Recv) (w : World)
    → length g ≤ buffer_size
    → recv buffer_size (record w { incoming = got g ∷ l })
      ≡ done (bytes g) (record w { incoming = l })
unfolding recv recv_from
recv_whole g l w fits = elim (Bool-cases (leb (length g) buffer_size)) [
  | inl small ↦ rw small
  | inr large ↦ absurd (ground arith)
]

drain_waits :
    (w : World)
    → socket_drain_tcp (record w { incoming = [] }) ≡ halt blocked (record w { incoming = [] })
unfolding socket_drain_tcp drain rounds recv recv_from
drain_waits w = refl

rounds_closed : (rest : List Recv) → rounds (got [] ∷ rest) ≡ suc (rounds rest)
unfolding rounds
rounds_closed rest = omega arith

drain_closed :
    (rest : List Recv) (w : World)
    → socket_drain_tcp (record w { incoming = got [] ∷ rest })
      ≡ done (pos 0) (record w { incoming = rest })
unfolding socket_drain_tcp drain recv recv_from
drain_closed rest w = rw (rounds_closed rest)

then_waits :
    (b : Bytes) (w : World)
    → drain_then (ok b) (record w { incoming = [] }) ≡ halt blocked (record w { incoming = [] })
unfolding drain_then
then_waits b w =
    ap (λ o. elim o as (λ _. Out Bytes) [ done _ v ↦ done b v | halt s v ↦ halt s v ])
      (drain_waits w)

then_closed :
    (b : Bytes) (rest : List Recv) (w : World)
    → drain_then (ok b) (record w { incoming = got [] ∷ rest })
      ≡ done b (record w { incoming = rest })
unfolding drain_then
then_closed b rest w =
    ap (λ o. elim o as (λ _. Out Bytes) [ done _ v ↦ done b v | halt s v ↦ halt s v ])
      (drain_closed rest w)

-- Returned with 0 or -1.
abbrev pub Returned : Out ℤ → Type 0
Returned (done code v) = (code ≡ pos 0) ⊎ (code ≡ negsuc 0)
Returned (halt s v) = ⊥

drain_now_round :
    (f : ℕ) (g : Bytes) (l : List Recv) (w u : World) (b : Bytes)
    → recv buffer_size (record w { incoming = got g ∷ l }) ≡ done (bytes b) u
    → (b ≢ [] → Returned (drain_now f u))
    → Returned (drain_now (suc f) (record w { incoming = got g ∷ l }))
unfolding drain_now
drain_now_round f g l w u [] e ih = rw (drain_now, e) (inl refl)
drain_now_round f g l w u (x ∷ b) e ih = rw (drain_now, e) (ih (λ h. cc))

drain_now-Returned :
    (f : ℕ) (l : List Recv) (w : World)
    → rounds l ≤ f
    → Returned (drain_now f (record w { incoming = l }))
drain_now-Returned zero l w m = absurd (omega (arith, rounds-pos l))
drain_now-Returned (suc f) [] w m = unfold drain_now in inr refl
drain_now-Returned (suc f) (interrupted ∷ l) w m = unfold drain_now recv in inr refl
drain_now-Returned (suc f) (failed ∷ l) w m = unfold drain_now recv in inr refl
drain_now-Returned (suc f) (got g ∷ l) w m =
    let (b, l', e, smaller) = recv_got buffer_size g l w in
    drain_now_round f g l w (record w { incoming = l' }) b e
      (λ nonempty. drain_now-Returned f l' w (ground (arith, smaller)))

-- Emptying the socket without waiting returns 0 or -1, whatever is in it.
pub socket_drain_tcp2-Returned : (w : World) → Returned (socket_drain_tcp2 w)
unfolding socket_drain_tcp2
socket_drain_tcp2-Returned w = drain_now-Returned (rounds w.incoming) w.incoming w (omega arith)

module _ ⦃platform : Platform⦄ where
  unfoldable pub socket_read_request2 : Os → ThreadArgs → M Bytes
  unfolding clean_request drain_then cut_end
  socket_read_request2 os args w =
      if os.calloc_ok (buffer_size + 1)
      then elim (recv buffer_size w) [
        | halt s v ↦ halt s v
        | done eintr v ↦ clean_request args v
        | done error v ↦ clean_request args v
        | done (bytes g) v ↦ drain_then (cut_end g) v
      ]
      else clean_request args w

  -- A request line that arrives in one piece, of at most 2048 bytes with its carriage return and newline,
  -- when the buffer can be allocated: without more to receive the call waits for ever; when the client then
  -- ends the stream, it returns with the line in the buffer, up to its first NUL.
  pub socket_read_request2-line :
      (os : Os) (args : ThreadArgs) (line : Bytes) (rest : List Recv) (w : World)
      → os.calloc_ok (buffer_size + 1) ≡ true
      → length (line ++ b'\r' ∷ b'\n' ∷ []) ≤ buffer_size
      → (socket_read_request2 os args
            (record w { incoming = got (line ++ b'\r' ∷ b'\n' ∷ []) ∷ [] })
          ≡ halt blocked (record w { incoming = [] }))
        × (b : Bytes) × (socket_read_request2 os args
              (record w { incoming = got (line ++ b'\r' ∷ b'\n' ∷ []) ∷ got [] ∷ rest })
            ≡ done b (record w { incoming = rest }))
        × (c_string b ≡ c_string line)
  unfolding socket_read_request2
  socket_read_request2-line os args line rest w room fits = (
    rw (room, recv_whole _ [] w fits, two_ends line) (then_waits _ w),
    line ++ 0 ∷ b'\n' ∷ [],
    rw (room, recv_whole _ (got [] ∷ rest) w fits, two_ends line) (then_closed _ rest w),
    c_string_cut line (b'\n' ∷ []),
  )
