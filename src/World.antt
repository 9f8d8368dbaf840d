-- ===== src/World.antt =====
-- What a request handler sees of the operating system and of its client, and what it does to them.
-- The system calls are the fields of `Os`; the state of one request is a `World`.
use gopher_server_cross_plat.Base.{ℕ, ◌+◌, ◌≤◌, Bool, List, Option, ◌≡◌, ◌⊎◌, ap, Bytes}
use gopher_server_cross_plat.Outcome.{Stop, Result, ok, stop}

-- Answers of the system that the server does not compute.
pub record Os : Type 0 where
  pub calloc_ok : ℕ → Bool  -- whether an allocation of that many bytes succeeds
  pub sprintf_ok : Bytes → Bool  -- false: sprintf of that text returns a negative number
  pub send : Bytes → Bytes → Option ℕ  -- bytes taken of a message, given what the client has; none is -1
  pub stat : Bytes → Option ℕ  -- st_mode
  pub realpath : Bytes → Option Bytes
  pub readdir : Bytes → Option (List Bytes)  -- the names of a directory; none: opendir fails
  pub popen : Bytes → Option (Option Bytes)  -- first line of a command's output; none: popen fails
  pub open_rw : Bytes → Bool  -- open(path, O_RDWR)
  pub fstat_size : Bytes → Option ℕ  -- st_size of an open file
  pub mmap : Bytes → Option Bytes  -- the mapped bytes; none is MAP_FAILED
  pub thread_ok : Bool  -- whether pthread_create succeeds

-- What recv finds on the client's socket, in order. No bytes: the peer has closed.
pub data Recv : Type 0 where
  got : Bytes → Recv
  interrupted : Recv  -- -1 with EINTR
  failed : Recv  -- -1 with another error

-- On Windows: the handle of the standard output, the globals `pipe_read` and whether there is a pipe, the
-- bytes in it, and the processes started.
pub record Pipes : Type 0 where
  pub std_out : ℕ
  pub pipe_read : ℕ
  pub pipe : Bytes
  pub event_set : Bool
  pub commands : List Bytes  -- the command lines of the processes started

-- On Windows: what the process has open for the transfer of a file.
pub record Handles : Type 0 where
  pub files : ℕ
  pub mappings : ℕ
  pub views : ℕ
  pub threads : ℕ  -- handles of threads

pub record World : Type 0 where
  pub incoming : List Recv
  pub sent : Bytes  -- all that the client's socket has taken
  pub closes : ℕ  -- close calls on the client's descriptor
  pub type_request : ℕ  -- args->type_Request
  pub mutex_held : Bool  -- p_mutex
  pub file_locked : Bool  -- lockf on the served file
  pub files_open : ℕ  -- descriptors of served files that are open
  pub log : List Bytes  -- messages written to the log pipe
  pub handles : Handles
  pub pipes : Pipes

-- A call returns in some world, or its thread or process stops there.
pub data Out (A : Type 0) : Type 0 where
  done : A → World → Out A
  halt : Stop → World → Out A

abbrev pub M : Type 0 → Type 0
M A = World → Out A

abbrev pub pure : {A : Type 0} → A → M A
pure a w = done a w

infixl 5 ◌>>=◌ ◌>>◌
abbrev pub ◌>>=◌ : {A B : Type 0} → M A → (A → M B) → M B
◌>>=◌ m f w = elim (m w) [ done a w' ↦ f a w' | halt s w' ↦ halt s w' ]

abbrev pub ◌>>◌ : {A B : Type 0} → M A → M B → M B
m >> k = m >>= λ _. k

abbrev pub lift : {A : Type 0} → Result A → M A
lift (ok a) w = done a w
lift (stop s) w = halt s w

abbrev pub stop_with : {A : Type 0} → Stop → M A
stop_with s w = halt s w

-- The world in which a call ends, however it ends.
abbrev pub final : {A : Type 0} → Out A → World
final (done a w) = w
final (halt s w) = w

-- A call that leaves the client's descriptor and the type of the request alone.
pub record Keeps (w v : World) : Type 0 where
  pub same_closes : v.closes ≡ w.closes
  pub same_type : v.type_request ≡ w.type_request

-- How a part of a request that starts with `c` closed descriptors ends: if it goes on, none more is
-- closed, and if it stops, at most `n`.
abbrev pub ClosesAtMost : {A : Type 0} → ℕ → ℕ → Out A → Type 0
ClosesAtMost n c (done a v) = v.closes ≡ c
ClosesAtMost n c (halt s v) = v.closes ≤ c + n

-- A part that serves a file: the descriptor is closed at most once, and only with `type_Request` 0.
abbrev pub Served : {A : Type 0} → ℕ → Out A → Type 0
Served c (done a v) = (v.closes ≡ c) ⊎ ((v.closes ≡ c + 1) × (v.type_request ≡ 0))
Served c (halt s v) = v.closes ≤ c + 1

-- A call that goes on, in front of the rest.
pub >>=-done :
    {A B : Type 0} (m : M A) (f : A → M B) (w v : World) (a : A)
    → m w ≡ done a v
    → (m >>= f) w ≡ f a v
>>=-done m f w v a e =
    ap (λ o. elim o as (λ _. Out _) [ done a w' ↦ f a w' | halt s w' ↦ halt s w' ]) e

-- A call that stops, in front of a rest that is not reached.
pub >>=-halt :
    {A B : Type 0} (m : M A) (f : A → M B) (w v : World) (s : Stop)
    → m w ≡ halt s v
    → (m >>= f) w ≡ halt s v
>>=-halt m f w v s e =
    ap (λ o. elim o as (λ _. Out _) [ done a w' ↦ f a w' | halt s w' ↦ halt s w' ]) e
