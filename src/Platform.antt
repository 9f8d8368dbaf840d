-- ===== src/Platform.antt =====
-- What the shared code takes from the platform that it is built for: definitions of
-- general/include/definitions.h, and functions that linux/lib and windows/lib or the two parts of
-- general/lib/socket/socket.c define apart.
use gopher_server_cross_plat.Base.{ℕ, ◌+◌, ◌≤◌, Bool, Bytes, ℤ, ◌≡◌, ◌≢◌}
use gopher_server_cross_plat.Outcome.{Stop, Result, no_fuel}
use gopher_server_cross_plat.World.{Os, World, M, Out, done, halt}
use gopher_server_cross_plat.Utils.{ThreadArgs}

pub record Platform : Type 0 where
  pub separator : ℕ  -- OS_SEPARATOR
  pub get_gopher_code : Os → Bytes → Result ℤ  -- the item type of a path
  pub black_list_file : Os → Bytes → Bytes → Bytes → Bool  -- whether a result that counts as true
  pub end_request : ThreadArgs → World → Stop × World  -- clean_request, which never returns
  pub serve_file : Os → ThreadArgs → Bytes → M (Unit {0})  -- the part of socket_manage_files for a file

-- A part of a request in front of its end: with that end, the client's descriptor is closed at most `n` times.
abbrev pub ServedOn : {A : Type 0} → Platform → ThreadArgs → ℕ → ℕ → Out A → Type 0
ServedOn platform args n c (done a v) = (platform.end_request args v).1.closes ≤ c + n
ServedOn platform args n c (halt s v) = v.closes ≤ c + n

-- What the shared code relies on: how a request ends, and how often it closes the client's descriptor.
pub record IsLawful (platform : Platform) (args : ThreadArgs) (n : ℕ) : Type 0 where
  pub end_stops : (w : World) → (platform.end_request args w).0 ≢ no_fuel
  pub end_once : (w : World) → (platform.end_request args w).1.closes ≤ w.closes + n
  pub serve_once :
      (os : Os) (path : Bytes) (w : World)
      → w.type_request ≡ 0
      → ServedOn platform args n w.closes (platform.serve_file os args path w)
