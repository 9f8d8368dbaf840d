-- ===== src/Handler/Ending.antt =====
-- How the parts of a request go together: which ends it, and what each leaves of the descriptor.
use gopher_server_cross_plat.Base.{ℕ, ◌+◌, ◌≤◌, ◌≡◌, refl, arith}
use gopher_server_cross_plat.Outcome.{Result, ok, stop}
use gopher_server_cross_plat.World.{
  World, M, Out, done, halt, final, lift, ◌>>=◌, Keeps, ClosesAtMost,
}
use gopher_server_cross_plat.Utils.{ThreadArgs}
use gopher_server_cross_plat.Request.{clean_request}
use gopher_server_cross_plat.Platform.{Platform, IsLawful, ServedOn}

-- A part of the request that never goes on.
abbrev pub Ends : ℕ → ℕ → Out (Unit {0}) → Type 0
Ends n c (done a v) = ⊥
Ends n c (halt s v) = v.closes ≤ c + n

-- A part that keeps the descriptor, or stops having closed it at most `n` times, in front of one that ends.
pub >>=-Ends :
    {A : Type 0} (m : M A) (f : A → M (Unit {0})) (w : World) (n c : ℕ)
    → ClosesAtMost n c (m w)
    → ((a : A) (v : World) → v.closes ≡ c → Ends n c (f a v))
    → Ends n c ((m >>= f) w)
>>=-Ends {A} m f w n c k rest = go (m w) k
  where
    go :
        (o : Out A)
        → ClosesAtMost n c o
        → Ends n c (elim o as (λ _. Out (Unit {0})) [ done a v ↦ f a v | halt s v ↦ halt s v ])
    go (done a v) k = rest a v k
    go (halt s v) k = k

pub Keeps-ClosesAtMost :
    {A : Type 0} (o : Out A) (n : ℕ) (w : World) → Keeps w (final o) → ClosesAtMost n w.closes o
Keeps-ClosesAtMost (done a v) n w k = k.same_closes
Keeps-ClosesAtMost (halt s v) n w k = omega (arith, k.same_closes)

pub lift-ClosesAtMost :
    {A : Type 0} (r : Result A) (n : ℕ) (w : World) → ClosesAtMost n w.closes (lift r w)
lift-ClosesAtMost (ok a) n w = refl
lift-ClosesAtMost (stop s) n w = omega arith

module _ ⦃platform : Platform⦄ (args : ThreadArgs) where
  -- A part that served a file, in front of the end of the request.
  pub Served-clean_request :
      (m : M (Unit {0})) (w : World) (n c : ℕ)
      → ServedOn platform args n c (m w)
      → Ends n c ((m >>= λ _. clean_request args) w)
  unfolding clean_request
  Served-clean_request m w n c k = go (m w) k
    where
      go :
          (o : Out (Unit {0}))
          → ServedOn platform args n c o
          → Ends n c (elim o as (λ _. Out (Unit {0})) [
            | done a v ↦ clean_request args v
            | halt s v ↦ halt s v
          ])
      go (done a v) k = k
      go (halt s v) k = k

  pub Ends-Served : (n c : ℕ) (o : Out (Unit {0})) → Ends n c o → ServedOn platform args n c o
  Ends-Served n c (done a v) e = elim e [ ]
  Ends-Served n c (halt s v) e = e

  pub >>=-Served :
      {A : Type 0} (m : M A) (f : A → M (Unit {0})) (w : World) (n c : ℕ)
      → ClosesAtMost n c (m w)
      → ((a : A) (v : World) → v.closes ≡ c → ServedOn platform args n c (f a v))
      → ServedOn platform args n c ((m >>= f) w)
  >>=-Served {A} m f w n c k rest = go (m w) k
    where
      go :
          (o : Out A)
          → ClosesAtMost n c o
          → ServedOn platform args n c
              (elim o as (λ _. Out (Unit {0})) [ done a v ↦ f a v | halt s v ↦ halt s v ])
      go (done a v) k = rest a v k
      go (halt s v) k = k

module _ ⦃platform : Platform⦄ (args : ThreadArgs) (n : ℕ) (lawful : IsLawful platform args n) where
  pub clean_request-Ends : (w : World) → Ends n w.closes (clean_request args w)
  unfolding clean_request
  clean_request-Ends w = lawful.end_once w

  -- A part that goes on with the descriptor as it was.
  pub goes_on : (c : ℕ) (v : World) → v.closes ≡ c → ServedOn platform args n c (done tt v)
  goes_on c v e = omega (arith, lawful.end_once v, e)
