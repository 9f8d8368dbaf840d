-- ===== src/Outcome.antt =====
-- How a call can end: it returns, or the thread or process that makes it stops.
use gopher_server_cross_plat.Base.{◌≡◌, refl, ap, ℤ}

pub data Stop : Type 0 where
  exited : ℤ → Stop  -- exit(status)
  thread_exit : Stop  -- pthread_exit or _endthread
  blocked : Stop  -- waits for ever
  fault : Stop  -- an access outside an object, or through NULL
  no_fuel : Stop  -- no behaviour of the code: the rounds of a model loop are used up

pub data Result {ℓ} (A : Type ℓ) : Type ℓ where
  ok : A → Result A
  stop : Stop → Result A

-- The rest is made only if the call returns.
infixl 5 ◌>>=◌ ◌>>◌
abbrev pub ◌>>=◌ {κ ℓ} : {B : Type κ} {A : Type ℓ} → Result A → (A → Result B) → Result B
call >>= rest = elim call [ stop s ↦ stop s | ok returned ↦ rest returned ]

abbrev pub ◌>>◌ {κ ℓ} : {B : Type κ} {A : Type ℓ} → Result A → Result B → Result B
call >> rest = call >>= (λ _. rest)

-- Both have returned if the whole has.
pub >>=-ok {κ ℓ} :
    {B : Type κ} {A : Type ℓ} (call : Result A) (rest : A → Result B) {last : B}
    → (call >>= rest) ≡ ok last
    → (first : A) × (call ≡ ok first) × (rest first ≡ ok last)
>>=-ok (stop s) rest e = cc
>>=-ok (ok first) rest e = (first, refl, e)

-- A call that returns, in front of the rest.
pub >>=-returned {κ ℓ} :
    {B : Type κ} {A : Type ℓ} (call : Result A) (rest : A → Result B) {first : A}
    → call ≡ ok first
    → (call >>= rest) ≡ rest first
>>=-returned call rest e = ap (λ c. c >>= rest) e
