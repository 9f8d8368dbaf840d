-- ===== src/Protocol/Selector.antt =====
-- What `resolve_selector` returns, on every branch, and how the result depends on the slashes.
use gopher_server_cross_plat.Base.{
  ℕ, ◌+◌, ◌≤◌, Bool, true, false, [], ◌∷◌, ◌++◌, Option, none, some, ◌≡◌, refl, sym, ap, ◌∙◌, arith,
  ◌==◌, if◌then◌else◌, Bytes, length, ℤ, pos,
}
use gopher_server_cross_plat.Outcome.{Result, ok, stop}
use gopher_server_cross_plat.World.{Os}
use gopher_server_cross_plat.Protocol.{
  need_to_free, no_free, last_byte, skip_separator, resolved_text, resolve_selector, resolve_with,
}
use gopher_server_cross_plat.Platform.{Platform}

-- What each branch gives, by whether the allocation and the sprintf succeed.
abbrev pub resolve_outcome : Bool → Bool → Bytes → ℤ × Option Bytes
resolve_outcome false printed path = (no_free, none)
resolve_outcome true false path = (need_to_free, some path)
resolve_outcome true true path = (pos 0, some path)

last_byte-some : (c : ℕ) (root : Bytes) → (x : ℕ) × (last_byte (c ∷ root) ≡ some x)
last_byte-some c [] = (c, refl)
last_byte-some c (d ∷ root) = last_byte-some d root

-- The path that a call delivers, if any.
abbrev pub path_of : Result (ℤ × Option Bytes) → Option Bytes
path_of (ok r) = r.1
path_of (stop s) = none

abbrev pub AllocatesAll : Os → Type 0
AllocatesAll os = (n : ℕ) → os.calloc_ok n ≡ true

abbrev pub PrintsAll : Os → Type 0
PrintsAll os = (t : Bytes) → os.sprintf_ok t ≡ true

module _ ⦃platform : Platform⦄ where
  -- The path meant: the root, one separator, the selector without a leading one.
  abbrev pub joined : Bytes → Bytes → Bytes
  joined [] selector = platform.separator ∷ skip_separator selector
  joined (c ∷ []) selector =
      if c == platform.separator
      then platform.separator ∷ skip_separator selector
      else c ∷ platform.separator ∷ skip_separator selector
  joined (c ∷ d ∷ root) selector = c ∷ joined (d ∷ root) selector

  resolved_text-joined :
      (root selector : Bytes) (last : ℕ)
      → last_byte root ≡ some last
      → resolved_text root last selector ≡ joined root selector
  resolved_text-joined [] selector last h = cc
  resolved_text-joined (c ∷ []) selector last h = ground arith
  resolved_text-joined (c ∷ d ∷ root) selector last h =
      ground (arith, resolved_text-joined (d ∷ root) selector last h)

  length-skip_separator : (s : Bytes) → length (skip_separator s) ≤ length s
  length-skip_separator [] = omega arith
  length-skip_separator (c ∷ s) = ground arith

  length-joined :
      (root selector : Bytes) → length (joined root selector) ≤ length root + length selector + 1
  length-joined [] selector = omega (arith, length-skip_separator selector)
  length-joined (c ∷ []) selector = ground (arith, length-skip_separator selector)
  length-joined (c ∷ d ∷ root) selector = omega (arith, length-joined (d ∷ root) selector)

  -- For a root with at least one byte the buffer is large enough whatever the selector, and the
  -- three branches give: NO_FREE and no path when calloc fails, NEED_TO_FREE with a path when sprintf
  -- fails, else 0 and the root and the selector joined by a separator.
  pub resolve_selector_lem :
      (os : Os) (c : ℕ) (root selector : Bytes)
      → resolve_selector os (c ∷ root) selector
        ≡ ok (
            resolve_outcome
              (os.calloc_ok (length (c ∷ root) + 1 + length selector + 4))
              (os.sprintf_ok (joined (c ∷ root) selector))
              (joined (c ∷ root) selector))
  unfolding resolve_selector
  resolve_selector_lem os c root selector =
      let (x, e) = last_byte-some c root in
      rw (e, resolve_with, resolved_text-joined (c ∷ root) selector x e)
        (ground (arith, length-joined (c ∷ root) selector))

  joined-slash :
      (c : ℕ) (root selector : Bytes) (last : ℕ)
      → last_byte (c ∷ root) ≡ some last
      → (last == platform.separator) ≡ false
      → joined ((c ∷ root) ++ platform.separator ∷ []) selector ≡ joined (c ∷ root) selector
  joined-slash c [] selector last h n = ground arith
  joined-slash c (d ∷ root) selector last h n = ap (◌∷◌ c) (joined-slash d root selector last h n)

  joined-leading :
      (c : ℕ) (root selector : Bytes)
      → skip_separator selector ≡ selector
      → joined (c ∷ root) (platform.separator ∷ selector) ≡ joined (c ∷ root) selector
  joined-leading c [] selector h = ground arith
  joined-leading c (d ∷ root) selector h = ap (◌∷◌ c) (joined-leading d root selector h)

  resolve_selector-path :
      (os : Os) (c : ℕ) (root selector : Bytes)
      → AllocatesAll os
      → PrintsAll os
      → path_of (resolve_selector os (c ∷ root) selector) ≡ some (joined (c ∷ root) selector)
  resolve_selector-path os c root selector all printed = rw (
    resolve_selector_lem,
    all (length (c ∷ root) + 1 + length selector + 4),
    printed (joined (c ∷ root) selector),
  )

  joined-append :
      (c : ℕ) (root selector : Bytes) (last : ℕ)
      → last_byte (c ∷ root) ≡ some last
      → (last == platform.separator) ≡ false
      → skip_separator selector ≡ selector
      → joined (c ∷ root) selector ≡ (c ∷ root) ++ platform.separator ∷ selector
  joined-append c [] selector last h n lead = ground arith
  joined-append c (d ∷ root) selector last h n lead =
      ap (◌∷◌ c) (joined-append d root selector last h n lead)

  -- For a root that is not empty and does not end in a separator, and a selector that does not start
  -- with one, when the allocations and the prints succeed: the path is the root, a separator and the
  -- selector, and a separator added at the root's end or at the selector's start makes no difference.
  pub resolve_selector-slashes :
      (os : Os) (c : ℕ) (root selector : Bytes) (last : ℕ)
      → AllocatesAll os
      → PrintsAll os
      → last_byte (c ∷ root) ≡ some last
      → (last == platform.separator) ≡ false
      → skip_separator selector ≡ selector
      → (path_of (resolve_selector os ((c ∷ root) ++ platform.separator ∷ []) selector)
          ≡ path_of (resolve_selector os (c ∷ root) selector))
        × (path_of (resolve_selector os (c ∷ root) (platform.separator ∷ selector))
            ≡ path_of (resolve_selector os (c ∷ root) selector))
        × (path_of (resolve_selector os (c ∷ root) selector)
            ≡ some ((c ∷ root) ++ platform.separator ∷ selector))
  resolve_selector-slashes os c root selector last all printed h n lead =
      let at = resolve_selector-path os c root selector all printed in
      (
        resolve_selector-path os c (root ++ platform.separator ∷ []) selector all printed
            ∙ ap some (joined-slash c root selector last h n)
            ∙ sym at,
        resolve_selector-path os c root (platform.separator ∷ selector) all printed
            ∙ ap some (joined-leading c root selector lead)
            ∙ sym at,
        at ∙ ap some (joined-append c root selector last h n lead),
      )
