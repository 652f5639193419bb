-- ===== src/Common/Text.antt =====
-- Texts as keys: membership in a list of texts, and dictionaries as association lists.
use Prim.Native.String.{String}
use mathlib.Core.Path.{◌≡◌, refl}
use mathlib.Core.Bool.{Bool, false, ◌||◌}
use mathlib.Core.Option.{Option, none, some}
use mathlib.Core.List.{List, [], ◌∷◌, ◌++◌}
use native.Mathlib.Omega.{arith}
use text.Mathlib.Text.{◌==◌}
use open_video_trans.Common.Tests.{if◌then◌else◌}

-- `k in xs`
abbrev pub contains : String → List String → Bool
contains k [] = false
contains k (x ∷ xs) = k == x || contains k xs

-- `d.get(k)`
abbrev pub lookup {ℓ} : {V : Type ℓ} → String → List (String × V) → Option V
lookup k [] = none
lookup k ((j, v) ∷ m) = if k == j then some v else lookup k m

pub contains-append :
    (k : String) (xs ys : List String) → contains k (xs ++ ys) ≡ (contains k xs || contains k ys)
contains-append k [] ys = refl
contains-append k (x ∷ xs) ys = ground (arith, contains-append k xs ys)
