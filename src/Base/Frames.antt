-- ===== src/Base/Frames.antt =====
-- A text that holds several texts, for the examples: it stands for an encoding that can be read back.
use mathlib.Core.Path.{◌≡◌, refl}
use mathlib.Core.List.{List, [], ◌∷◌, ◌++◌}
use Prim.Native.Nat.{ℕ, zero, suc}
use beckn_onix.Base.Strings.{Str}
use beckn_onix.Base.Lists.{length, take, drop, take-length_append, drop-length_append}

-- Texts one behind the other, each behind its length.
unfoldable pub frame : List Str → Str
frame [] = []
frame (s ∷ rest) = length s ∷ (s ++ frame rest)

unfoldable pub unframe : ℕ → Str → List Str
unframe zero raw = []
unframe (suc n) [] = []
unframe (suc n) (k ∷ raw) = take k raw ∷ unframe n (drop k raw)

pub unframe-frame : (texts : List Str) → unframe (length texts) (frame texts) ≡ texts
unfolding unframe frame
unframe-frame [] = refl
unframe-frame (s ∷ rest) =
    rw (take-length_append s (frame rest), drop-length_append s (frame rest), unframe-frame rest)
      refl
