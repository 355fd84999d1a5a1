-- ===== src/Common/Trim.antt =====
-- Texts that trimming leaves as they are.
use mathlib.Core.Bool.{false}
use mathlib.Core.List.{[], ◌∷◌}
use mathlib.Core.Path.{◌≡◌, refl}
use repo_karta.Common.Lists.{All}
use repo_karta.Common.Text.{Text, cons_right, is_white, trim_left, trim_right, trim_space}

-- A text with no white space.
abbrev pub Solid : Text → Type 0
Solid = All (λ c. is_white c ≡ false)

trim_right-Solid : (w : Text) → Solid w → trim_right w ≡ w
unfolding trim_right cons_right
trim_right-Solid [] h = refl
trim_right-Solid (c ∷ []) h = rw h.0 refl
trim_right-Solid (c ∷ d ∷ w) h = rw (trim_right-Solid (d ∷ w) h.1) refl

pub trim_space-Solid : (w : Text) → Solid w → trim_space w ≡ w
unfolding trim_space trim_left
trim_space-Solid [] h = trim_right-Solid [] h
trim_space-Solid (c ∷ w) h = rw (h.0, trim_left) (trim_right-Solid (c ∷ w) h)
