-- ===== src/Base/Text/Trim.antt =====
-- strings.TrimSpace is idempotent.
use Prim.Native.Char.{code}
use Prim.Native.String.{String}
use mathlib.Core.Path.{◌≡◌, refl, ◌∙◌, ap}
use mathlib.Core.Bool.{Bool, true, not}
use native.Mathlib.Omega.{arith}
use traffic_analysis.Base.Text.{is_space, trim_left, trim_right, trim_space}

abbrev clean_head : String → Bool
clean_head String.[] = true
clean_head (String.◌∷◌ c s) = not (is_space (code c))

trim_left-clean : (s : String) → clean_head (trim_left s) ≡ true
unfolding trim_left
trim_left-clean String.[] = refl
trim_left-clean (String.◌∷◌ c s) = ground (arith, trim_left-clean s)

trim_left_fixed : (s : String) → clean_head s ≡ true → trim_left s ≡ s
unfolding trim_left
trim_left_fixed String.[] h = refl
trim_left_fixed (String.◌∷◌ c s) h = ground arith

trim_right-clean : (s : String) → clean_head s ≡ true → clean_head (trim_right s) ≡ true
unfolding trim_right
trim_right-clean String.[] h = refl
trim_right-clean (String.◌∷◌ c s) h = ground arith

trim_right_idem : (s : String) → trim_right (trim_right s) ≡ trim_right s
unfolding trim_right
trim_right_idem String.[] = refl
trim_right_idem (String.◌∷◌ c s) = ground (arith, trim_right_idem s)

pub trim_space_idem : (s : String) → trim_space (trim_space s) ≡ trim_space s
unfolding trim_space
trim_space_idem s =
    let t = trim_left s in
    ap trim_right (trim_left_fixed (trim_right t) (trim_right-clean t (trim_left-clean s)))
    ∙ trim_right_idem t
