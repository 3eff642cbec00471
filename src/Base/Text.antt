-- ===== src/Base/Text.antt =====
-- Go's text functions that the program calls: strings.TrimSpace, strings.ToLower (as it matters for
-- a comparison), strings.HasPrefix, strings.HasSuffix, and fmt.Sprintf's concatenation.
pub mod Trim
use Prim.Native.Nat.{ℕ, ◌+◌}
use Prim.Native.Char.{code}
use Prim.Native.String.{String}
use mathlib.Core.Bool.{Bool, true, false, ◌&&◌, ◌||◌}
use mathlib.Core.List.{List, [], ◌∷◌, map}
use mathlib.Core.Path.{◌≡◌}
use mathlib.Core.Logic.{◌≢◌, ◌⊎◌, inl, inr}
use native.Mathlib.Omega.{arith}
use text.Mathlib.Text.{◌==◌}
use text.Mathlib.TextEquality.{eq_iff}
use traffic_analysis.Base.Tests.{Bool-cases, leb, ◌=ℕ◌, if◌then◌else◌}

-- unicode.IsSpace.
unfoldable pub is_space : ℕ → Bool
is_space c =
    (leb 9 c && leb c 13)
    || c =ℕ 32
    || c =ℕ 0x85
    || c =ℕ 0xA0
    || c =ℕ 0x1680
    || (leb 0x2000 c && leb c 0x200A)
    || c =ℕ 0x2028
    || c =ℕ 0x2029
    || c =ℕ 0x202F
    || c =ℕ 0x205F
    || c =ℕ 0x3000

abbrev pub is_empty : String → Bool
is_empty String.[] = true
is_empty (String.◌∷◌ c s) = false

unfoldable pub trim_left : String → String
unfolding is_space
trim_left String.[] = String.[]
trim_left (String.◌∷◌ c s) =
    let rest = trim_left s in if is_space (code c) then rest else String.◌∷◌ c s

unfoldable pub trim_right : String → String
unfolding is_space
trim_right String.[] = String.[]
trim_right (String.◌∷◌ c s) =
    let rest = trim_right s in
    if is_empty rest && is_space (code c) then String.[] else String.◌∷◌ c rest

-- strings.TrimSpace.
unfoldable pub trim_space : String → String
unfolding trim_left trim_right
trim_space s = trim_right (trim_left s)

-- unicode.ToLower, as far as a comparison with lower-case ASCII or caseless text can tell: besides
-- A to Z only U+0130 and U+212A have a lower case in ASCII.
unfoldable pub to_lower : ℕ → ℕ
to_lower c =
    if leb b'A' c && leb c b'Z'
    then c + 32
    else if c =ℕ 0x130
    then b'i'
    else if c =ℕ 0x212A
    then b'k'
    else c

abbrev pub codes : String → List ℕ
codes String.[] = []
codes (String.◌∷◌ c s) = code c ∷ codes s

abbrev pub same_codes : List ℕ → List ℕ → Bool
same_codes [] [] = true
same_codes (a ∷ s) (b ∷ t) = a =ℕ b && same_codes s t
same_codes _ _ = false

-- strings.ToLower(s) == t, for such a text t.
unfoldable pub lower_is : String → String → Bool
unfolding to_lower
lower_is s t = same_codes (map to_lower (codes s)) (codes t)

pub decide_eq : (s t : String) → (s ≡ t) ⊎ (s ≢ t)
decide_eq s t = elim (Bool-cases (s == t)) [
  | inl e ↦ inl ((eq_iff s t).0 e)
  | inr e ↦ inr (λ p. ground (arith, eq_iff s t))
]
