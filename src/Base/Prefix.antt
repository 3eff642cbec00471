-- ===== src/Base/Prefix.antt =====
-- strings.TrimPrefix, strings.HasPrefix and strings.Trim with a quote.
use Prim.Native.Nat.{ℕ}
use Prim.Native.Char.{code}
use Prim.Native.String.{String, ◌++◌ as append}
use mathlib.Core.Bool.{Bool, ◌&&◌}
use mathlib.Core.Option.{Option, none, some}
use mathlib.Core.Path.{◌≡◌, refl, ap}
use native.Mathlib.Omega.{arith}
use text.Mathlib.TextLemmas.{nil-append, cons-append}
use traffic_analysis.Base.Tests.{◌=ℕ◌, if◌then◌else◌}
use traffic_analysis.Base.Text.{is_empty}

-- What follows the prefix.
unfoldable pub after_prefix : String → String → Option String
after_prefix String.[] s = some s
after_prefix (String.◌∷◌ c p) String.[] = none
after_prefix (String.◌∷◌ c p) (String.◌∷◌ d s) =
    let rest = after_prefix p s in if code c =ℕ code d then rest else none

-- strings.TrimPrefix(s, prefix)
unfoldable pub trim_prefix : String → String → String
unfolding after_prefix
trim_prefix s prefix = elim (after_prefix prefix s) [ none ↦ s | some rest ↦ rest ]

after_prefix-append : (p s : String) → after_prefix p (append p s) ≡ some s
unfolding after_prefix
after_prefix-append String.[] s = ap some (nil-append s)
after_prefix-append (String.◌∷◌ c p) s =
    rw (cons-append c p s) (ground (arith, after_prefix-append p s))

pub trim_prefix-append : (p s : String) → trim_prefix (append p s) p ≡ s
unfolding trim_prefix
trim_prefix-append p s = rw (trim_prefix, after_prefix-append p s) refl

is_quote : ℕ → Bool
is_quote c = c =ℕ b'"'

trim_quotes_left : String → String
unfolding is_quote
trim_quotes_left String.[] = String.[]
trim_quotes_left (String.◌∷◌ c s) =
    let rest = trim_quotes_left s in if is_quote (code c) then rest else String.◌∷◌ c s

trim_quotes_right : String → String
unfolding is_quote
trim_quotes_right String.[] = String.[]
trim_quotes_right (String.◌∷◌ c s) =
    let rest = trim_quotes_right s in
    if is_empty rest && is_quote (code c) then String.[] else String.◌∷◌ c rest

-- strings.Trim(s, "\"")
unfoldable pub trim_quotes : String → String
unfolding trim_quotes_left trim_quotes_right
trim_quotes s = trim_quotes_right (trim_quotes_left s)
