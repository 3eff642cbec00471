-- ===== src/Base/Numbers.antt =====
-- strconv.Atoi and strconv.ParseInt in base 10: a 64-bit integer in two's complement.
use Prim.Native.Nat.{ℕ, ◌+◌, ◌-◌, ◌*◌, ◌^◌}
use Prim.Native.Char.{code}
use Prim.Native.String.{String}
use mathlib.Core.Option.{Option, none, some}
use traffic_analysis.Base.Tests.{leb, ltb, ◌=ℕ◌, if◌then◌else◌}
use traffic_analysis.Base.Text.{is_empty}
use traffic_analysis.Base.Search.{is_digit}

-- The value of digits after `v`.
digits_value : ℕ → String → Option ℕ
digits_value v String.[] = some v
digits_value v (String.◌∷◌ c s) =
    let rest = digits_value (v * 10 + (code c - b'0')) s in if is_digit (code c) then rest else none

magnitude : String → Option ℕ
unfolding digits_value
magnitude s = if is_empty s then none else digits_value 0 s

positive : Option ℕ → Option ℕ
positive none = none
positive (some n) = if leb (2 ^ 63) n then none else some n

negative : Option ℕ → Option ℕ
negative none = none
negative (some n) = if ltb (2 ^ 63) n then none else if n =ℕ 0 then some 0 else some (2 ^ 64 - n)

unfoldable pub atoi : String → Option ℕ
unfolding magnitude positive negative
atoi String.[] = none
atoi (String.◌∷◌ c s) =
    if code c =ℕ b'-'
    then negative (magnitude s)
    else if code c =ℕ b'+'
    then positive (magnitude s)
    else positive (magnitude (String.◌∷◌ c s))
