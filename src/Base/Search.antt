-- ===== src/Base/Search.antt =====
-- More of Go's text functions: strings.Contains, strings.Replace for one occurrence,
-- strings.EqualFold against an ASCII text, %d, and net.ParseIP on digits and dots.
use Prim.Native.Nat.{ℕ, zero, suc, ◌+◌, ◌-◌, ◌*◌, ◌%◌, ◌/◌, ◌^◌}
use Prim.Native.Char.{code}
use Prim.Native.String.{String, ◌++◌ as append, len, slice}
use mathlib.Core.Bool.{Bool, true, false, ◌&&◌, ◌||◌, not}
use mathlib.Core.Option.{none, some}
use mathlib.Core.List.{List, [], ◌∷◌, map}
use text.Mathlib.Text.{find?}
use traffic_analysis.Base.Tests.{leb, ltb, ◌=ℕ◌, if◌then◌else◌}
use traffic_analysis.Base.Text.{codes, same_codes, is_empty}

unfoldable pub contains : String → String → Bool
contains s part = elim (find? s part) [ none ↦ false | some i ↦ true ]

-- strings.Replace(s, part, new, 1)
unfoldable pub replace_first : String → String → String → String
replace_first s part new = elim (find? s part) [
  | none ↦ s
  | some i ↦ append (slice s 0 i) (append new (slice s (i + len part) (len s)))
]

-- Simple folding to lower case: besides A to Z only U+017F and U+212A fold to ASCII.
unfoldable pub fold : ℕ → ℕ
fold c =
    if leb b'A' c && leb c b'Z'
    then c + 32
    else if c =ℕ 0x17F
    then b's'
    else if c =ℕ 0x212A
    then b'k'
    else c

-- strings.EqualFold(s, t), for a text t in lower-case ASCII.
unfoldable pub equal_fold : String → String → Bool
unfolding fold
equal_fold s t = same_codes (map fold (codes s)) (codes t)

digits : ℕ → ℕ → String → String
digits zero n rest = rest
digits (suc fuel) n rest =
    let rest' = append (slice "0123456789" (n % 10) (n % 10 + 1)) rest in
    let more = digits fuel (n / 10) rest' in if ltb n 10 then rest' else more

-- %d of an int: twenty digits are enough for 64 bits.
unfoldable pub decimal : ℕ → String
unfolding digits
decimal n =
    if ltb n (2 ^ 63) then digits 20 n "" else append "-" (digits 20 (2 ^ 64 - n % 2 ^ 64) "")

unfoldable pub is_digit : ℕ → Bool
is_digit c = leb b'0' c && leb c b'9'

-- netip's parser of IPv4: `pos` fields are read, the current one has `n` digits and the value `v`.
ipv4 : ℕ → ℕ → ℕ → String → Bool
unfolding is_digit
ipv4 pos n v String.[] = pos =ℕ 3 && not (n =ℕ 0)
ipv4 pos n v (String.◌∷◌ c s) =
    let after_dot = ipv4 (pos + 1) 0 0 s in
    let v' = v * 10 + (code c - b'0') in
    let after_digit = ipv4 pos (n + 1) v' s in
    if code c =ℕ b'.'
    then not (n =ℕ 0) && not (pos =ℕ 3) && after_dot
    else is_digit (code c) && not (n =ℕ 1 && v =ℕ 0) && leb v' 255 && after_digit

-- net.ParseIP(token) != nil, for a token of digits and dots.
unfoldable pub is_ip : String → Bool
unfolding ipv4
is_ip token = ipv4 0 0 0 token

in_address : ℕ → Bool
unfolding is_digit
in_address c = c =ℕ b'.' || is_digit c

keep_token : String → List String → List String
keep_token token rest = if is_empty token then rest else token ∷ rest

-- The token that the text starts with, and the tokens after it.
split_tokens : String → String × List String
unfolding in_address keep_token
split_tokens String.[] = (String.[], [])
split_tokens (String.◌∷◌ c s) =
    let (token, rest) = split_tokens s in
    if in_address (code c) then (String.◌∷◌ c token, rest) else (String.[], keep_token token rest)

-- strings.FieldsFunc(text, …) with what is neither a dot nor a digit as a separator.
unfoldable pub address_tokens : String → List String
unfolding split_tokens keep_token
address_tokens text = let (token, rest) = split_tokens text in keep_token token rest

first_ip_of : List String → String
unfolding is_ip
first_ip_of [] = ""
first_ip_of (token ∷ rest) = let other = first_ip_of rest in if is_ip token then token else other

-- ipFromText
unfoldable pub ip_from_text : String → String
unfolding first_ip_of address_tokens
ip_from_text text = first_ip_of (address_tokens text)

-- strings.HasPrefix(s, part), on their codes.
unfoldable pub begins : List ℕ → List ℕ → Bool
begins [] cs = true
begins (a ∷ part) [] = false
begins (a ∷ part) (c ∷ cs) = a =ℕ c && begins part cs

-- strings.Contains(s, part), on their codes.
unfoldable pub contains_codes : List ℕ → List ℕ → Bool
unfolding begins
contains_codes part [] = begins part []
contains_codes part (c ∷ cs) = begins part (c ∷ cs) || contains_codes part cs
