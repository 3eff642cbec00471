-- ===== src/Autopilot/Quoting.antt =====
-- internal/autopilot/autopilot.go: pqQuoteIdent against the way SQL reads a quoted identifier.
use Prim.Native.Char.{Char, code}
use Prim.Native.String.{◌++◌ as append}
use text.Mathlib.TextLemmas.{nil-append, cons-append, append_assoc}
use traffic_analysis.Base.{
  Bool, true, false, String, Option, none, some, ◌≡◌, refl, arith, if◌then◌else◌, inl, inr,
  Bool-cases,
}
use traffic_analysis.Autopilot.{is_double_quote, double_quotes, pq_quote_ident}

abbrev pub starting : Char → Option (String × String) → Option (String × String)
starting c none = none
starting c (some (name, rest)) = some (String.◌∷◌ c name, rest)

-- The name that a quoted identifier goes on with, and the text after the identifier: a quote ends
-- it, unless another one follows, which is part of the name. `pending` says that one was read.
abbrev read_name : (pending : Bool) → String → Option (String × String)
read_name false String.[] = none
read_name true String.[] = some (String.[], String.[])
read_name false (String.◌∷◌ c s) =
    let after = read_name true s in
    let more = read_name false s in if is_double_quote (code c) then after else starting c more
read_name true (String.◌∷◌ c s) =
    let more = read_name false s in
    if is_double_quote (code c) then starting c more else some (String.[], String.◌∷◌ c s)

-- A quoted identifier at the start of a text.
abbrev pub read_quoted : String → Option (String × String)
read_quoted String.[] = none
read_quoted (String.◌∷◌ c s) =
    let name = read_name false s in if is_double_quote (code c) then name else none

abbrev pub begins_with_quote : String → Bool
begins_with_quote String.[] = false
begins_with_quote (String.◌∷◌ c s) = is_double_quote (code c)

read_name-end :
    (rest : String) → begins_with_quote rest ≡ false → read_name true rest ≡ some (String.[], rest)
read_name-end String.[] e = refl
read_name-end (String.◌∷◌ c s) e = ground arith

read_name-double_quotes :
    (s rest : String)
    → begins_with_quote rest ≡ false
    → read_name false (append (double_quotes s) (append "\"" rest)) ≡ some (s, rest)
unfolding double_quotes
read_name-double_quotes String.[] rest e =
    rw (nil-append (append "\"" rest), cons-append "\"" "" rest, nil-append rest)
      (read_name-end rest e)
read_name-double_quotes (String.◌∷◌ c s) rest e =
    let ih = read_name-double_quotes s rest e in
    elim (Bool-cases (is_double_quote (code c))) [
      | inl quote ↦
          rw
            (
              quote,
              cons-append c (String.◌∷◌ c (double_quotes s)) (append "\"" rest),
              cons-append c (double_quotes s) (append "\"" rest),
            )
            (ground arith)
      | inr plain ↦ rw (plain, cons-append c (double_quotes s) (append "\"" rest)) (ground arith)
    ]

-- Whatever the name, SQL reads what pqQuoteIdent makes of it as that one identifier, and goes on
-- with the text that follows, where that text does not start with a quote.
pub read_quoted-pq_quote_ident :
    (s rest : String)
    → begins_with_quote rest ≡ false
    → read_quoted (append (pq_quote_ident s) rest) ≡ some (s, rest)
unfolding pq_quote_ident is_double_quote
read_quoted-pq_quote_ident s rest e =
    rw
      (
        append_assoc "\"" (append (double_quotes s) "\"") rest,
        append_assoc (double_quotes s) "\"" rest,
        cons-append "\"" "" (append (double_quotes s) (append "\"" rest)),
        nil-append (append (double_quotes s) (append "\"" rest)),
      )
      (read_name-double_quotes s rest e)
