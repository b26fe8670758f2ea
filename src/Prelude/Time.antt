-- ===== src/Prelude/Time.antt =====
-- Instants and their texts. An instant is in milliseconds since 1970-01-01T00:00:00Z.
use Prim.Native.Nat.{ℕ, zero, suc, ◌+◌, ◌-◌, ◌*◌, ◌/◌, ◌%◌}
use Prim.Native.String.{String}
use mathlib.Core.Path.{◌≡◌, refl}
use mathlib.Core.Bool.{Bool, false}
use mathlib.Core.Option.{Option, none, some}
use mathlib.Core.List.{[], ◌∷◌}
use hubspot_salesforce_conne.Prelude.Tests.{leb, ltb, nat_eq, if◌then◌else◌, get_or}
use hubspot_salesforce_conne.Prelude.Lists.{concat}

-- A text that should name an instant, with what `Date.parse` reads from it: milliseconds, or
-- nothing (`NaN`) for a text that is no date.
pub record Timestamp : Type 0 where
  pub text : String
  pub millis : Option ℕ

abbrev parsed_not_before : Option ℕ → Option ℕ → Bool
parsed_not_before (some a) (some b) = leb b a
parsed_not_before _ _ = false

-- `Date.parse(a) >= Date.parse(b)`: false if either side is `NaN`
abbrev pub not_before : Timestamp → Timestamp → Bool
not_before a b = parsed_not_before a.millis b.millis

-- `Date.parse(t) <= now`
abbrev pub due_by : ℕ → Timestamp → Bool
due_by now t = elim t.millis [ none ↦ false | some m ↦ leb m now ]

-- `Date.parse(t)` of a text that `toISOString` made
abbrev pub parsed : Timestamp → ℕ
parsed t = get_or t.millis 0

abbrev digit : ℕ → String
digit n =
    if nat_eq n 0
    then "0"
    else if nat_eq n 1
    then "1"
    else if nat_eq n 2
    then "2"
    else if nat_eq n 3
    then "3"
    else if nat_eq n 4
    then "4"
    else if nat_eq n 5
    then "5"
    else if nat_eq n 6
    then "6"
    else if nat_eq n 7
    then "7"
    else if nat_eq n 8
    then "8"
    else "9"

-- the last `w` decimal digits of `n`
padded : ℕ → ℕ → String
padded zero n = ""
padded (suc w) n = concat (padded w (n / 10) ∷ digit (n % 10) ∷ [])

-- `String(n)` for a natural number below 10 ^ w
digits_of : ℕ → ℕ → String
digits_of zero n = ""
digits_of (suc w) n =
    let higher = digits_of w (n / 10) in
    if ltb n 10 then digit n else concat (higher ∷ digit (n % 10) ∷ [])

unfoldable pub nat_text : ℕ → String
unfolding digits_of
nat_text n = digits_of 30 n

-- `new Date(n).toISOString()` up to the year 9999: the civil date in the Gregorian calendar, with
-- years that begin in March inside eras of 400 years
unfoldable pub iso_string : ℕ → String
unfolding padded
iso_string n =
    let z = n / 86400000 + 719468 in
    let era = z / 146097 in
    let doe = z % 146097 in
    let yoe = (doe + doe / 36524 - doe / 1460 - doe / 146096) / 365 in
    let doy = doe + yoe / 100 - (365 * yoe + yoe / 4) in
    let mp = (5 * doy + 2) / 153 in
    let day = doy - (153 * mp + 2) / 5 + 1 in
    let month = if ltb mp 10 then mp + 3 else mp - 9 in
    let year = yoe + era * 400 + (if leb month 2 then 1 else 0) in
    let t = n % 86400000 in
    concat (
      padded 4 year
      ∷ "-"
      ∷ padded 2 month
      ∷ "-"
      ∷ padded 2 day
      ∷ "T"
      ∷ padded 2 (t / 3600000)
      ∷ ":"
      ∷ padded 2 (t / 60000 % 60)
      ∷ ":"
      ∷ padded 2 (t / 1000 % 60)
      ∷ "."
      ∷ padded 3 (t % 1000)
      ∷ "Z"
      ∷ [])

unfoldable pub stamp : ℕ → Timestamp
unfolding iso_string
stamp now = record { text = iso_string now; millis = some now }

pub millis-stamp : (now : ℕ) → (stamp now).millis ≡ some now
unfolding stamp
millis-stamp now = refl

iso_leap_day : iso_string 1709208183004 ≡ "2024-02-29T12:03:03.004Z"
unfolding iso_string
iso_leap_day = refl

iso_new_year : iso_string 1735689599999 ≡ "2024-12-31T23:59:59.999Z"
unfolding iso_string
iso_new_year = refl
