-- ===== src/Js/Date.antt =====
-- `Date.parse` on the date time format of ECMA-262, which `toISOString` writes and the API's schemas
-- ask for: a year, a month and a day, of which the last ones may be left out, alone (at midnight UTC)
-- or with a time, with or without seconds and a fraction, and `Z` or an offset. ECMA-262 also reads
-- a time without an offset, as the machine's local time, and years of six digits with a sign; both
-- count as unreadable here, `none`, which stands for NaN, and so do the formats that ECMA-262
-- leaves to the implementation. The value counts milliseconds from two days before year 0, so that
-- it is not negative: it differs from the program's by a constant, which cancels in each of the
-- program's comparisons and differences.
use manglam_balaji_managemen.Js.Text.{utf16}
use manglam_balaji_managemen.Prelude.{
  ℕ, suc, zero, ◌+◌, ◌-◌, ◌*◌, ◌/◌, ◌%◌, Bool, false, not, ◌&&◌, ◌||◌, List, [], ◌∷◌, Option, none,
  some, String, ◌==◌, leb, ltb, if◌then◌else◌, ◌>>=◌, ◌>>◌, guard,
}

-- A parser takes a prefix of the code units.
abbrev Parser : Type 0 → Type 0
Parser A = List ℕ → Option (A × List ℕ)

is_digit : ℕ → Bool
is_digit c = leb b'0' c && leb c b'9'

-- Just `n` digits.
digits : ℕ → ℕ → Parser ℕ
digits zero acc s = some (acc, s)
digits (suc n) acc [] = none
digits (suc n) acc (c ∷ s) =
    let rest = digits n (acc * 10 + (c - b'0')) s in if is_digit c then rest else none

expect : ℕ → List ℕ → Option (List ℕ)
expect k [] = none
expect k (c ∷ s) = if c == k then some s else none

-- The digits of a fraction of a second: the first three count, `scale` being 100, 10, 1 and then 0.
fraction : ℕ → ℕ → List ℕ → ℕ × List ℕ
fraction scale acc [] = (acc, [])
fraction scale acc (c ∷ s) =
    let rest = fraction (scale / 10) (acc + scale * (c - b'0')) s in
    if is_digit c then rest else (acc, c ∷ s)

milliseconds : Parser ℕ
milliseconds [] = some (0, [])
milliseconds (c ∷ s) =
    if c == b'.' then (digits 1 0 s >>= λ _. some (fraction 100 0 s)) else some (0, c ∷ s)

-- Minutes to take off, as a positive and a negative part.
zone : List ℕ → Option (ℕ × ℕ)
zone [] = none
zone (c ∷ s) = if c == b'Z' then (elim s [ [] ↦ some (0, 0) | _ ↦ none ]) else do
  (h, s₁) ← digits 2 0 s
  s₂ ← expect b':' s₁
  (m, s₃) ← digits 2 0 s₂
  guard (ltb h 24 && ltb m 60)
  let minutes = h * 60 + m
  elim s₃ [
    | [] ↦ if c == b'+' then some (minutes, 0) else (if c == b'-' then some (0, minutes) else none)
    | _ ↦ none
  ]

is_leap_year : ℕ → Bool
is_leap_year y = y % 4 == 0 && (not (y % 100 == 0) || y % 400 == 0)

days_in_month : Bool → ℕ → ℕ
days_in_month leap m =
    if m == 2
    then (if leap then 29 else 28)
    else (if m == 4 || m == 6 || m == 9 || m == 11 then 30 else 31)

-- The days of the months before month `m`.
days_before_month : Bool → ℕ → ℕ
days_before_month leap zero = 0
days_before_month leap (suc zero) = 0
days_before_month leap (suc (suc m)) = days_before_month leap (suc m) + days_in_month leap (suc m)

-- The days from the start of year 0 to the start of year `y`.
days_before_year : ℕ → ℕ
days_before_year y = y * 365 + (y + 3) / 4 - (y + 99) / 100 + (y + 399) / 400

abbrev day_ms : ℕ
day_ms = 86400000

time_value : ℕ → ℕ → ℕ → ℕ → ℕ → ℕ → ℕ → ℕ × ℕ → ℕ
time_value y mo d h mi s ms (minus, plus) =
    (days_before_year y + days_before_month (is_leap_year y) mo + (d - 1) + 2) * day_ms
    + h * 3600000
    + mi * 60000
    + s * 1000
    + ms
    + plus * 60000
    - minus * 60000

-- `-MM` or `-DD`, 1 where it is left out.
part_of_date : Parser ℕ
part_of_date [] = some (1, [])
part_of_date (c ∷ s) = if c == b'-' then digits 2 0 s else some (1, c ∷ s)

-- `:ss` with a fraction or none, 0 where it is left out.
seconds : Parser (ℕ × ℕ)
seconds [] = some ((0, 0), [])
seconds (c ∷ s) =
    let read = (do
      (second, s₁) ← digits 2 0 s
      (ms, s₂) ← milliseconds s₁
      some ((second, ms), s₂)) in
    if c == b':' then read else some ((0, 0), c ∷ s)

-- The time of a day, and its offset.
pub record DayTime : Type 0 where
  pub hour : ℕ
  pub minute : ℕ
  pub second : ℕ
  pub millisecond : ℕ
  pub offset : ℕ × ℕ

midnight : DayTime
midnight = record { hour = 0; minute = 0; second = 0; millisecond = 0; offset = (0, 0) }

day_time : List ℕ → Option DayTime
day_time [] = some midnight
day_time (c ∷ t) = do
  guard (c == b'T')
  (h, t₁) ← digits 2 0 t
  t₂ ← expect b':' t₁
  (mi, t₃) ← digits 2 0 t₂
  (s, t₄) ← seconds t₃
  offset ← zone t₄
  guard (ltb h 24 && ltb mi 60 && ltb s.0 60 || (h == 24 && mi + s.0 + s.1 == 0))
  some (record { hour = h; minute = mi; second = s.0; millisecond = s.1; offset = offset })

parse_units : List ℕ → Option ℕ
parse_units t = do
  (y, t₁) ← digits 4 0 t
  (mo, t₂) ← part_of_date t₁
  (d, t₃) ← part_of_date t₂
  time ← day_time t₃
  guard (leb 1 mo && leb mo 12)
  guard (leb 1 d && leb d (days_in_month (is_leap_year y) mo))
  some (time_value y mo d time.hour time.minute time.second time.millisecond time.offset)

-- `Date.parse`; NaN is `none`.
unfoldable pub date_parse : String → Option ℕ
unfolding parse_units part_of_date seconds midnight day_time digits is_digit expect fraction
    milliseconds zone is_leap_year days_in_month days_before_month days_before_year time_value
date_parse s = parse_units (utf16 s)

-- `elapsed = to - from` is a number and at least `bound`, which is not negative.
abbrev pub elapsed_at_least : ℕ → Option ℕ → Option ℕ → Bool
elapsed_at_least bound (some from) (some to) = leb (from + bound) to
elapsed_at_least bound _ _ = false
