-- ===== src/LiraCalc/MyTime.antt =====
-- servak_na_linux/server/my_time.cpp and my_time.h: class my_time_cls, which turns seconds since
-- 1970 into a date by counting days. A `short int` field is a natural number: the days of 32 bits
-- of seconds end in the year 2106. The texts are those of `sprintf`, without the final byte 0.
pub mod Calendar
use java_io_tserver.Common.{
  ℕ, zero, suc, ◌+◌, ◌*◌, ◌/◌, ◌%◌, ◌^◌, Bool, true, false, ◌||◌, List, [], ◌∷◌, ◌++◌, map, take,
  ltb, ◌==◌, if◌then◌else◌,
}
use java_io_tserver.Common.Int.{ℤ, pos, negsuc, ◌+ℤ◌, ◌==ℤ◌, times}
use java_io_tserver.Common.Text.{Bytes, codes, decimal, to_u32}

pub record MyTime : Type 0 where
  pub s : ℕ
  pub mi : ℕ
  pub h : ℕ
  pub d : ℕ
  pub mo : ℕ
  pub e : ℕ
  pub dw : ℕ

-- Whether a year is a leap year.
unfoldable pub eee : ℕ → Bool
eee e =
    if e % 400 == 0
    then true
    else if e % 100 == 0
    then false
    else if e % 4 == 0
    then true
    else false

-- The days of a month.
unfoldable pub mmm : (mo e : ℕ) → ℤ
unfolding eee
mmm mo e =
    if mo == 1 || (mo == 3 || (mo == 5 || (mo == 7 || (mo == 8 || (mo == 10 || mo == 12)))))
    then pos 31
    else if mo == 4 || (mo == 6 || (mo == 9 || mo == 11))
    then pos 30
    else if mo == 2
    then (if eee e then pos 29 else pos 28)
    else negsuc 0

-- The body of the loop: the next day.
unfoldable pub next_day : MyTime → MyTime
unfolding ◌+ℤ◌
next_day c =
    let d = c.d + 1 in
    let dw = if c.dw + 1 == 8 then 1 else c.dw + 1 in
    if pos d ==ℤ (mmm c.mo c.e +ℤ pos 1)
    then (if c.mo + 1 == 13
        then record c { d = 1; mo = 1; e = c.e + 1; dw = dw }
        else record c { d = 1; mo = c.mo + 1; dw = dw })
    else record c { d = d; dw = dw }

unfoldable pub count_days : ℕ → MyTime → MyTime
unfolding next_day
count_days zero c = c
count_days (suc utc) c = count_days utc (next_day c)

-- `t` is what `time` returns, `ch_p` the hours to add.
unfoldable pub update : (t : ℕ) (ch_p : ℤ) → MyTime
unfolding count_days
update t ch_p =
    let utc = (t + to_u32 (times 3600 ch_p)) % 2 ^ 32 in
    count_days (utc / 60 / 60 / 24) record {
      s = utc % 60;
      mi = utc / 60 % 60;
      h = utc / 60 / 60 % 24;
      d = 1;
      mo = 1;
      e = 1970;
      dw = 4;
    }

-- "%.2d".
unfoldable pub two_digits : ℕ → Bytes
two_digits n = if ltb n 10 then b'0' ∷ decimal n else decimal n

unfoldable pub sec : MyTime → Bytes
unfolding two_digits
sec c = two_digits c.s

unfoldable pub min : MyTime → Bytes
unfolding two_digits
min c = two_digits c.mi

unfoldable pub hor : (bb : ℕ) → MyTime → Bytes
unfolding two_digits
hor bb c = if bb == 2 then two_digits c.h else decimal (if c.h % 12 == 0 then 12 else c.h % 12)

unfoldable pub pmam : (bb : ℕ) → MyTime → Bytes
pmam bb c =
    if ltb c.h 12
    then (if bb == 2 then codes "AM" else codes "a.m.")
    else if bb == 2
    then codes "PM"
    else codes "p.m."

unfoldable pub day : (bb : ℕ) → MyTime → Bytes
unfolding two_digits
day bb c = if bb == 2 then two_digits c.d else decimal c.d

unfoldable pub ear : (bb : ℕ) → MyTime → Bytes
ear bb c = decimal (if bb == 2 then c.e % 100 else c.e)

-- A `switch` over numbers from 1, on `old`, what the buffer holds, where none fits.
pick : ℕ → List Bytes → Bytes → Bytes
pick k [] old = old
pick zero (name ∷ names) old = old
pick (suc zero) (name ∷ names) old = name
pick (suc (suc k)) (name ∷ names) old = pick (suc k) names old

abbrev pub month_names : List Bytes
month_names =
    codes "January"
    ∷ codes "February"
    ∷ codes "March"
    ∷ codes "April"
    ∷ codes "May"
    ∷ codes "June"
    ∷ codes "July"
    ∷ codes "August"
    ∷ codes "September"
    ∷ codes "October"
    ∷ codes "November"
    ∷ codes "December"
    ∷ []

abbrev pub day_names : List Bytes
day_names =
    codes "Monday"
    ∷ codes "Tuesday"
    ∷ codes "Wednesday"
    ∷ codes "Thursday"
    ∷ codes "Friday"
    ∷ codes "Saturday"
    ∷ codes "Sunday"
    ∷ []

unfoldable pub mon : (bb : ℕ) → MyTime → Bytes → Bytes
unfolding pick
mon bb c old = pick c.mo (map (take bb) month_names) old

unfoldable pub daytoweek : (bb : ℕ) → MyTime → Bytes → Bytes
unfolding pick
daytoweek bb c old = pick c.dw (map (take bb) day_names) old
