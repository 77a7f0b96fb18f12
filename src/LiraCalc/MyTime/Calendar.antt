-- ===== src/LiraCalc/MyTime/Calendar.antt =====
-- my_time_cls::update gives the right date.
use java_io_tserver.Common.{
  ℕ, zero, suc, ◌+◌, ◌-◌, ◌*◌, ◌/◌, ◌%◌, ◌≡◌, ◌≤◌, ◌<◌, refl, sym, inl, inr, Bool-cases, ◌&&◌, ltb,
  ◌^◌, ◌==◌, if◌then◌else◌, arith,
}
use mathlib.Core.Path.{subst}
use java_io_tserver.Common.Int.{ℤ, pos, times}
use java_io_tserver.Common.Text.{to_u32}
use java_io_tserver.LiraCalc.MyTime.{MyTime, eee, mmm, next_day, count_days, update}

-- The leap years from the year 1 to the year `y`.
leap_years : ℕ → ℕ
leap_years y = y / 4 - y / 100 + y / 400

-- The days before a month in a common year.
before_month : ℕ → ℕ
before_month mo =
    if mo == 1
    then 0
    else if mo == 2
    then 31
    else if mo == 3
    then 59
    else if mo == 4
    then 90
    else if mo == 5
    then 120
    else if mo == 6
    then 151
    else if mo == 7
    then 181
    else if mo == 8
    then 212
    else if mo == 9
    then 243
    else if mo == 10
    then 273
    else if mo == 11
    then 304
    else 334

-- The days of a year before a date in it.
leap_day : (mo e : ℕ) → ℕ
leap_day mo e = if ltb 2 mo && eee e then 1 else 0

-- The days from the first of January 1970 to a date.
pub day_number : MyTime → ℕ
day_number c =
    365 * (c.e - 1970)
    + (leap_years (c.e - 1) - 477)
    + before_month c.mo
    + leap_day c.mo c.e
    + (c.d - 1)

leap_years-suc : (e : ℕ) → 1970 ≤ e → leap_years e ≡ leap_years (e - 1) + (if eee e then 1 else 0)
unfolding leap_years eee
leap_years-suc e h = ground arith

-- A date of the calendar, with its day of the week: the first of January 1970 is a Thursday.
pub record IsDate (c : MyTime) : Type 0 where
  pub year : 1970 ≤ c.e
  pub month_from : 1 ≤ c.mo
  pub month_to : c.mo ≤ 12
  pub day_from : 1 ≤ c.d
  pub day_to : (k : ℕ) → mmm c.mo c.e ≡ pos k → c.d ≤ k
  pub weekday : c.dw ≡ (day_number c + 3) % 7 + 1

-- The months of a year: each begins where the one before it ends.
mmm_lem :
    (mo e : ℕ)
    → 1 ≤ mo
    → mo ≤ 11
    → mmm mo e
      ≡ pos (before_month (mo + 1) + leap_day (mo + 1) e - (before_month mo + leap_day mo e))
unfolding mmm before_month leap_day
mmm_lem zero e h k = absurd (omega arith)
mmm_lem (suc zero) e h k = ground arith
mmm_lem (suc (suc zero)) e h k = ground arith
mmm_lem (suc (suc (suc zero))) e h k = ground arith
mmm_lem (suc (suc (suc (suc zero)))) e h k = ground arith
mmm_lem (suc (suc (suc (suc (suc zero))))) e h k = ground arith
mmm_lem (suc (suc (suc (suc (suc (suc zero)))))) e h k = ground arith
mmm_lem (suc (suc (suc (suc (suc (suc (suc zero))))))) e h k = ground arith
mmm_lem (suc (suc (suc (suc (suc (suc (suc (suc zero)))))))) e h k = ground arith
mmm_lem (suc (suc (suc (suc (suc (suc (suc (suc (suc zero))))))))) e h k = ground arith
mmm_lem (suc (suc (suc (suc (suc (suc (suc (suc (suc (suc zero)))))))))) e h k = ground arith
mmm_lem (suc (suc (suc (suc (suc (suc (suc (suc (suc (suc (suc zero))))))))))) e h k = ground arith
mmm_lem (suc (suc (suc (suc (suc (suc (suc (suc (suc (suc (suc (suc n)))))))))))) e h k =
    absurd (omega arith)

mmm-pos : (mo e : ℕ) → 1 ≤ mo → mo ≤ 12 → (k : ℕ) × (mmm mo e ≡ pos k)
unfolding mmm
mmm-pos mo e h k = elim (Bool-cases (mo == 12)) [
  | inl last ↦ (31, ground (arith, last))
  | inr more ↦ (_, mmm_lem mo e h (ground arith))
]

mmm_december : (e : ℕ) → mmm 12 e ≡ pos 31
unfolding mmm
mmm_december e = refl

mmm-le : (mo e k : ℕ) → mmm mo e ≡ pos k → 28 ≤ k
unfolding mmm
mmm-le mo e k h = ground arith

leap_years-le : (y : ℕ) → 1969 ≤ y → 477 ≤ leap_years y
unfolding leap_years
leap_years-le y h = omega arith

next_weekday : ℕ → ℕ
next_weekday dw = if dw + 1 == 8 then 1 else dw + 1

-- The three kinds of days: inside a month, the last of a month, the last of a year.
next_day_inside :
    (c : MyTime) (k : ℕ)
    → mmm c.mo c.e ≡ pos k
    → c.d < k
    → next_day c ≡ record c { d = c.d + 1; dw = next_weekday c.dw }
unfolding next_day next_weekday
next_day_inside c k len inside = rw len (ground arith)

next_day_month :
    (c : MyTime) (k : ℕ)
    → mmm c.mo c.e ≡ pos k
    → c.d ≡ k
    → c.mo ≤ 11
    → next_day c ≡ record c { d = 1; mo = c.mo + 1; dw = next_weekday c.dw }
unfolding next_day next_weekday
next_day_month c k len last h = rw len (ground arith)

next_day_year :
    (c : MyTime)
    → mmm c.mo c.e ≡ pos 31
    → c.d ≡ 31
    → c.mo ≡ 12
    → next_day c ≡ record c { d = 1; mo = 1; e = c.e + 1; dw = next_weekday c.dw }
unfolding next_day next_weekday
next_day_year c len last h = rw len (ground arith)

abbrev Follows : (c c' : MyTime) → Type 0
Follows c c' = IsDate c' × (day_number c' ≡ day_number c + 1)

weekday_lem : (dw n m : ℕ) → dw ≡ (n + 3) % 7 + 1 → m ≡ n + 1 → next_weekday dw ≡ (m + 3) % 7 + 1
unfolding next_weekday
weekday_lem dw n m h e = ground arith

-- A new date whose number is one more follows.
follows :
    (c : MyTime) (d mo e : ℕ)
    → IsDate c
    → 1970 ≤ e
    → 1 ≤ mo
    → mo ≤ 12
    → 1 ≤ d
    → ((k : ℕ) → mmm mo e ≡ pos k → d ≤ k)
    → day_number (record c { d = d; mo = mo; e = e; dw = next_weekday c.dw }) ≡ day_number c + 1
    → Follows c (record c { d = d; mo = mo; e = e; dw = next_weekday c.dw })
follows c d mo e date y m1 m2 d1 d2 n = (
  record {
    year = y;
    month_from = m1;
    month_to = m2;
    day_from = d1;
    day_to = d2;
    weekday = weekday_lem c.dw _ _ date.weekday n;
  },
  n,
)

Follows-inside :
    (c : MyTime) (k : ℕ)
    → IsDate c
    → mmm c.mo c.e ≡ pos k
    → c.d < k
    → Follows c (record c { d = c.d + 1; dw = next_weekday c.dw })
unfolding day_number
Follows-inside c k date len inside =
    follows c (c.d + 1) c.mo c.e date date.year date.month_from date.month_to (omega arith)
      (λ k' e. ground (arith, len, e)) (omega (arith, date.day_from))

Follows-month :
    (c : MyTime) (k : ℕ)
    → IsDate c
    → mmm c.mo c.e ≡ pos k
    → c.d ≡ k
    → c.mo ≤ 11
    → Follows c (record c { d = 1; mo = c.mo + 1; dw = next_weekday c.dw })
unfolding day_number
Follows-month c k date len last h =
    let long = mmm-le c.mo c.e k len in
    let between = mmm_lem c.mo c.e date.month_from h in
    let days : k
        ≡ before_month (c.mo + 1)
          + leap_day (c.mo + 1) c.e
          - (before_month c.mo + leap_day c.mo c.e) =
      ground (arith, len, between) in
    follows c 1 (c.mo + 1) c.e date date.year (omega arith) (omega arith) (omega arith)
      (λ k' e. omega (arith, mmm-le (c.mo + 1) c.e k' e)) (omega arith)

Follows-year :
    (c : MyTime)
    → IsDate c
    → c.d ≡ 31
    → c.mo ≡ 12
    → Follows c (record c { d = 1; mo = 1; e = c.e + 1; dw = next_weekday c.dw })
unfolding day_number before_month leap_day
Follows-year c date last h =
    follows c 1 1 (c.e + 1) date (omega arith) (omega arith) (omega arith) (omega arith)
      (λ k' e. omega (arith, mmm-le 1 (c.e + 1) k' e))
      (ground (arith, leap_years-suc c.e date.year, leap_years-le (c.e - 1)))

next_day_lem : (c : MyTime) → IsDate c → Follows c (next_day c)
next_day_lem c date =
    let (k, len) = mmm-pos c.mo c.e date.month_from date.month_to in
    let within : c.d ≤ k = date.day_to k len in
    elim (Bool-cases (c.d == k)) [
      | inr early ↦
          let inside : c.d < k = ground arith in
          subst (Follows c) (sym (next_day_inside c k len inside))
            (Follows-inside c k date len inside)
      | inl last ↦
          let at_end : c.d ≡ k = ground arith in
          elim (Bool-cases (c.mo == 12)) [
            | inl december ↦
                let twelve : c.mo ≡ 12 = ground arith in
                let long : mmm c.mo c.e ≡ pos 31 = rw twelve (mmm_december c.e) in
                let k31 : c.d ≡ 31 = ground (arith, len, long) in
                subst (Follows c) (sym (next_day_year c long k31 twelve))
                  (Follows-year c date k31 twelve)
            | inr other ↦
                let earlier : c.mo ≤ 11 = ground (arith, date.month_to) in
                subst (Follows c) (sym (next_day_month c k len at_end earlier))
                  (Follows-month c k date len at_end earlier)
          ]
    ]

count_days-IsDate :
    (n : ℕ) (c : MyTime)
    → IsDate c
    → IsDate (count_days n c) × (day_number (count_days n c) ≡ day_number c + n)
unfolding count_days
count_days-IsDate zero c date = (date, omega arith)
count_days-IsDate (suc n) c date =
    let (date', number) = next_day_lem c date in
    let (last, total) = count_days-IsDate n (next_day c) date' in
    (last, omega (arith, number, total))

next_day-kept :
    (c : MyTime) → ((next_day c).s ≡ c.s) × ((next_day c).mi ≡ c.mi) × ((next_day c).h ≡ c.h)
unfolding next_day
next_day-kept c = ground arith

count_days-kept :
    (n : ℕ) (c : MyTime)
    → ((count_days n c).s ≡ c.s) × ((count_days n c).mi ≡ c.mi) × ((count_days n c).h ≡ c.h)
unfolding count_days
count_days-kept zero c = (refl, refl, refl)
count_days-kept (suc n) c = ground (arith, count_days-kept n (next_day c), next_day-kept c)

-- A date and a time of the day.
pub record IsTime (c : MyTime) : Type 0 where
  pub date : IsDate c
  pub year_to : c.e ≤ 2106
  pub seconds_to : c.s < 60
  pub minutes_to : c.mi < 60
  pub hours_to : c.h < 24

-- The seconds from the beginning of 1970 to a date and a time of the day.
pub seconds : MyTime → ℕ
seconds c = day_number c * 86400 + c.h * 3600 + c.mi * 60 + c.s

first_day-IsDate :
    (s mi h : ℕ) → IsDate (record { s = s; mi = mi; h = h; d = 1; mo = 1; e = 1970; dw = 4 })
unfolding day_number leap_years before_month leap_day
first_day-IsDate s mi h = record {
  year = omega arith;
  month_from = omega arith;
  month_to = omega arith;
  day_from = omega arith;
  day_to = λ k e. omega (arith, mmm-le 1 1970 k e);
  weekday = refl;
}

first_day-zero :
    (s mi h : ℕ)
    → day_number (record { s = s; mi = mi; h = h; d = 1; mo = 1; e = 1970; dw = 4 }) ≡ 0
unfolding day_number leap_years before_month leap_day
first_day-zero s mi h = refl

year-le : (c : MyTime) → day_number c < 49711 → c.e ≤ 2106
unfolding day_number
year-le c h = omega arith

-- update gives a date of the calendar with its day of the week, and a time of the day, that
-- together are as many seconds after the beginning of 1970 as `time` counts and the added hours
-- make, modulo 2^32; the year is at most 2106.
pub update-IsTime :
    (t : ℕ) (ch_p : ℤ)
    → IsTime (update t ch_p) × (seconds (update t ch_p) ≡ (t + to_u32 (times 3600 ch_p)) % 2 ^ 32)
unfolding update seconds
update-IsTime t ch_p =
    let utc : ℕ = (t + to_u32 (times 3600 ch_p)) % 2 ^ 32 in
    let days : ℕ = utc / 60 / 60 / 24 in
    let first : MyTime = record {
      s = utc % 60;
      mi = utc / 60 % 60;
      h = utc / 60 / 60 % 24;
      d = 1;
      mo = 1;
      e = 1970;
      dw = 4;
    } in
    let (date, number) = count_days-IsDate days first (first_day-IsDate _ _ _) in
    let (same_s, same_mi, same_h) = count_days-kept days first in
    let start : day_number first ≡ 0 = first_day-zero _ _ _ in
    let last : MyTime = count_days days first in
    let short : utc < 2 ^ 32 = omega arith in
    (
      record {
        date = date;
        year_to = year-le last (omega (arith, number, start, short));
        seconds_to = omega (arith, same_s);
        minutes_to = omega (arith, same_mi);
        hours_to = omega (arith, same_h);
      },
      omega (arith, number, start, same_s, same_mi, same_h),
    )
