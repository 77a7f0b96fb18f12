-- ===== src/MachineTime/Device/Start/Resume.antt =====
-- MachineTime.cpp: the row that db_save_session writes of a session, and what is read from it.
use java_io_tserver.Common.{
  ℕ, zero, suc, ◌+◌, ◌*◌, ◌/◌, ◌%◌, ◌^◌, ◌<◌, ◌≡◌, refl, Bool, true, false, List, [], ◌∷◌, Option,
  some, ◌==◌, if◌then◌else◌, map, length, bit_or, arith,
}
use java_io_tserver.Common.Bits.{bit_or_step}
use java_io_tserver.Common.Int.{ℤ, ==ℤ_iff}
use java_io_tserver.MachineTime.Day.{Channel, Day}
use java_io_tserver.MachineTime.Store.{Sqlite, Session}
use java_io_tserver.MachineTime.Device.{MachineTime, working_from, channel_times}
use java_io_tserver.MachineTime.Device.Start.{restore_channels, resume}
use native.Mathlib.Nat.{pow-suc, mul-add, mul_assoc, mul_left_comm, div-div-eq-div-mul}
use native.Mathlib.Omega.{pow_step}

-- A bit above all others is added.
bit_or-above : (i w : ℕ) → w < 2 ^ i → bit_or w (2 ^ i) ≡ w + 2 ^ i
bit_or-above zero zero h = refl
bit_or-above zero (suc w) h = absurd (omega arith)
bit_or-above (suc i) w h =
    let half : 2 ^ suc i / 2 ≡ 2 ^ i = omega (arith, pow-suc 2 i) in
    let step = rw half at (bit_or_step w (2 ^ suc i)) in
    omega (arith, pow-suc 2 i, step, bit_or-above i (w / 2) (omega (arith, pow-suc 2 i)))

-- The flags as a number, the first as its lowest bit.
unfoldable flags : List Channel → ℕ
flags [] = 0
flags (c ∷ cs) = (if c.working_now then 1 else 0) + 2 * flags cs

combine :
    (b : Bool) (w p f : ℕ)
    → (if b then w + p else w) + 2 * p * f ≡ w + p * ((if b then 1 else 0) + 2 * f)
combine true w p f = omega (arith, mul-add p 1 (2 * f), mul_assoc 2 p f, mul_left_comm p 2 f)
combine false w p f = omega (arith, mul-add p 0 (2 * f), mul_assoc 2 p f, mul_left_comm p 2 f)

next_bound : (b : Bool) (i w : ℕ) → w < 2 ^ i → (if b then w + 2 ^ i else w) < 2 ^ suc i
next_bound true i w h = omega (arith, pow-suc 2 i)
next_bound false i w h = omega (arith, pow-suc 2 i)

working_from-flags :
    (cs : List Channel) (i w : ℕ) → w < 2 ^ i → working_from i w cs ≡ w + 2 ^ i * flags cs
unfolding working_from flags
working_from-flags [] i w h = omega arith
working_from-flags (c ∷ cs) i w h =
    rw
      (
        bit_or-above i w h,
        working_from-flags cs (suc i) (if c.working_now then w + 2 ^ i else w)
            (next_bound c.working_now i w h),
        pow_step 2 i,
      )
      (combine c.working_now w (2 ^ i) (flags cs))

flag_bit : (b : Bool) (f : ℕ) → (((if b then 1 else 0) + 2 * f) % 2 == 1) ≡ b
flag_bit true f = ground arith
flag_bit false f = ground arith

flag_rest : (b : Bool) (f : ℕ) → ((if b then 1 else 0) + 2 * f) / 2 ≡ f
flag_rest true f = omega arith
flag_rest false f = omega arith

next_flags : (i w f : ℕ) (b : Bool) → w / 2 ^ i ≡ (if b then 1 else 0) + 2 * f → w / 2 ^ suc i ≡ f
next_flags i w f b h = rw (pow-suc 2 i, ← div-div-eq-div-mul w (2 ^ i) 2, h) (flag_rest b f)

restore_same :
    (cs ds : List Channel) (i w : ℕ)
    → length ds ≡ length cs
    → w / 2 ^ i ≡ flags cs
    → (channel_times (restore_channels i w (channel_times cs) ds) ≡ channel_times cs)
      × (map (λ c. c.working_now) (restore_channels i w (channel_times cs) ds)
          ≡ map (λ c. c.working_now) cs)
unfolding restore_channels flags
restore_same [] [] i w l h = (refl, refl)
restore_same [] (d ∷ ds) i w l h = absurd (omega (arith, l))
restore_same (c ∷ cs) [] i w l h = absurd (omega (arith, l))
restore_same (c ∷ cs) (d ∷ ds) i w l h =
    let rest =
      restore_same cs ds (suc i) w (omega (arith, l)) (next_flags i w (flags cs) c.working_now h) in
    (rw (rest.0) refl, rw (h, rest.1, flag_bit c.working_now (flags cs)) refl)

abbrev pub SameSession : Day → Day → Type 0
SameSession a b =
    (channel_times a.channels ≡ channel_times b.channels)
    × (map (λ c. c.working_now) a.channels ≡ map (λ c. c.working_now) b.channels)

pub restored_session :
    (cs ds : List Channel)
    → length ds ≡ length cs
    → (channel_times (restore_channels 0 (working_from 0 0 cs) (channel_times cs) ds)
        ≡ channel_times cs)
      × (map (λ c. c.working_now) (restore_channels 0 (working_from 0 0 cs) (channel_times cs) ds)
          ≡ map (λ c. c.working_now) cs)
restored_session cs ds l =
    restore_same cs ds 0 (working_from 0 0 cs) l
      (omega (arith, working_from-flags cs 0 0 (omega arith)))

pub resume_today :
    {S : Type 0} (sql : Sqlite S) (gmtime : ℤ → ℤ × ℤ) (k : Session) (n : MachineTime)
    (db : Option S)
    → (resume gmtime k.day_epoch sql (some k) n db).0.this_session.channels
      ≡ restore_channels 0 k.working k.times n.this_session.channels
unfolding resume
resume_today sql gmtime k n db = rw ((==ℤ_iff k.day_epoch k.day_epoch).1 refl) refl
