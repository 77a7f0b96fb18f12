-- ===== src/Setup/Trim.antt =====
-- `trim` leaves a text alone exactly where its two ends are no blanks.
use java_io_tserver.Common.{
  ℕ, ◌≡◌, refl, arith, Bool, true, false, not, [], ◌∷◌, ◌++◌, length, get_or, take, append-nil,
  take-append,
}
use java_io_tserver.Common.Text.{Bytes}
use java_io_tserver.Setup.{blank, trim_start, trim_end, trim}

-- The first byte, if there is one, is no blank; and so the last.
abbrev pub first_ok : Bytes → Bool
first_ok [] = true
first_ok (c ∷ cs) = not (blank c)

abbrev pub last_ok : Bytes → Bool
last_ok [] = true
last_ok (c ∷ []) = not (blank c)
last_ok (c ∷ d ∷ cs) = last_ok (d ∷ cs)

pub record IsTrimmed (t : Bytes) : Type 0 where
  pub first : first_ok t ≡ true
  pub last : last_ok t ≡ true

last_byte :
    (c : ℕ) (cs : Bytes) → last_ok (c ∷ cs) ≡ true → blank (get_or (c ∷ cs) (length cs) 0) ≡ false
last_byte c [] h = ground arith
last_byte c (d ∷ cs) h = last_byte d cs h

take_all : (t : Bytes) → take (length t) t ≡ t
take_all t = rw append-nil at (take-append t [])

pub trim_id : (t : Bytes) → IsTrimmed t → trim t ≡ t
unfolding trim trim_start trim_end
trim_id [] h = refl
trim_id (c ∷ cs) h = ground (arith, h.first, last_byte c cs h.last, take_all (c ∷ cs))

pub last_ok-append : (a b : Bytes) (c : ℕ) → last_ok (c ∷ b) ≡ true → last_ok (a ++ c ∷ b) ≡ true
last_ok-append [] b c h = h
last_ok-append (x ∷ []) b c h = h
last_ok-append (x ∷ y ∷ a) b c h = last_ok-append (y ∷ a) b c h
