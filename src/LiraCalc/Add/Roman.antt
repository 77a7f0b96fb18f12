-- ===== src/LiraCalc/Add/Roman.antt =====
-- add.cpp, to_roman: the Roman numeral of a number, and that it is read as that number.
use java_io_tserver.Common.{
  ℕ, zero, suc, ◌+◌, ◌-◌, ◌*◌, ◌/◌, ◌%◌, ◌≡◌, ◌<◌, ◌≤◌, refl, Bool, true, List, [], ◌∷◌, ◌++◌, leb,
  ltb, ◌==◌, if◌then◌else◌, all_below, all_below_sound, arith, sym, ap, ◌∙◌, append_assoc,
  append-nil, Bool-cases, inl, inr, ◌&&◌,
}
use java_io_tserver.Common.Int.{ℤ, pos, negsuc}
use java_io_tserver.Common.Text.{Bytes, codes, to_string}

-- `val` and `sym`, without the first of each.
abbrev below_thousand : List (ℕ × Bytes)
below_thousand =
    (900, codes "CM")
    ∷ (500, codes "D")
    ∷ (400, codes "CD")
    ∷ (100, codes "C")
    ∷ (90, codes "XC")
    ∷ (50, codes "L")
    ∷ (40, codes "XL")
    ∷ (10, codes "X")
    ∷ (9, codes "IX")
    ∷ (5, codes "V")
    ∷ (4, codes "IV")
    ∷ (1, codes "I")
    ∷ []

abbrev pub symbols : List (ℕ × Bytes)
symbols = (1000, codes "M") ∷ below_thousand

-- The inner loop. Each round takes at least 1 from `n`, so that `n` is fuel enough.
unfoldable pub take_symbol : (fuel val : ℕ) (mark : Bytes) → Bytes × ℕ → Bytes × ℕ
take_symbol zero val mark (r, n) = (r, n)
take_symbol (suc fuel) val mark (r, n) =
    let rest = take_symbol fuel val mark (r ++ mark, n - val) in if leb val n then rest else (r, n)

-- The outer loop.
unfoldable pub take_symbols : List (ℕ × Bytes) → Bytes × ℕ → Bytes × ℕ
unfolding take_symbol
take_symbols [] (r, n) = (r, n)
take_symbols ((val, mark) ∷ more) (r, n) = take_symbols more (take_symbol n val mark (r, n))

unfoldable pub to_roman : ℤ → Bytes
unfolding take_symbols
to_roman (pos zero) = to_string (pos zero)
to_roman (pos (suc n)) = (take_symbols symbols ([], suc n)).0
to_roman (negsuc n) = to_string (negsuc n)

-- Roman numerals as they are read: a letter counts against the number where a larger one follows.
unfoldable pub letter : ℕ → ℕ
letter c =
    if c == b'I'
    then 1
    else if c == b'V'
    then 5
    else if c == b'X'
    then 10
    else if c == b'L'
    then 50
    else if c == b'C'
    then 100
    else if c == b'D'
    then 500
    else if c == b'M'
    then 1000
    else 0

first_letter : Bytes → ℕ
first_letter [] = 0
first_letter (c ∷ cs) = letter c

-- What is added and what is taken away.
unfoldable pub weigh : Bytes → ℕ × ℕ
unfolding letter first_letter
weigh [] = (0, 0)
weigh (c ∷ cs) =
    let (more, less) = weigh cs in
    if ltb (letter c) (first_letter cs) then (more, less + letter c) else (more + letter c, less)

unfoldable pub read_roman : Bytes → ℕ
unfolding weigh
read_roman cs = let (more, less) = weigh cs in more - less

to_roman_runs : to_roman (pos 1994) ≡ codes "MCMXCIV"
unfolding to_roman
to_roman_runs = refl

thousands : ℕ → Bytes
thousands zero = []
thousands (suc k) = b'M' ∷ thousands k

thousands-suc : (k : ℕ) (t : Bytes) → thousands (suc k) ++ t ≡ thousands k ++ b'M' ∷ t
unfolding thousands
thousands-suc zero t = refl
thousands-suc (suc k) t = ap (◌∷◌ b'M') (thousands-suc k t)

-- The first inner loop writes the thousands.
no_thousands :
    (n : ℕ) (r : Bytes)
    → n < 1000
    → ◌≡◌ {A = Bytes × ℕ} (r, n) (r ++ thousands (n / 1000), n % 1000)
unfolding thousands
no_thousands n r h =
    let none_left : n / 1000 ≡ 0 = omega arith in
    let same : n % 1000 ≡ n = omega arith in rw (none_left, same, append-nil r) refl

take_symbol-thousands :
    (fuel n : ℕ) (r : Bytes)
    → n ≤ fuel
    → take_symbol fuel 1000 (codes "M") (r, n) ≡ (r ++ thousands (n / 1000), n % 1000)
unfolding take_symbol thousands
take_symbol-thousands zero n r h = no_thousands n r (omega arith)
take_symbol-thousands (suc fuel) n r h = elim (Bool-cases (leb 1000 n)) [
  | inl more ↦
      let rest = take_symbol-thousands fuel (n - 1000) (r ++ codes "M") (omega arith) in
      let one_more : n / 1000 ≡ suc ((n - 1000) / 1000) = ground arith in
      let same : n % 1000 ≡ (n - 1000) % 1000 = ground arith in
      rw (more, one_more, same)
        (rest
          ∙ ap (λ (t : Bytes). (t, (n - 1000) % 1000))
              (append_assoc r (codes "M") (thousands ((n - 1000) / 1000))))
  | inr done ↦ rw done (no_thousands n r (ground arith))
]

-- What is written already stays in front.
take_symbol-append :
    (fuel val : ℕ) (mark r : Bytes) (n : ℕ)
    → take_symbol fuel val mark (r, n)
      ≡ (r ++ (take_symbol fuel val mark ([], n)).0, (take_symbol fuel val mark ([], n)).1)
unfolding take_symbol
take_symbol-append zero val mark r n = ap (λ (t : Bytes). (t, n)) (sym (append-nil r))
take_symbol-append (suc fuel) val mark r n = elim (Bool-cases (leb val n)) [
  | inl more ↦
      let after = take_symbol-append fuel val mark (r ++ mark) (n - val) in
      let fresh = take_symbol-append fuel val mark mark (n - val) in
      let (out, left) = take_symbol fuel val mark ([], n - val) in
      rw (more, fresh) (after ∙ ap (λ (t : Bytes). (t, left)) (append_assoc r mark out))
  | inr done ↦ rw (done, append-nil r) refl
]

take_symbols-append :
    (more : List (ℕ × Bytes)) (r : Bytes) (n : ℕ)
    → (take_symbols more (r, n)).0 ≡ r ++ (take_symbols more ([], n)).0
unfolding take_symbols
take_symbols-append [] r n = sym (append-nil r)
take_symbols-append ((val, mark) ∷ more) r n =
    let (out, left) = take_symbol n val mark ([], n) in
    ap (λ (w : Bytes × ℕ). (take_symbols more w).0) (take_symbol-append n val mark r n)
    ∙ (take_symbols-append more (r ++ out) left
        ∙ (append_assoc r out (take_symbols more ([], left)).0
            ∙ ap (λ (t : Bytes). r ++ t) (sym (take_symbols-append more out left))))

-- Below a thousand the numeral is read right, and takes away no more than it adds.
reads_right : ℕ → Bool
reads_right n =
    let (more, less) = weigh (take_symbols below_thousand ([], n)).0 in
    leb less more && more - less == n

small : all_below 1000 reads_right ≡ true
unfolding all_below reads_right weigh take_symbols
small = refl

first_letter-le : (t : Bytes) → first_letter t ≤ 1000
unfolding first_letter letter
first_letter-le [] = omega arith
first_letter-le (c ∷ t) = ground arith

weigh-thousands :
    (k : ℕ) (t : Bytes) → weigh (thousands k ++ t) ≡ (1000 * k + (weigh t).0, (weigh t).1)
unfolding weigh thousands letter
weigh-thousands zero t = ground arith
weigh-thousands (suc k) t = ground (arith, weigh-thousands k t, first_letter-le (thousands k ++ t))

-- The numeral of the hundreds, tens and ones.
below : ℕ → Bytes
below n = (take_symbols below_thousand ([], n % 1000)).0

to_roman_lem : (k : ℕ) → to_roman (pos (suc k)) ≡ thousands (suc k / 1000) ++ below (suc k)
unfolding to_roman take_symbols below
to_roman_lem k =
    ap (λ (w : Bytes × ℕ). (take_symbols below_thousand w).0)
      (take_symbol-thousands (suc k) (suc k) [] (omega arith))
    ∙ take_symbols-append below_thousand (thousands (suc k / 1000)) (suc k % 1000)

add_up :
    (n more less : ℕ)
    → (leb less more && more - less == n % 1000) ≡ true
    → 1000 * (n / 1000) + more - less ≡ n
add_up n more less h = ground arith

-- to_roman writes every number from 1 on as a numeral that is read as that number.
pub read_roman-to_roman : (n : ℕ) → 0 < n → read_roman (to_roman (pos n)) ≡ n
unfolding read_roman reads_right below
read_roman-to_roman zero h = absurd (omega arith)
read_roman-to_roman (suc k) h =
    let right : reads_right (suc k % 1000) ≡ true =
      all_below_sound 1000 reads_right (suc k % 1000) (omega arith) small in
    rw (to_roman_lem k, weigh-thousands (suc k / 1000) (below (suc k)))
      (add_up (suc k) (weigh (below (suc k))).0 (weigh (below (suc k))).1 right)
