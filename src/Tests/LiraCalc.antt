-- ===== src/Tests/LiraCalc.antt =====
-- Runs of the first server, over a database that is held in memory.
use java_io_tserver.Common.{
  ℕ, ◌+◌, ◌%◌, ◌^◌, ◌≡◌, ◌≢◌, ◌≤◌, refl, sym, Bool, true, false, Bool-cases, Option, none, some,
  List, [], All, ◌∷◌, ◌++◌, ◌⊎◌, ◌==◌, map, inl, inr, length, if◌then◌else◌, arith,
}
use java_io_tserver.Common.Int.{ℤ, pos, negsuc, ◌-ℤ◌, ◌==ℤ◌, times}
use java_io_tserver.Common.Text.{Bytes, codes, to_u32, decimal_fuel, to_string}
use java_io_tserver.LiraCalc.MyTime.{MyTime, update, next_day, mmm}
use java_io_tserver.LiraCalc.MyTime.Calendar.{IsTime, seconds, update-IsTime}
use java_io_tserver.LiraCalc.Status.{attr_escape, info, html, message_html}
use java_io_tserver.LiraCalc.Status.Escaped.{is_inert, attr_escape_lem}
use java_io_tserver.LiraCalc.Database.{
  Firebird, Table, Statement, mashynes, liry, zminny, zminny_npp, umovy, zminny_lira, m_id, l_id,
  z_id, n_id, u_id, npp_s, delete_from, select_from, switches_of, count_liry, insert_lira, new_lira,
  sql_text,
}
use java_io_tserver.LiraCalc.Database.Tables.{
  Row, Tables, IsFirebird, keep, meets, remove, found, switches,
}
use java_io_tserver.LiraCalc.Delete.{delete_mash, first_or}
use java_io_tserver.LiraCalc.Delete.Cascade.{liry_of, without_mash, delete_mash_lem}
use java_io_tserver.LiraCalc.Add.{add_lira}
use java_io_tserver.LiraCalc.Add.Roman.{to_roman, read_roman, read_roman-to_roman}
use java_io_tserver.LiraCalc.Add.Three.{count, Counts, Three, add_lira-Three}
use java_io_tserver.LiraCalc.Save.Refused.{
  Saving, lira, faults, faults_of, check, perform, perform-refused,
}
use java_io_tserver.LiraCalc.Cp1251.{utf_to_cp1251}
use java_io_tserver.LiraCalc.Cp1251.Letters.{encode}
use java_io_tserver.LiraCalc.Cp1251.Reader.{is_kept, read_letter, read_letter-utf_to_cp1251}
use java_io_tserver.LiraCalc.Relay.{Rele, Memory, done, crashed, list_relays, rr_get_status_all}
use java_io_tserver.LiraCalc.Relay.Chain.{Chain}
use java_io_tserver.LiraCalc.Relay.Press.{rr_get_status, rr_put_status}
use java_io_tserver.LiraCalc.Relay.Press.Kept.{Answered, requests-Answered}
use java_io_tserver.LiraCalc.Relay.Press.Loop.{Eight}
use java_io_tserver.LiraCalc.Relay.Freed.{any_gone, numbers, rr_get_status_all_lem}

-- A row; a table reads the columns that it has.
row : (m l z n u k : ℤ) → Row
row m l z n u k m_id = m
row m l z n u k l_id = l
row m l z n u k z_id = z
row m l z n u k n_id = n
row m l z n u k u_id = u
row m l z n u k npp_s = k

zero_row : (m l z : ℤ) → Row
unfolding row
zero_row m l z = row m l z (pos 0) (pos 0) (pos 0)

with_lira : ℤ → Tables → Tables
with_lira m T liry = zero_row m (pos 7) (pos 0) ∷ T liry
with_lira m T t = T t

execute : Statement → Tables → Tables × Bool
execute (delete_from quoted t cs) T = (remove t cs T, false)
execute (insert_lira m) T = (with_lira m T, false)
execute sql T = (T, false)

select : Statement → Tables → Tables × List ℤ
select (select_from quoted c t cs) T = (T, found c t cs T)
select (switches_of m) T = (T, switches m T)
select (count_liry m) T = (T, pos (count m T) ∷ [])
select (new_lira m) T = (T, liry_of m T)
select sql T = (T, [])

memory : Firebird Tables
memory = record {
  isc_attach_database = λ s. (s, false);
  isc_detach_database = λ s. s;
  isc_start_transaction = λ s. s;
  isc_dsql_execute_immediate = execute;
  rows = select;
  isc_commit_transaction = λ s. (s, false);
  isc_rollback_transaction = λ s. s;
}

view : Tables → Tables
view s = s

memory-IsFirebird : IsFirebird memory view
unfolding memory view execute select
memory-IsFirebird = record {
  attached = λ s. refl;
  attach_kept = λ s. refl;
  detach_kept = λ s. refl;
  start_kept = λ s. refl;
  committed = λ s. refl;
  commit_kept = λ s. refl;
  deleted = λ quoted t c cs s. refl;
  select_kept = λ quoted c t d cs s. refl;
  selected = λ quoted c t d cs s. refl;
  switches_kept = λ m s. refl;
  switches_found = λ m s. refl;
}

==ℤ_sym : (a b : ℤ) → (a ==ℤ b) ≡ (b ==ℤ a)
==ℤ_sym (pos a) (pos b) = ground arith
==ℤ_sym (pos a) (negsuc b) = refl
==ℤ_sym (negsuc a) (pos b) = refl
==ℤ_sym (negsuc a) (negsuc b) = ground arith

with_lira-count :
    (m n : ℤ) (T : Tables)
    → count n (with_lira m T) ≤ (if n ==ℤ m then count n T + 1 else count n T)
unfolding with_lira liry_of found keep meets zero_row
with_lira-count m n T = ground (arith, ==ℤ_sym m n)

memory-Counts : Counts memory view
unfolding memory view execute select first_or
memory-Counts = record {
  count_kept = λ m s. refl;
  counted = λ m s. refl;
  inserted = λ m n s. with_lira-count m n s;
  find_kept = λ m s. refl;
  renamed = λ l n s. refl;
  rollback_kept = λ s. refl;
}

-- Two machines: one with two liry, a variable, and a switch with two positions.
abbrev some_tables : Tables
some_tables mashynes = zero_row (pos 1) (pos 0) (pos 0) ∷ zero_row (pos 2) (pos 0) (pos 0) ∷ []
some_tables liry =
    zero_row (pos 1) (pos 1) (pos 0)
    ∷ zero_row (pos 1) (pos 2) (pos 0)
    ∷ zero_row (pos 2) (pos 3) (pos 0)
    ∷ []
some_tables zminny =
    row (pos 1) (pos 0) (pos 5) (pos 0) (pos 0) (pos 1) ∷ zero_row (pos 1) (pos 0) (pos 6) ∷ []
some_tables zminny_npp =
    row (pos 0) (pos 0) (pos 5) (pos 1) (pos 0) (pos 0)
    ∷ row (pos 0) (pos 0) (pos 5) (pos 2) (pos 0) (pos 0)
    ∷ []
some_tables umovy =
    row (pos 0) (pos 1) (pos 0) (pos 0) (pos 1) (pos 0)
    ∷ row (pos 0) (pos 3) (pos 0) (pos 0) (pos 2) (pos 0)
    ∷ []
some_tables zminny_lira = zero_row (pos 1) (pos 1) (pos 5) ∷ zero_row (pos 1) (pos 2) (pos 6) ∷ []

abbrev noon : MyTime
noon = record { s = 0; mi = 0; h = 12; d = 1; mo = 1; e = 1970; dw = 4 }

few_liry : length (liry_of (pos 1) (view some_tables)) ≤ 3
unfolding liry_of found keep meets zero_row view
few_liry = omega arith

liry_numbered : All (λ v. v ≢ pos 0) (liry_of (pos 1) (view some_tables))
unfolding liry_of found keep meets zero_row view
liry_numbered = ((λ e. ground (arith, e)), ((λ e. ground (arith, e)), tt))

few_switches : length (switches (pos 1) (view some_tables)) ≤ 10
unfolding switches keep zero_row view
few_switches = omega arith

switches_numbered : All (λ v. v ≢ pos 0) (switches (pos 1) (view some_tables))
unfolding switches keep zero_row view
switches_numbered = ((λ e. ground (arith, e)), tt)

delete_mash_lem_example :
    (s' : Tables) × (delete_mash memory noon (pos 1) some_tables
      ≡ some (s', (html noon (info (codes "OK") [] [] [])).1))
    × ((t : Table) → view s' t ≡ without_mash (pos 1) (view some_tables) t)
delete_mash_lem_example =
    delete_mash_lem memory view memory-IsFirebird noon (pos 1) some_tables few_liry liry_numbered
      few_switches switches_numbered

Three-some_tables : Three memory view memory-IsFirebird memory-Counts some_tables
unfolding Three view liry_of found keep meets zero_row
Three-some_tables n = ground arith

add_lira-Three_example :
    (s' : Tables) × (answer : Bytes) × (add_lira memory (pos 1) some_tables ≡ some (s', answer))
    × Three memory view memory-IsFirebird memory-Counts s'
    × (3 ≤ count (pos 1) (view some_tables)
        → (view s' ≡ view some_tables) × (answer ≡ codes "error: max 3 liry"))
add_lira-Three_example =
    add_lira-Three memory view memory-IsFirebird memory-Counts (pos 1) some_tables Three-some_tables

read_roman-to_roman_example : read_roman (to_roman (pos 1994)) ≡ 1994
read_roman-to_roman_example = read_roman-to_roman 1994 (omega arith)

to_roman_year : to_roman (pos 1994) ≡ codes "MCMXCIV"
unfolding to_roman
to_roman_year = refl

-- The leap day of 2000, two hours on from Greenwich.
update-IsTime_example :
    IsTime (update 951811200 (pos 2))
    × (seconds (update 951811200 (pos 2)) ≡ (951811200 + to_u32 (times 3600 (pos 2))) % 2 ^ 32)
update-IsTime_example = update-IsTime 951811200 (pos 2)

leap_day :
    update 951811200 (pos 2) ≡ record { s = 0; mi = 0; h = 10; d = 29; mo = 2; e = 2000; dw = 2 }
unfolding update next_day mmm
leap_day = refl

attr_escape_lem_example :
    (is_inert (attr_escape (codes "a>b")) ≡ true)
    × ((t : Bytes) → attr_escape (codes "a>b") ≡ attr_escape t → codes "a>b" ≡ t)
attr_escape_lem_example = attr_escape_lem (codes "a>b")

-- Both formulas are too short, and there is no store of wheels 3.
abbrev bad_lira : Saving
bad_lira = lira (pos 1) (pos 2) (codes "lira") (pos 3) (pos 4) (codes "x") (codes "y")

faults-bad_lira : faults (faults_of bad_lira) ≡ 3
unfolding faults faults_of
faults-bad_lira = refl

perform-refused_example :
    (perform memory noon bad_lira some_tables ≡ some (some_tables, (html noon (check bad_lira)).1))
    × (length (check bad_lira) ≡ faults (faults_of bad_lira))
perform-refused_example =
    perform-refused memory noon bad_lira some_tables (omega (arith, faults-bad_lira))

message_shown :
    (html noon (info (codes "umova deleted.") (codes "srv_umova_deleted") [] [])).1
    ≡ codes
        "<p class='icon ok_icon'><lable class='msg_ok' data-msg-key='srv_umova_deleted' data-msg-arg=\"\">umova deleted.</lable><lable class='msg_time'>12:00:00</lable></p>"
unfolding html info message_html decimal_fuel
message_shown = refl

statement_written :
    sql_text (delete_from true zminny_lira ((l_id, pos 3) ∷ (z_id, pos 12) ∷ []))
    ≡ codes "DELETE FROM ZMINNY_LIRA WHERE L_ID='3' AND Z_ID='12'"
unfolding sql_text to_string decimal_fuel
statement_written = refl

kept_letters : (is_kept 0x0406 ≡ true) × (is_kept b'a' ≡ true)
unfolding is_kept
kept_letters = (refl, refl)

read_letter-utf_to_cp1251_example :
    map read_letter (utf_to_cp1251 (encode (0x0406 ∷ b'a' ∷ []))) ≡ 0x0406 ∷ b'a' ∷ []
read_letter-utf_to_cp1251_example =
    read_letter-utf_to_cp1251 (0x0406 ∷ b'a' ∷ [])
      ((omega arith, kept_letters.0), ((omega arith, kept_letters.1), tt))

-- Two relays; the first was heard last at the beginning of 1970.
relay : (sn time_onl : ℤ) → Option ℕ → Rele
relay sn time_onl next = record {
  rr_status = codes "00000000";
  rr_command = codes "XXXXXXXX";
  acp_status = pos 0;
  sn = sn;
  time_onl = time_onl;
  put = false;
  next = next;
  online = pos 0;
  my_rand = 1;
}

abbrev two_relays : Memory
two_relays = record {
  rele = some 1;
  nodes = λ b.
      if b == 1
      then some (relay (pos 41) (pos 0) (some 2))
      else if b == 2
      then some (relay (pos 42) (pos 400000) none)
      else none;
}

abbrev as_list : List (ℤ × ℤ)
as_list = (pos 41, pos 0) ∷ (pos 42, pos 400000) ∷ []

Chain-two_relays : Chain two_relays (some 1) as_list
unfolding Chain relay
Chain-two_relays = (
  1,
  relay (pos 41) (pos 0) (some 2),
  refl,
  refl,
  refl,
  refl,
  (2, relay (pos 42) (pos 400000) none, refl, refl, refl, refl, refl),
)

rr_get_status_all_lem_example :
    ((any_gone (pos 400000) as_list ≡ false)
      × ((mem' : Memory) × Chain mem' mem'.rele as_list
          × (rr_get_status_all (pos 400000) 4 two_relays
              ≡ done mem' (numbers true (codes "{\"rr\":[") as_list ++ codes "]}"))))
    ⊎ ((any_gone (pos 400000) as_list ≡ true)
        × (rr_get_status_all (pos 400000) 4 two_relays ≡ crashed))
rr_get_status_all_lem_example =
    rr_get_status_all_lem (pos 400000) 4 two_relays as_list Chain-two_relays (omega arith)

two_days_later : rr_get_status_all (pos 400000) 4 two_relays ≡ crashed
unfolding rr_get_status_all list_relays relay ◌-ℤ◌
two_days_later = refl

Eight-two_relays : Eight two_relays
unfolding Eight relay
Eight-two_relays a r e = elim (Bool-cases (a == 1)) [
  | inl first ↦
      let own : relay (pos 41) (pos 0) (some 2) ≡ r = ground (arith, first, e) in
      rw (sym own) (refl, refl)
  | inr later ↦ elim (Bool-cases (a == 2)) [
    | inl second ↦
        let own : relay (pos 42) (pos 400000) none ≡ r = ground (arith, later, second, e) in
        rw (sym own) (refl, refl)
    | inr neither ↦ absurd (ground (arith, later, neither, e))
  ]
]

requests-Answered_example :
    Answered as_list (rr_get_status (λ n. n) (pos 400000) 3 (pos 42) two_relays)
    × Answered as_list (rr_put_status (λ n. n) (pos 400000) 3 (pos 42) (pos 8) two_relays)
requests-Answered_example =
    requests-Answered (λ n. n) (pos 400000) (pos 42) as_list 3 two_relays 7 (λ e. ground (arith, e))
      Chain-two_relays Eight-two_relays (omega arith) (omega arith)
