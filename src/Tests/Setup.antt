-- ===== src/Tests/Setup.antt =====
-- SetupConfig: a file that is read, one that is written and read back, and the uses of the theorems.
use java_io_tserver.Common.{◌≡◌, refl, arith, true, List, [], ◌∷◌, none, some, All, length}
use java_io_tserver.Common.Text.{Bytes, codes, lines_from, lines, break_at, lacks, equal}
use java_io_tserver.Setup.{
  SetupConfig, open_config, open_lines, open_line, is_ignored_line, starts_ignored, trim,
  split_line, put, find_value, drop_cr, save, get,
}
use java_io_tserver.Setup.Table.{IsTable, get-open_config, last_value}
use java_io_tserver.Setup.RoundTrip.{IsWritable, open_config-save}

abbrev file : Bytes
file = codes "# keys\n a = 1\r\n[x]\nb two words\n=3\na=4"

abbrev items : List (Bytes × Bytes)
items = (codes "a", codes "4") ∷ (codes "b", codes "two words") ∷ []

abbrev config : SetupConfig
config = record { path = codes "f.ini"; items = items }

open_config_runs : open_config (codes "f.ini") (some file) ≡ (config, 3)
unfolding open_config open_lines open_line is_ignored_line trim split_line put drop_cr equal
    break_at lines_from starts_ignored
open_config_runs = refl

config-IsTable : IsTable config.items
unfolding find_value equal
config-IsTable = ground arith

config-IsWritable : All IsWritable config.items
unfolding starts_ignored lacks
config-IsWritable = (
  record {
    key_kept = refl;
    key_no_eq = refl;
    key_one_line = refl;
    key_trimmed = record { first = refl; last = refl };
    value_one_line = refl;
    value_trimmed = record { first = refl; last = refl };
  },
  (
    record {
      key_kept = refl;
      key_no_eq = refl;
      key_one_line = refl;
      key_trimmed = record { first = refl; last = refl };
      value_one_line = refl;
      value_trimmed = record { first = refl; last = refl };
    },
    tt,
  ),
)

get-open_config_example :
    get (open_config (codes "f.ini") (some file)).0 (codes "a")
    ≡ elim (last_value (codes "a") (lines file)) [ none ↦ [] | some v ↦ v ]
get-open_config_example = get-open_config (codes "f.ini") file (codes "a")

open_config-save_example :
    (text : Bytes) × (save config true true ≡ (some text, 1))
    × (open_config config.path (some text) ≡ (config, length config.items))
open_config-save_example = open_config-save config (ground arith) config-IsTable config-IsWritable
