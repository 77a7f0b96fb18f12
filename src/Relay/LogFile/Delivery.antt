-- ===== src/Relay/LogFile/Delivery.antt =====
-- relay.cpp: the log file goes from the relay, piece by piece, to the user who has asked for it.
use java_io_tserver.Common.{◌≡◌, ◌<◌, List, [], ◌∷◌, ◌++◌, length, take, drop}
use java_io_tserver.Common.Int.{ℤ}
use java_io_tserver.Common.Text.{Bytes, atoi}
use java_io_tserver.Relay.Rele.{Rele}
use java_io_tserver.Relay.LogFile.{c_string, save_log_file}

-- A piece that says it is of the relay `sn`.
abbrev pub IsPieceOf : ℤ → Bytes → Type 0
IsPieceOf sn piece = (40 < length piece) × (atoi (c_string (take 19 (drop 21 piece))) ≡ sn)

-- The pieces arrive one after the other.
unfoldable pub save_pieces : List Bytes → List Rele → List Rele
save_pieces [] rs = rs
save_pieces (piece ∷ pieces) rs = save_pieces pieces (save_log_file piece rs)

unfoldable pub join : List Bytes → Bytes
join [] = []
join (piece ∷ pieces) = piece ++ join pieces
