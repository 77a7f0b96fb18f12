-- ===== src/MachineTime/Device/Packet.antt =====
-- set and set_post of class MachineTime: what a message of the device does.
use java_io_tserver.Common.{
  ℕ, zero, suc, ◌+◌, ◌*◌, ◌^◌, not, List, [], ◌∷◌, Option, ltb, ◌==◌, if◌then◌else◌, get_or, length,
  bit_or,
}
use java_io_tserver.Common.Int.{ℤ, pos, ◌+ℤ◌, ◌==ℤ◌, rem, to_i32, shift_right}
use java_io_tserver.Common.Text.{Bytes, codes}
use java_io_tserver.Setup.{SetupConfig, get}
use java_io_tserver.Cripter.Session.{decrypt, encrypt}
use java_io_tserver.MachineTime.Day.{seconds_of_day, set_channels}
use java_io_tserver.MachineTime.Store.{Sqlite}
use java_io_tserver.MachineTime.Device.{MachineTime, back, set_back, new_session}

unfoldable pub four_bytes_to_int : Bytes → ℕ → ℤ
four_bytes_to_int bytes offset =
    let b0 = get_or bytes (offset * 4) 0 in
    let b1 = get_or bytes (offset * 4 + 1) 0 in
    let b2 = get_or bytes (offset * 4 + 2) 0 in
    let b3 = get_or bytes (offset * 4 + 3) 0 in
    to_i32 (bit_or (bit_or (bit_or b0 (b1 * 2 ^ 8)) (b2 * 2 ^ 16)) (b3 * 2 ^ 24))

-- The times of `n` channels from channel `i` on; word 11 is the flag of a new session.
unfoldable pub packet_times : ℕ → ℕ → Bytes → List ℤ
packet_times zero i packet = []
packet_times (suc n) i packet =
    shift_right (four_bytes_to_int packet (if ltb i 11 then i else i + 1)) 8
    ∷ packet_times n (suc i) packet

unfoldable pub reply : Bytes → MachineTime → Bytes × MachineTime
reply text m = let (out, c) = encrypt text m.cripter in (out, record m { cripter = c })

-- `set` from the second of the day on.
unfoldable pub take_times : ℤ → List ℤ → MachineTime → MachineTime
take_times sec ts m =
    let last = back m.month in
    let (ss, ds) = set_channels sec ts m.this_session.channels last.channels in
    record m {
      this_session = record m.this_session { time = sec; channels = ss };
      month = set_back (record last { channels = ds }) m.month;
    }

module _ {S : Type 0} (sql : Sqlite S) (gmtime : ℤ → ℤ × ℤ) (s : SetupConfig) (now : ℤ) where
  -- `set` with a message of the right size.
  unfoldable pub set_packet : Bytes → MachineTime → Option S → MachineTime × Option S
  set_packet packet m db =
      let (m', db') =
        if four_bytes_to_int packet 11 ==ℤ pos 0
        then (m, db)
        else new_session sql gmtime now m db in
      (take_times (rem (now +ℤ m'.tz_offset) seconds_of_day) (packet_times 19 0 packet) m', db')

  unfoldable pub set : Bytes → MachineTime → Option S → Bytes × MachineTime × Option S
  set value m db =
      let (packet, c) = decrypt s value m.cripter in
      let received = record m { cripter = c } in
      let (m', db') = set_packet packet received db in
      if not (length packet == 20 * 4)
      then (let (out, m'') = reply (codes "Invalid data size") received in (out, m'', db))
      else (let (out, m'') = reply (get s (codes "myStaticKeyResponce")) m' in (out, m'', db'))

-- `set_post` only takes the message as the key of the conversation.
unfoldable pub set_post : SetupConfig → Bytes → MachineTime → Bytes × MachineTime
set_post s value m =
    let (packet, c) = decrypt s value m.cripter in
    if length packet == 0
    then reply (codes "Invalid data size") (record m { cripter = c })
    else reply (get s (codes "myStaticKeyResponce")) (record m { cripter = c })
