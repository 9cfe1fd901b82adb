-- ===== src/Packet/RoundTrip.antt =====
-- What one end of the program writes, the other reads back.
use gcc_chrome.Common.{ℕ, ◌+◌, ◌*◌, ◌^◌, ◌<◌, ◌≤◌, ◌≡◌, refl, ap, ◌∙◌, ◌++◌, arith}
use gcc_chrome.Common.Int.{ℤ, pos, pos_part, neg_part, int64, to_u64}
use gcc_chrome.Common.Lists.{length, length-append}
use gcc_chrome.Common.Result.{ok, ◌>>=◌}
use gcc_chrome.Unit.{DataRate}
use gcc_chrome.Packet.{
  Text, PacketType, data_type, rr_type, remb_type, DataPacket, RrPacket, RembPacket, type_len,
  packet_number_len, time_string_len, data_padding_len, default_packet_size, packet_type_to_string,
  string_to_packet_type, equal_text, number_to_fix_len_string, get_type, serialize_data,
  serialize_rr, serialize_remb, un_serialize_data, un_serialize_rr, un_serialize_remb,
  un_serialize_data_as, un_serialize_rr_as, un_serialize_remb_as, new_remb_packet,
}
use gcc_chrome.Packet.Number.{
  pow10, number_to_fix_len_string-IsField, stoul-number_to_fix_len_string, stoul-shown, shown,
}
use gcc_chrome.Packet.Fields.{field-skip, substr-first, field-first, field-last}

-- A time that 15 digits can show, as microseconds: some 31 years.
abbrev pub FitsTime : ℤ → Type 0
FitsTime t = (neg_part t ≡ 0) × (pos_part t < 10 ^ 15)

-- A bit rate that 10 digits can show.
abbrev pub FitsRate : ℤ → Type 0
FitsRate r = (neg_part r ≡ 0) × (pos_part r < 10 ^ 10)

-- A count that 10 digits can show.
abbrev pub FitsNumber : ℕ → Type 0
FitsNumber n = n < 10 ^ 10

field_length : (n len : ℕ) → length (number_to_fix_len_string n len) ≡ len
field_length n len = (number_to_fix_len_string-IsField n len).1

type_length : (t : PacketType) → length (packet_type_to_string t) ≡ type_len
unfolding packet_type_to_string
type_length data_type = refl
type_length rr_type = refl
type_length remb_type = refl

-- `string_to_packet_type` undoes `packet_type_to_string`.
pub string_to_packet_type-packet_type_to_string :
    (t : PacketType) → string_to_packet_type (packet_type_to_string t) ≡ ok t
unfolding string_to_packet_type packet_type_to_string equal_text
string_to_packet_type-packet_type_to_string data_type = refl
string_to_packet_type-packet_type_to_string rr_type = refl
string_to_packet_type-packet_type_to_string remb_type = refl

get_type-append : (t : PacketType) (s : Text) → get_type (packet_type_to_string t ++ s) ≡ ok t
unfolding get_type
get_type-append t s =
    ap (λ r. r >>= string_to_packet_type)
      (substr-first (packet_type_to_string t) s type_len (type_length t))
    ∙ string_to_packet_type-packet_type_to_string t

pub get_type-serialize_data : (p : DataPacket) → get_type (serialize_data p) ≡ ok data_type
unfolding serialize_data
get_type-serialize_data p = get_type-append data_type _

time_eq :
    (t : ℤ)
    → FitsTime t
    → (to_u64 t < 2 ^ 64) × (to_u64 t < pow10 15) × (int64 (pos (to_u64 t)) ≡ t)
unfolding to_u64 int64
time_eq t h = ground arith

rate_eq :
    (r : ℤ)
    → FitsRate r
    → (to_u64 r < 2 ^ 64) × (to_u64 r < pow10 10) × (int64 (pos (to_u64 r)) ≡ r)
unfolding to_u64 int64
rate_eq r h = ground arith

to_u64_bound : (z : ℤ) → to_u64 z < 2 ^ 64
unfolding to_u64
to_u64_bound z = ground arith

-- What the sender reads of a bit rate, whatever the rate is: one of more than 10 digits is 0.
abbrev pub read_rate : DataRate → DataRate
read_rate rate = pos (shown 9 (to_u64 rate))

read_rate_lem : (n : ℕ) → int64 (pos (shown 9 n)) ≡ pos (shown 9 n)
unfolding shown int64
read_rate_lem n = ground arith

read_rate-fits : (r : ℤ) → FitsRate r → read_rate r ≡ r
unfolding shown to_u64
read_rate-fits r fits = ground arith

read_rate-overflow : (r : ℤ) → 10 ^ 10 ≤ to_u64 r → read_rate r ≡ pos 0
unfolding shown
read_rate-overflow r big = ground arith

pub un_serialize_remb-read_rate :
    (p q : RembPacket)
    → un_serialize_remb (serialize_remb p) q ≡ ok (record { bandwidth = read_rate p.bandwidth })
unfolding un_serialize_remb serialize_remb un_serialize_remb_as
un_serialize_remb-read_rate p q =
    let tag = packet_type_to_string remb_type in
    let rate = number_to_fix_len_string (to_u64 p.bandwidth) packet_number_len in
    rw
      (
        get_type-append remb_type rate,
        field-skip tag rate type_len 0 packet_number_len (type_length remb_type),
        field-last rate packet_number_len (field_length _ _),
        stoul-shown (to_u64 p.bandwidth) 9 (omega arith) (omega arith),
        read_rate_lem (to_u64 p.bandwidth),
      )
      refl

-- A bit rate that fits comes through: what the sender reads is what the receiver estimated.
pub un_serialize-serialize_remb :
    (p q : RembPacket) → FitsRate p.bandwidth → un_serialize_remb (serialize_remb p) q ≡ ok p
un_serialize-serialize_remb p q fits =
    un_serialize_remb-read_rate p q
    ∙ ap (λ b. ok (record { bandwidth = b })) (read_rate-fits p.bandwidth fits)

pub un_serialize-serialize_remb_overflow :
    (p q : RembPacket)
    → 10 ^ 10 ≤ to_u64 p.bandwidth
    → un_serialize_remb (serialize_remb p) q ≡ ok new_remb_packet
un_serialize-serialize_remb_overflow p q big =
    un_serialize_remb-read_rate p q
    ∙ ap (λ b. ok (record { bandwidth = b })) (read_rate-overflow p.bandwidth big)

pub get_type-serialize_rr : (p : RrPacket) → get_type (serialize_rr p) ≡ ok rr_type
unfolding serialize_rr
get_type-serialize_rr p = get_type-append rr_type _

pub get_type-serialize_remb : (p : RembPacket) → get_type (serialize_remb p) ≡ ok remb_type
unfolding serialize_remb
get_type-serialize_remb p = get_type-append remb_type _

-- A data packet comes through, to the packet it is read into.
pub un_serialize-serialize_data :
    (p q : DataPacket)
    → FitsNumber p.sequence_number
    → FitsTime p.send_time
    → FitsNumber p.size
    → un_serialize_data (serialize_data p) q ≡ ok p
unfolding un_serialize_data serialize_data un_serialize_data_as
un_serialize-serialize_data p q fits_number fits_time fits_size =
    let tag = packet_type_to_string data_type in
    let number = number_to_fix_len_string p.sequence_number packet_number_len in
    let time = number_to_fix_len_string (to_u64 p.send_time) time_string_len in
    let size = number_to_fix_len_string p.size packet_number_len in
    let padding = number_to_fix_len_string 0 data_padding_len in
    let (small, range, same) = time_eq p.send_time fits_time in
    rw
      (
        get_type-append data_type (number ++ (time ++ (size ++ padding))),
        field-skip tag (number ++ (time ++ (size ++ padding))) type_len 0 packet_number_len
            (type_length data_type),
        field-first number (time ++ (size ++ padding)) packet_number_len (field_length _ _),
        stoul-number_to_fix_len_string p.sequence_number 9 (omega arith) fits_number,
        field-skip tag (number ++ (time ++ (size ++ padding))) type_len packet_number_len
            time_string_len (type_length data_type),
        field-skip number (time ++ (size ++ padding)) packet_number_len 0 time_string_len
            (field_length _ _),
        field-first time (size ++ padding) time_string_len (field_length _ _),
        stoul-number_to_fix_len_string (to_u64 p.send_time) 14 small range,
        field-skip tag (number ++ (time ++ (size ++ padding))) type_len
            (packet_number_len + time_string_len) packet_number_len (type_length data_type),
        field-skip number (time ++ (size ++ padding)) packet_number_len time_string_len
            packet_number_len (field_length _ _),
        field-skip time (size ++ padding) time_string_len 0 packet_number_len (field_length _ _),
        field-first size padding packet_number_len (field_length _ _),
        stoul-number_to_fix_len_string p.size 9 (omega arith) fits_size,
        same,
      )
      refl

-- What the sender reads of a loss report, whatever its fields hold.
abbrev pub read_report : RrPacket → RrPacket
read_report p = record {
  start_time = int64 (pos (shown 14 (to_u64 p.start_time)));
  end_time = int64 (pos (shown 14 (to_u64 p.end_time)));
  packets_lost_delta = shown 9 p.packets_lost_delta;
  packets_received_delta = shown 9 p.packets_received_delta;
}

pub un_serialize_rr-read_report :
    (p q : RrPacket) → un_serialize_rr (serialize_rr p) q ≡ ok (read_report p)
unfolding un_serialize_rr serialize_rr un_serialize_rr_as
un_serialize_rr-read_report p q =
    let tag = packet_type_to_string rr_type in
    let start = number_to_fix_len_string (to_u64 p.start_time) time_string_len in
    let end = number_to_fix_len_string (to_u64 p.end_time) time_string_len in
    let lost = number_to_fix_len_string p.packets_lost_delta packet_number_len in
    let received = number_to_fix_len_string p.packets_received_delta packet_number_len in
    let tagged = type_length rr_type in
    rw
      (
        get_type-append rr_type (start ++ (end ++ (lost ++ received))),
        field-skip tag (start ++ (end ++ (lost ++ received))) type_len 0 time_string_len tagged,
        field-first start (end ++ (lost ++ received)) time_string_len (field_length _ _),
        stoul-shown (to_u64 p.start_time) 14 (omega arith) (omega arith),
        field-skip tag (start ++ (end ++ (lost ++ received))) type_len time_string_len
            time_string_len tagged,
        field-skip start (end ++ (lost ++ received)) time_string_len 0 time_string_len
            (field_length _ _),
        field-first end (lost ++ received) time_string_len (field_length _ _),
        stoul-shown (to_u64 p.end_time) 14 (omega arith) (omega arith),
        field-skip tag (start ++ (end ++ (lost ++ received))) type_len (2 * time_string_len)
            packet_number_len tagged,
        field-skip start (end ++ (lost ++ received)) time_string_len time_string_len
            packet_number_len (field_length _ _),
        field-skip end (lost ++ received) time_string_len 0 packet_number_len (field_length _ _),
        field-first lost received packet_number_len (field_length _ _),
        stoul-shown p.packets_lost_delta 9 (omega arith) (omega arith),
        field-skip tag (start ++ (end ++ (lost ++ received))) type_len
            (2 * time_string_len + packet_number_len) packet_number_len tagged,
        field-skip start (end ++ (lost ++ received)) time_string_len
            (time_string_len + packet_number_len) packet_number_len (field_length _ _),
        field-skip end (lost ++ received) time_string_len packet_number_len packet_number_len
            (field_length _ _),
        field-skip lost received packet_number_len 0 packet_number_len (field_length _ _),
        field-last received packet_number_len (field_length _ _),
        stoul-shown p.packets_received_delta 9 (omega arith) (omega arith),
      )
      refl

read_time : (t : ℤ) → FitsTime t → int64 (pos (shown 14 (to_u64 t))) ≡ t
unfolding shown to_u64 int64
read_time t fits = ground arith

read_count : (n : ℕ) → FitsNumber n → shown 9 n ≡ n
unfolding shown
read_count n fits = ground arith

-- A loss report comes through.
pub un_serialize-serialize_rr :
    (p q : RrPacket)
    → FitsTime p.start_time
    → FitsTime p.end_time
    → FitsNumber p.packets_lost_delta
    → FitsNumber p.packets_received_delta
    → un_serialize_rr (serialize_rr p) q ≡ ok p
un_serialize-serialize_rr p q fits_start fits_end fits_lost fits_received =
    let same : read_report p ≡ p =
      rw
        (
          read_time p.start_time fits_start,
          read_time p.end_time fits_end,
          read_count p.packets_lost_delta fits_lost,
          read_count p.packets_received_delta fits_received,
        )
        refl in
    un_serialize_rr-read_report p q ∙ ap ok same

-- A data packet fills its datagram, less the byte for the NUL: its text has 1471 characters, whatever
-- the fields hold.
pub length-serialize_data : (p : DataPacket) → length (serialize_data p) + 1 ≡ default_packet_size
unfolding serialize_data
length-serialize_data p =
    let tag = packet_type_to_string data_type in
    let number = number_to_fix_len_string p.sequence_number packet_number_len in
    let time = number_to_fix_len_string (to_u64 p.send_time) time_string_len in
    let size = number_to_fix_len_string p.size packet_number_len in
    let padding = number_to_fix_len_string 0 data_padding_len in
    omega (
      arith,
      type_length data_type,
      field_length p.sequence_number packet_number_len,
      field_length (to_u64 p.send_time) time_string_len,
      field_length p.size packet_number_len,
      field_length 0 data_padding_len,
      length-append tag (number ++ (time ++ (size ++ padding))),
      length-append number (time ++ (size ++ padding)),
      length-append time (size ++ padding),
      length-append size padding,
    )
