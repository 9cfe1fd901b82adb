-- ===== src/Packet.antt =====
-- chrome_gcc/src/packet/{packet, packet_maker, packet_parser}, common/utils.cc and common/defs.h: the
-- packets as texts of decimal fields. A text is its character codes up to the NUL that ends it.

pub mod Number
pub mod Fields
pub mod RoundTrip
mod Tests
use gcc_chrome.Common.{
  ℕ, zero, suc, ◌+◌, ◌-◌, ◌*◌, ◌/◌, ◌%◌, ◌^◌, Bool, true, false, List, [], ◌∷◌, ◌++◌, ltb, leb,
  ◌==◌, ◌&&◌, ◌||◌, if◌then◌else◌,
}
use gcc_chrome.Common.Int.{pos, int64, to_u64}
use gcc_chrome.Common.Lists.{length, take, drop, replicate}
use gcc_chrome.Common.Result.{Result, ok, err, ◌>>=◌, ◌>>◌, guard}
use gcc_chrome.Unit.{Timestamp, DataRate}

abbrev pub Text : Type 0
Text = List ℕ

pub data PacketType : Type 0 where
  data_type rr_type remb_type : PacketType

-- `paused`: the program waits for a signal that never comes. The others are C++ exceptions.
pub data ParseError : Type 0 where
  paused invalid_argument out_of_range : ParseError

-- The lengths of defs.h
abbrev pub default_packet_size : ℕ
default_packet_size = 1472

abbrev pub type_len : ℕ
type_len = 2

abbrev pub packet_number_len : ℕ
packet_number_len = 10

abbrev pub time_string_len : ℕ
time_string_len = 15

abbrev pub data_padding_len : ℕ
data_padding_len =
    default_packet_size - type_len - packet_number_len - time_string_len - packet_number_len - 1

pub record DataPacket : Type 0 where
  pub sequence_number : ℕ
  pub size : ℕ
  pub send_time : Timestamp

pub record RrPacket : Type 0 where
  pub start_time : Timestamp
  pub end_time : Timestamp
  pub packets_lost_delta : ℕ
  pub packets_received_delta : ℕ

pub record RembPacket : Type 0 where
  pub bandwidth : DataRate

abbrev pub new_data_packet : DataPacket
new_data_packet = record { sequence_number = 0; size = default_packet_size; send_time = pos 0 }

abbrev pub new_rr_packet : RrPacket
new_rr_packet = record {
  start_time = pos 0;
  end_time = pos 0;
  packets_lost_delta = 0;
  packets_received_delta = 0;
}

abbrev pub new_remb_packet : RembPacket
new_remb_packet = record { bandwidth = pos 0 }

-- std::to_string: a uint64_t has at most 20 digits.
unfoldable pub digits : ℕ → ℕ → Text
digits zero n = []
digits (suc fuel) n =
    let rest = digits fuel (n / 10) in
    if ltb n 10 then (n + 48) ∷ [] else rest ++ ((n % 10 + 48) ∷ [])

unfoldable pub to_string : ℕ → Text
to_string number = digits 20 number

-- A C string up to its closing NUL.
unfoldable pub before_nul : Text → Text
before_nul [] = []
before_nul (c ∷ cs) = let rest = before_nul cs in if c == 0 then [] else c ∷ rest

-- The cells that are written: zeros, with the digits over their end if they fit, and the closing NUL
-- at `c[len]`. The source allocates `len` cells, so that the last one is outside, which C++ leaves
-- undefined; here the cell after the allocated ones is free.
unfoldable pub written_cells : ℕ → ℕ → Text
written_cells number len =
    let s = to_string number in
    (if leb (length s) len then take (len - length s) (replicate len 48) ++ s else replicate len 48)
    ++ 0 ∷ []

unfoldable pub number_to_fix_len_string : ℕ → ℕ → Text
number_to_fix_len_string number len = before_nul (written_cells number len)

unfoldable pub packet_type_to_string : PacketType → Text
packet_type_to_string data_type = 48 ∷ 48 ∷ []
packet_type_to_string rr_type = 48 ∷ 49 ∷ []
packet_type_to_string remb_type = 49 ∷ 48 ∷ []

unfoldable pub equal_text : Text → Text → Bool
equal_text [] [] = true
equal_text (x ∷ xs) (y ∷ ys) = x == y && equal_text xs ys
equal_text _ _ = false

unfoldable pub string_to_packet_type : Text → Result ParseError PacketType
string_to_packet_type s =
    if equal_text s (packet_type_to_string data_type)
    then ok data_type
    else if equal_text s (packet_type_to_string rr_type)
    then ok rr_type
    else if equal_text s (packet_type_to_string remb_type)
    then ok remb_type
    else err paused

-- `Serialize`
unfoldable pub serialize_data : DataPacket → Text
serialize_data p =
    packet_type_to_string data_type
    ++ (number_to_fix_len_string p.sequence_number packet_number_len
        ++ (number_to_fix_len_string (to_u64 p.send_time) time_string_len
            ++ (number_to_fix_len_string p.size packet_number_len
                ++ number_to_fix_len_string 0 data_padding_len)))

unfoldable pub serialize_rr : RrPacket → Text
serialize_rr p =
    packet_type_to_string rr_type
    ++ (number_to_fix_len_string (to_u64 p.start_time) time_string_len
        ++ (number_to_fix_len_string (to_u64 p.end_time) time_string_len
            ++ (number_to_fix_len_string p.packets_lost_delta packet_number_len
                ++ number_to_fix_len_string p.packets_received_delta packet_number_len)))

unfoldable pub serialize_remb : RembPacket → Text
serialize_remb p =
    packet_type_to_string remb_type
    ++ number_to_fix_len_string (to_u64 p.bandwidth) packet_number_len

-- std::string::substr
unfoldable pub substr : Text → ℕ → ℕ → Result ParseError Text
substr s start n = do guard (leb start (length s)) out_of_range; ok (take n (drop start s))

abbrev pub is_digit : ℕ → Bool
is_digit c = leb 48 c && ltb c 58

abbrev pub is_space : ℕ → Bool
is_space c = c == 32 || (leb 9 c && leb c 13)

-- The number that the digits at the front of a text spell, after one that was read already.
unfoldable pub read_digits : ℕ → Text → ℕ
read_digits n [] = n
read_digits n (c ∷ cs) =
    let rest = read_digits (n * 10 + (c - 48)) cs in if is_digit c then rest else n

unfoldable pub read_number : Text → Result ParseError ℕ
read_number [] = err invalid_argument
read_number (c ∷ cs) = do
  guard (is_digit c) invalid_argument
  guard (ltb (read_digits 0 (c ∷ cs)) (2 ^ 64)) out_of_range
  ok (read_digits 0 (c ∷ cs))

-- std::stoul: a minus sign negates the number in 64 bits.
unfoldable pub read_signed : Text → Result ParseError ℕ
read_signed [] = read_number []
read_signed (c ∷ cs) =
    if c == 43
    then read_number cs
    else if c == 45
    then (read_number cs >>= λ n. ok ((2 ^ 64 - n) % 2 ^ 64))
    else read_number (c ∷ cs)

unfoldable pub stoul : Text → Result ParseError ℕ
stoul [] = read_signed []
stoul (c ∷ cs) = let rest = stoul cs in if is_space c then rest else read_signed (c ∷ cs)

-- `PacketParser`
unfoldable pub get_type : Text → Result ParseError PacketType
get_type s = substr s 0 type_len >>= string_to_packet_type

unfoldable pub field : Text → ℕ → ℕ → Result ParseError ℕ
field s start n = substr s start n >>= stoul

unfoldable pub un_serialize_data_as : Text → DataPacket → PacketType → Result ParseError DataPacket
un_serialize_data_as s p data_type = do
  number ← field s type_len packet_number_len
  time ← field s (type_len + packet_number_len) time_string_len
  size ← field s (type_len + packet_number_len + time_string_len) packet_number_len
  ok (record { sequence_number = number; size = size; send_time = int64 (pos time) })
un_serialize_data_as s p _ = ok p

unfoldable pub un_serialize_data : Text → DataPacket → Result ParseError DataPacket
un_serialize_data s p = get_type s >>= un_serialize_data_as s p

unfoldable pub un_serialize_rr_as : Text → RrPacket → PacketType → Result ParseError RrPacket
un_serialize_rr_as s p rr_type = do
  start ← field s type_len time_string_len
  end ← field s (type_len + time_string_len) time_string_len
  lost ← field s (type_len + 2 * time_string_len) packet_number_len
  received ← field s (type_len + 2 * time_string_len + packet_number_len) packet_number_len
  ok (record {
    start_time = int64 (pos start);
    end_time = int64 (pos end);
    packets_lost_delta = lost;
    packets_received_delta = received;
  })
un_serialize_rr_as s p _ = ok p

unfoldable pub un_serialize_rr : Text → RrPacket → Result ParseError RrPacket
un_serialize_rr s p = get_type s >>= un_serialize_rr_as s p

unfoldable pub un_serialize_remb_as : Text → RembPacket → PacketType → Result ParseError RembPacket
un_serialize_remb_as s p remb_type = do
  rate ← field s type_len packet_number_len
  ok (record { bandwidth = int64 (pos rate) })
un_serialize_remb_as s p _ = ok p

unfoldable pub un_serialize_remb : Text → RembPacket → Result ParseError RembPacket
un_serialize_remb s p = get_type s >>= un_serialize_remb_as s p

-- `GCCDataPacketMaker`: its state is `recent_packet_number_`; the template's size is never changed.
unfoldable pub make_data_packet : ℕ → DataPacket × ℕ
make_data_packet recent_packet_number =
    let number = (recent_packet_number + 1) % 2 ^ 64 in
    (record new_data_packet { sequence_number = number }, number)

-- `GCCRRPacketMaker`
unfoldable pub make_rr_packet : Timestamp → Timestamp → ℕ → ℕ → RrPacket
make_rr_packet start end lost received = record {
  start_time = start;
  end_time = end;
  packets_lost_delta = lost;
  packets_received_delta = received;
}
