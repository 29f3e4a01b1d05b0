-- ===== src/Media.antt =====
-- mmedia/base/Packet.h and Packet.cpp: the header of a media packet.
--
-- An integer of 32 bits stands as its bit pattern; the extension is a number, or there is none.
use turbo_multimedia_server.Common.{ℕ, ◌+◌, ◌-◌, ◌/◌, ◌%◌, ◌^◌, Bool, ◌&&◌, Option, none, ◌==◌}

pub record Packet : Type 0 where
  pub type_bits : ℕ
  pub size : ℕ
  pub index : ℕ
  pub timestamp : ℕ
  pub capacity : ℕ
  pub ext : Option ℕ

abbrev pub word_mod : ℕ
word_mod = 2 ^ 32

-- `sizeof(Packet)`, which is packed.
abbrev pub packet_header : ℕ
packet_header = 40

abbrev pub type_unknown : ℕ
type_unknown = 255

-- The bits of `kPacketTypeVideo`, `kPacketTypeKeyFrame` and `kPacketTypeIDR`.
abbrev pub has_bit : ℕ → ℕ → Bool
has_bit bits value = bits / value % 2 == 1

pub is_video : Packet → Bool
is_video p = has_bit p.type_bits 1

pub is_audio : Packet → Bool
is_audio p = p.type_bits == 2

pub is_meta : Packet → Bool
is_meta p = p.type_bits == 4

pub is_meta3 : Packet → Bool
is_meta3 p = p.type_bits == 8

pub is_key_frame : Packet → Bool
is_key_frame p = has_bit p.type_bits 16 && has_bit p.type_bits 1

pub is_idr : Packet → Bool
is_idr p = has_bit p.type_bits 32 && has_bit p.type_bits 16

pub whole_size : Packet → ℕ
whole_size p = (p.size + packet_header) % word_mod

pub space : Packet → ℕ
space p = (p.capacity + word_mod - p.size) % word_mod

pub set_packet_size : ℕ → Packet → Packet
set_packet_size len p = record p { size = len }

pub update_packet_size : ℕ → Packet → Packet
update_packet_size len p = record p { size = (p.size + len) % word_mod }

pub set_type : ℕ → Packet → Packet
set_type bits p = record p { type_bits = bits }

pub set_size : ℕ → Packet → Packet
set_size size p = record p { size = size }

pub set_index : ℕ → Packet → Packet
set_index index p = record p { index = index }

pub set_timestamp : ℕ → Packet → Packet
set_timestamp timestamp p = record p { timestamp = timestamp }

pub set_capacity : ℕ → Packet → Packet
set_capacity capacity p = record p { capacity = capacity }

pub set_ext : Option ℕ → Packet → Packet
set_ext ext p = record p { ext = ext }

-- `newPacket`: the capacity is set, the size is left at 0.
pub new_packet : ℕ → Packet
new_packet size = record {
  type_bits = type_unknown;
  size = 0;
  index = word_mod - 1;
  timestamp = 0;
  capacity = size;
  ext = none;
}
