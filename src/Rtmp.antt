-- ===== src/Rtmp.antt =====
-- mmedia/rtmp/RtmpHandshake.h and RtmpHandshake.cpp: the packets of the RTMP handshake.
--
-- OpenSSL's HMAC-SHA256 is a parameter, and so are the random bytes and the time. A byte is a number;
-- a pointer to a packet is the list of its bytes.
pub mod Machine
pub mod Digests
mod Tests
use turbo_multimedia_server.Common.{
  ℕ, ◌+◌, ◌-◌, ◌%◌, ◌≡◌, Bool, true, false, ◌&&◌, not, List, [], ◌∷◌, ◌++◌, Option, none, some,
  length, take, drop, slice, splice, get_or, leb, ◌==◌, if◌then◌else◌, be_bytes, replicate,
}

-- HMAC-SHA256 of a key and a message: 32 bytes, of the key and the message alone.
pub record Hmac : Type 0 where
  pub digest : List ℕ → List ℕ → List ℕ
  pub length_digest : (key message : List ℕ) → length (digest key message) ≡ 32

-- `RtmpHandshakeState`, in the source's order.
pub data State : Type 0 where
  init post_c0c1 wait_s0s1 post_c2 wait_s2 doing wait_c0c1 post_s0s1 post_s2 wait_c2 done : State

-- `kDigestLength` and `SHA256_DIGEST_LENGTH`, `kRtmpHandShakePacketSize`, `kRtmpVersion`.
abbrev pub digest_length : ℕ
digest_length = 32

abbrev pub packet_size : ℕ
packet_size = 1536

abbrev pub rtmp_version : ℕ
rtmp_version = 3

-- The connection is not part of the state: the operations say whether it is there.
pub record RtmpHandShake : Type 0 where
  pub is_client : Bool
  pub is_complex : Bool
  pub digest : List ℕ
  pub c1s1 : List ℕ
  pub c2s2 : List ℕ
  pub state : State

abbrev pub server_version : List ℕ
server_version = 0x0D ∷ 0x0E ∷ 0x0A ∷ 0x0D ∷ []

abbrev pub client_version : List ℕ
client_version = 0x0C ∷ 0x00 ∷ 0x0D ∷ 0x0E ∷ []

-- The open parts of the keys, which are all that the code uses: 36 and 30 bytes.
abbrev pub server_key : List ℕ
server_key =
    b'G' ∷ b'e' ∷ b'n' ∷ b'u' ∷ b'i' ∷ b'n' ∷ b'e' ∷ b' ' ∷ b'A' ∷ b'd' ∷ b'o' ∷ b'b' ∷ b'e' ∷ b' '
    ∷ b'F' ∷ b'l' ∷ b'a' ∷ b's' ∷ b'h' ∷ b' ' ∷ b'M' ∷ b'e' ∷ b'd' ∷ b'i' ∷ b'a' ∷ b' ' ∷ b'S'
    ∷ b'e' ∷ b'r' ∷ b'v' ∷ b'e' ∷ b'r' ∷ b' ' ∷ b'0' ∷ b'0' ∷ b'1' ∷ []

abbrev pub player_key : List ℕ
player_key =
    b'G' ∷ b'e' ∷ b'n' ∷ b'u' ∷ b'i' ∷ b'n' ∷ b'e' ∷ b' ' ∷ b'A' ∷ b'd' ∷ b'o' ∷ b'b' ∷ b'e' ∷ b' '
    ∷ b'F' ∷ b'l' ∷ b'a' ∷ b's' ∷ b'h' ∷ b' ' ∷ b'P' ∷ b'l' ∷ b'a' ∷ b'y' ∷ b'e' ∷ b'r' ∷ b' '
    ∷ b'0' ∷ b'0' ∷ b'1' ∷ []

-- The key with which a side signs its own packets.
abbrev pub own_key : Bool → List ℕ
own_key true = player_key
own_key false = server_key

abbrev pub own_version : Bool → List ℕ
own_version true = client_version
own_version false = server_version

-- `memcmp(…) == 0`.
abbrev pub same_bytes : List ℕ → List ℕ → Bool
same_bytes [] [] = true
same_bytes [] (d ∷ ds) = false
same_bytes (c ∷ cs) [] = false
same_bytes (c ∷ cs) (d ∷ ds) = c == d && same_bytes cs ds

-- `GetDigestOffset`.
pub get_digest_offset : List ℕ → ℕ → ℕ → ℕ
get_digest_offset buf off mod_val =
    let offset =
      get_or buf off 0 + get_or buf (off + 1) 0 + get_or buf (off + 2) 0 + get_or buf (off + 3) 0 in
    offset % mod_val + (off + 4)

-- The constructor. The digest, which the source leaves uninitialised, starts as zeros.
pub new : Bool → RtmpHandShake
new is_client = record {
  is_client = is_client;
  is_complex = true;
  digest = replicate digest_length 0;
  c1s1 = replicate (packet_size + 1) 0;
  c2s2 = replicate packet_size 0;
  state = init;
}

-- The operations on packets, with the HMAC that they use.
module _ (hmac : Hmac) where
  -- `CalculateDigest`, with what it writes to `dst` as its result.
  pub calculate_digest : List ℕ → ℕ → ℕ → List ℕ → List ℕ
  calculate_digest src len gap key =
      if leb gap 0
      then hmac.digest key (take len src)
      else hmac.digest key
          (take gap src ++ slice (gap + digest_length) (len - gap - digest_length) src)

  -- `VerifyDigest`.
  pub verify_digest : List ℕ → ℕ → List ℕ → Bool
  verify_digest buf digest_pos key =
      same_bytes (slice digest_pos digest_length buf)
        (calculate_digest buf packet_size digest_pos key)

  -- `createC1S1`; `random` holds what `genRandom` gave for each byte.
  pub create_c1s1 : List ℕ → RtmpHandShake → RtmpHandShake
  create_c1s1 random hs =
      let plain = splice 1 (0 ∷ 0 ∷ 0 ∷ 0 ∷ []) (splice 0 (rtmp_version ∷ []) random) in
      if not hs.is_complex
      then record hs { c1s1 = splice 5 (0 ∷ 0 ∷ 0 ∷ 0 ∷ []) plain }
      else let offset = get_digest_offset (drop 1 plain) 8 728 in
        let versioned = splice 5 (own_version hs.is_client) plain in
        let digest =
          calculate_digest (drop 1 versioned) packet_size offset (own_key hs.is_client) in
        record hs { c1s1 = splice (1 + offset) digest versioned; digest = digest }

  -- The two places where `checkC1S1` looks for the digest.
  check_digest : List ℕ → List ℕ → Option ℕ
  check_digest handshake key =
      let first = get_digest_offset handshake 8 728 in
      let second = get_digest_offset handshake (764 + 8) 728 in
      if verify_digest handshake first key
      then some first
      else if verify_digest handshake second key
      then some second
      else none

  -- `checkC1S1`: a negative result is `none`. A packet that says version 0 makes the handshake simple;
  -- another one then has no offset, and the -1 of `offset` is returned.
  pub check_c1s1 : List ℕ → RtmpHandShake → Option ℕ × RtmpHandShake
  unfolding check_digest
  check_c1s1 packet hs =
      if not (length packet == packet_size + 1)
      then (none, hs)
      else if not (get_or packet 0 0 == rtmp_version)
      then (none, hs)
      else if same_bytes (slice 5 4 packet) (0 ∷ 0 ∷ 0 ∷ 0 ∷ [])
      then (some 0, record hs { is_complex = false })
      else if hs.is_complex
      then (check_digest (drop 1 packet) (own_key (not hs.is_client)), hs)
      else (none, hs)

  -- `createC2S2`. The key of the digest is made from this side's own digest.
  pub create_c2s2 : List ℕ → ℕ → List ℕ → RtmpHandShake → RtmpHandShake
  create_c2s2 random now packet hs =
      let stamped = splice 0 (be_bytes 4 now) (splice 0 (take 8 packet) random) in
      if not hs.is_complex
      then record hs { c2s2 = stamped }
      else let key = calculate_digest hs.digest 32 0 (own_key hs.is_client) in
        let digest = calculate_digest stamped (packet_size - 32) 0 key in
        record hs { c2s2 = splice (packet_size - 32) digest stamped }

-- `checkC2S2`.
pub check_c2s2 : List ℕ → Bool
check_c2s2 packet = true
