-- ===== src/Rtmp/Digests.antt =====
-- The digests of the RTMP handshake (mmedia/rtmp/RtmpHandshake.cpp): where they stand in a packet, and
-- that each side accepts the packet that the other one makes.
pub mod Signed
use turbo_multimedia_server.Common.{
  ℕ, ◌+◌, ◌-◌, ◌≡◌, refl, sym, ap, ◌∙◌, ◌≤◌, ◌<◌, Bool, true, false, not, List, [], ◌∷◌, some,
  length, drop, slice, splice, get_or, leb, arith, length-splice, length-drop, inl, inr, Bool-cases,
  ==_iff, get_or-splice_left, get_or-splice_right, get_or-splice_first, drop_one-splice,
  slice-splice_left, slice-splice_right, slice-splice_self, get_or-drop, lt→not-leb,
}
use turbo_multimedia_server.Rtmp.{
  Hmac, RtmpHandShake, packet_size, digest_length, rtmp_version, own_key, own_version, same_bytes,
  get_digest_offset, calculate_digest, verify_digest, create_c1s1, check_c1s1, check_digest,
}

-- Wherever `GetDigestOffset` says that the digest of a packet is, in either of the two formats, it lies
-- in its block of 764 bytes, and so inside the packet.
pub get_digest_offset_bounds :
    (packet : List ℕ)
    → let first = get_digest_offset packet 8 728 in
      let second = get_digest_offset packet (764 + 8) 728 in
      (8 + 4 ≤ first)
      × (first + digest_length ≤ 8 + 764)
      × (8 + 764 + 4 ≤ second)
      × (second + digest_length ≤ packet_size)
unfolding get_digest_offset
get_digest_offset_bounds packet = omega arith

same_bytes_self : (cs : List ℕ) → same_bytes cs cs ≡ true
same_bytes_self [] = refl
same_bytes_self (c ∷ cs) = rw (same_bytes_self cs) (ground arith)

module _ (hmac : Hmac) where
  pub length-calculate_digest :
      (src : List ℕ) (len gap : ℕ) (key : List ℕ)
      → length (calculate_digest hmac src len gap key) ≡ digest_length
  unfolding calculate_digest
  length-calculate_digest src len gap key = elim (Bool-cases (leb gap 0)) [
    | inl e ↦ rw e (hmac.length_digest _ _)
    | inr e ↦ rw e (hmac.length_digest _ _)
  ]

  -- The digest does not depend on the bytes at its own place.
  calculate_digest-splice :
      (src d : List ℕ) (gap : ℕ) (key : List ℕ)
      → 0 < gap
      → length d ≡ digest_length
      → gap + digest_length ≤ packet_size
      → length src ≡ packet_size
      → calculate_digest hmac (splice gap d src) packet_size gap key
        ≡ calculate_digest hmac src packet_size gap key
  unfolding calculate_digest
  calculate_digest-splice src d gap key pos n fits size = rw (
    lt→not-leb _ _ pos,
    slice-splice_left 0 gap gap d src (omega arith) (omega arith),
    slice-splice_right (gap + digest_length) (packet_size - gap - digest_length) gap d src
        (omega arith) (omega arith),
  )

  -- A packet whose digest was put in its place is verified.
  verify_digest-splice :
      (src : List ℕ) (gap : ℕ) (key : List ℕ)
      → 0 < gap
      → gap + digest_length ≤ packet_size
      → length src ≡ packet_size
      → verify_digest hmac (splice gap (calculate_digest hmac src packet_size gap key) src) gap key
        ≡ true
  unfolding verify_digest
  verify_digest-splice src gap key pos fits size =
      rw (calculate_digest-splice src d gap key pos n fits size, part) (same_bytes_self d)
    where
      d : List ℕ
      d = calculate_digest hmac src packet_size gap key

      n : length d ≡ digest_length
      n = length-calculate_digest src packet_size gap key

      part : slice gap digest_length (splice gap d src) ≡ d
      part =
          ap (λ k. slice gap k (splice gap d src)) (sym n)
          ∙ slice-splice_self gap d src (omega (arith, n))
