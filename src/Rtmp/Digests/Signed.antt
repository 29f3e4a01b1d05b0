-- ===== src/Rtmp/Digests/Signed.antt =====
-- That each side of the RTMP handshake accepts the packet that the other one makes (mmedia/rtmp/
-- RtmpHandshake.cpp, `createC1S1` and `checkC1S1`).
use turbo_multimedia_server.Common.{
  ℕ, ◌+◌, ◌≡◌, refl, sym, ap, ◌∙◌, ◌≤◌, ◌<◌, Bool, true, false, not, List, [], ◌∷◌, some, length,
  drop, slice, splice, get_or, arith, length-splice, length-drop, ==_iff, get_or-splice_left,
  get_or-splice_right, get_or-splice_first, drop_one-splice, slice-splice_left, slice-splice_self,
  get_or-drop,
}
use turbo_multimedia_server.Rtmp.{
  Hmac, RtmpHandShake, packet_size, digest_length, rtmp_version, own_key, own_version, same_bytes,
  get_digest_offset, calculate_digest, verify_digest, create_c1s1, check_c1s1, check_digest,
}
use turbo_multimedia_server.Rtmp.Digests.{
  get_digest_offset_bounds, length-calculate_digest, verify_digest-splice,
}

-- The packet before the digest is put in, and before the version is.
abbrev plain : List ℕ → List ℕ
plain random = splice 1 (0 ∷ 0 ∷ 0 ∷ 0 ∷ []) (splice 0 (rtmp_version ∷ []) random)

abbrev versioned : Bool → List ℕ → List ℕ
versioned is_client random = splice 5 (own_version is_client) (plain random)

length-own_version : (b : Bool) → length (own_version b) ≡ 4
length-own_version true = refl
length-own_version false = refl

length-plain :
    (random : List ℕ) → length random ≡ packet_size + 1 → length (plain random) ≡ packet_size + 1
length-plain random h =
    let n = length-splice 0 (rtmp_version ∷ []) random (omega arith) in
    length-splice 1 (0 ∷ 0 ∷ 0 ∷ 0 ∷ []) (splice 0 (rtmp_version ∷ []) random) (omega (arith, n))
    ∙ n
    ∙ h

length-versioned :
    (b : Bool) (random : List ℕ)
    → length random ≡ packet_size + 1
    → length (versioned b random) ≡ packet_size + 1
length-versioned b random h =
    let n = length-plain random h in
    length-splice 5 (own_version b) (plain random) (omega (arith, n, length-own_version b)) ∙ n

-- The byte before the packet says the version of the protocol, which stays.
first-versioned :
    (b : Bool) (random : List ℕ)
    → length random ≡ packet_size + 1
    → get_or (versioned b random) 0 0 ≡ rtmp_version
first-versioned b random h =
    get_or-splice_left 5 (own_version b) (plain random) 0 0 (omega arith)
      (omega (arith, length-plain random h))
    ∙ get_or-splice_left 1 (0 ∷ 0 ∷ 0 ∷ 0 ∷ []) (splice 0 (rtmp_version ∷ []) random) 0 0
        (omega arith) (omega (arith, length-splice 0 (rtmp_version ∷ []) random (omega arith)))
    ∙ get_or-splice_first 0 rtmp_version [] random 0 (omega arith)

version-versioned :
    (b : Bool) (random : List ℕ)
    → length random ≡ packet_size + 1
    → slice 5 4 (versioned b random) ≡ own_version b
version-versioned b random h =
    ap (λ k. slice 5 k (versioned b random)) (sym (length-own_version b))
    ∙ slice-splice_self 5 (own_version b) (plain random)
        (omega (arith, length-plain random h, length-own_version b))

-- The place of the digest depends on four bytes, and so is the same wherever these are.
get_digest_offset_eq :
    (xs ys : List ℕ)
    → ((i : ℕ) → 8 ≤ i → i < 12 → get_or xs i 0 ≡ get_or ys i 0)
    → get_digest_offset xs 8 728 ≡ get_digest_offset ys 8 728
unfolding get_digest_offset
get_digest_offset_eq xs ys h = rw (
  h 8 (omega arith) (omega arith),
  h 9 (omega arith) (omega arith),
  h 10 (omega arith) (omega arith),
  h 11 (omega arith) (omega arith),
)

version_not_zero : (b : Bool) → same_bytes (own_version b) (0 ∷ 0 ∷ 0 ∷ 0 ∷ []) ≡ false
version_not_zero true = refl
version_not_zero false = refl

module _ (hmac : Hmac) (random : List ℕ) (size : length random ≡ packet_size + 1) (b : Bool) where
  offset : ℕ
  offset = get_digest_offset (drop 1 (plain random)) 8 728

  -- The packet without its first byte, as it is signed.
  body : List ℕ
  body = drop 1 (versioned b random)

  own_digest : List ℕ
  unfolding body offset
  own_digest = calculate_digest hmac body packet_size offset (own_key b)

  signed : List ℕ
  unfolding own_digest
  signed = splice (1 + offset) own_digest (versioned b random)

  offset_bounds : (12 ≤ offset) × (offset + digest_length ≤ packet_size)
  unfolding offset
  offset_bounds = omega (arith, get_digest_offset_bounds (drop 1 (plain random)))

  length-body : length body ≡ packet_size
  unfolding body
  length-body = omega (arith, length-drop 1 (versioned b random), length-versioned b random size)

  length-own_digest : length own_digest ≡ digest_length
  unfolding own_digest
  length-own_digest = length-calculate_digest hmac body packet_size offset (own_key b)

  body-signed : drop 1 signed ≡ splice offset own_digest body
  unfolding signed body
  body-signed =
      drop_one-splice offset own_digest (versioned b random)
        (omega (arith, length-versioned b random size))

  length-signed : length signed ≡ packet_size + 1
  unfolding signed
  length-signed =
      length-splice (1 + offset) own_digest (versioned b random)
        (omega (arith, length-own_digest, offset_bounds, length-versioned b random size))
      ∙ length-versioned b random size

  first-signed : get_or signed 0 0 ≡ rtmp_version
  unfolding signed
  first-signed =
      get_or-splice_left (1 + offset) own_digest (versioned b random) 0 0 (omega arith)
        (omega (arith, offset_bounds, length-versioned b random size))
      ∙ first-versioned b random size

  version-signed : slice 5 4 signed ≡ own_version b
  unfolding signed
  version-signed =
      slice-splice_left 5 4 (1 + offset) own_digest (versioned b random)
        (omega (arith, offset_bounds))
        (omega (arith, offset_bounds, length-versioned b random size))
      ∙ version-versioned b random size

  -- The four bytes that say where the digest stands are as they were.
  kept :
      (i : ℕ)
      → 8 ≤ i
      → i < 12
      → get_or (splice offset own_digest body) i 0 ≡ get_or (drop 1 (plain random)) i 0
  unfolding body
  kept i l h =
      get_or-splice_left offset own_digest body i 0 (omega (arith, offset_bounds))
        (omega (arith, offset_bounds, length-body))
      ∙ get_or-drop 1 (versioned b random) i 0
      ∙ get_or-splice_right 5 (own_version b) (plain random) (1 + i) 0
          (omega (arith, length-own_version b))
          (omega (arith, length-own_version b, length-plain random size))
      ∙ sym (get_or-drop 1 (plain random) i 0)

  offset-signed : get_digest_offset (drop 1 signed) 8 728 ≡ offset
  unfolding offset
  offset-signed =
      ap (λ l. get_digest_offset l 8 728) body-signed
      ∙ get_digest_offset_eq (splice offset own_digest body) (drop 1 (plain random)) kept

  verify-signed : verify_digest hmac (drop 1 signed) offset (own_key b) ≡ true
  unfolding own_digest
  verify-signed =
      ap (λ l. verify_digest hmac l offset (own_key b)) body-signed
      ∙ verify_digest-splice hmac body offset (own_key b) (omega (arith, offset_bounds))
          (omega (arith, offset_bounds)) length-body

  placed : slice offset digest_length (drop 1 signed) ≡ own_digest
  placed =
      ap (slice offset digest_length) body-signed
      ∙ ap (λ k. slice offset k (splice offset own_digest body)) (sym length-own_digest)
      ∙ slice-splice_self offset own_digest body
          (omega (arith, length-own_digest, offset_bounds, length-body))

  check-signed :
      (peer : RtmpHandShake)
      → peer.is_complex ≡ true
      → not peer.is_client ≡ b
      → check_c1s1 hmac signed peer ≡ (some offset, peer)
  unfolding check_c1s1 check_digest
  check-signed peer complex role = rw (
    (==_iff _ _).1 length-signed,
    (==_iff _ _).1 first-signed,
    version-signed,
    version_not_zero b,
    complex,
    role,
    offset-signed,
    verify-signed,
  )

create_c1s1-signed :
    (hmac : Hmac) (random : List ℕ) (size : length random ≡ packet_size + 1) (hs : RtmpHandShake)
    → hs.is_complex ≡ true
    → (create_c1s1 hmac random hs).c1s1 ≡ signed hmac random size hs.is_client
unfolding create_c1s1 signed body offset
create_c1s1-signed hmac random size hs complex = rw complex

digest-create_c1s1 :
    (hmac : Hmac) (random : List ℕ) (size : length random ≡ packet_size + 1) (hs : RtmpHandShake)
    → hs.is_complex ≡ true
    → (create_c1s1 hmac random hs).digest ≡ own_digest hmac random size hs.is_client
unfolding create_c1s1 own_digest body offset
digest-create_c1s1 hmac random size hs complex = rw complex

-- Each side accepts what the other one creates, in the complex handshake and whatever the random bytes
-- are, finds the digest where it was put, and stays in the complex handshake.
pub check_c1s1-create_c1s1 :
    (hmac : Hmac) (random : List ℕ) (hs peer : RtmpHandShake)
    → length random ≡ packet_size + 1
    → hs.is_complex ≡ true
    → peer.is_complex ≡ true
    → not peer.is_client ≡ hs.is_client
    → let created = create_c1s1 hmac random hs in
      let place = get_digest_offset (drop 1 created.c1s1) 8 728 in
      (check_c1s1 hmac created.c1s1 peer ≡ (some place, peer))
      × (slice place digest_length (drop 1 created.c1s1) ≡ created.digest)
check_c1s1-create_c1s1 hmac random hs peer size complex complex' role =
    rw
      (
        create_c1s1-signed hmac random size hs complex,
        digest-create_c1s1 hmac random size hs complex,
        offset-signed hmac random size hs.is_client,
      )
      (
        check-signed hmac random size hs.is_client peer complex' role,
        placed hmac random size hs.is_client,
      )

-- A packet has its size.
pub length-create_c1s1 :
    (hmac : Hmac) (random : List ℕ) (hs : RtmpHandShake)
    → length random ≡ packet_size + 1
    → hs.is_complex ≡ true
    → length (create_c1s1 hmac random hs).c1s1 ≡ packet_size + 1
length-create_c1s1 hmac random hs size complex =
    ap (λ l. length l) (create_c1s1-signed hmac random size hs complex)
    ∙ length-signed hmac random size hs.is_client
