-- ===== src/Rtmp/Tests.antt =====
-- Tests of the model of the RTMP handshake: its theorems at packets of equal bytes.
use turbo_multimedia_server.Common.{
  ◌<◌, take, ap, ◌∙◌, ◌++◌, append-nil, take-append-drop, ℕ, ◌+◌, ◌%◌, ◌≡◌, refl, ◌≤◌, ◌⊎◌, true,
  false, List, [], ◌∷◌, none, some, length, length-replicate, drop, slice, ok, arith, replicate,
}
use turbo_multimedia_server.Buffer.{MsgBuffer, readable_bytes}
use turbo_multimedia_server.Buffer.Valid.{IsValid}
use turbo_multimedia_server.Buffer.Content.{Holds, Retrieved}
use turbo_multimedia_server.Rtmp.{
  Hmac, State, RtmpHandShake, packet_size, digest_length, get_digest_offset, new, create_c1s1,
  check_c1s1, create_c2s2,
}
use turbo_multimedia_server.Rtmp.Digests.Signed.{check_c1s1-create_c1s1}
use turbo_multimedia_server.Rtmp.Machine.{Outside, failed, need_more, ok_so_far, finish, handshake}
use turbo_multimedia_server.Rtmp.Machine.Server.{front_packet, accepted_c0c1}
use turbo_multimedia_server.Rtmp.Machine.Accepts.{handshake_accepts}
use turbo_multimedia_server.Rtmp.Machine.Pieces.{feed, feed_c0c1}
use turbo_multimedia_server.Rtmp.Machine.Exchange.{
  joined, Parties, exchange, AreDone, exchange-AreDone,
}
use turbo_multimedia_server.Rtmp.Machine.{Outcome}
use turbo_multimedia_server.Rtmp.Machine.Server.{later, pending}
use turbo_multimedia_server.Rtmp.Machine.Late.{handshake_late}

-- A function of the lengths alone.
abbrev lengths : Hmac
lengths = record {
  digest = λ key message. replicate 32 ((length key + length message) % 256);
  length_digest = λ key message. length-replicate {A = ℕ} 32 ((length key + length message) % 256);
}

abbrev noise : List ℕ
noise = replicate (packet_size + 1) 3

abbrev server : RtmpHandShake
server = new false

abbrev client : RtmpHandShake
client = new true

-- A packet of 1537 bytes, all 3, and the room for one more byte.
abbrev full : MsgBuffer
full = record { buffer = replicate 1546 3; reader_index = 8; writer_index = 1545 }

full-IsValid : IsValid full
full-IsValid =
    let n : length (replicate {A = ℕ} 1546 3) ≡ 1546 = length-replicate {A = ℕ} 1546 3 in
    record {
      reserve = omega (arith, n);
      small = omega (arith, n);
      ordered = omega arith;
      within = omega (arith, n);
    }

-- The first write ends at once, the second later.
abbrev outside : Outside
outside = record { random = noise; now = 1700000000; first = true ∷ []; second = [] }

check_c1s1-create_c1s1_example :
    let created = create_c1s1 lengths noise client in
    let place = get_digest_offset (drop 1 created.c1s1) 8 728 in
    (check_c1s1 lengths created.c1s1 server ≡ (some place, server))
    × (slice place digest_length (drop 1 created.c1s1) ≡ created.digest)
unfolding new
check_c1s1-create_c1s1_example =
    check_c1s1-create_c1s1 lengths noise client server (length-replicate {A = ℕ} 1537 3) refl refl
      refl

-- A server that waits for C0C1.
abbrev listening : RtmpHandShake
listening = record server { state = State.wait_c0c1 }

handshake_accepts_example :
    let packet = front_packet (packet_size + 1) full in
    let checked = check_c1s1 lengths packet listening in
    let made = create_c2s2 lengths outside.random outside.now (drop 1 packet) checked.1 in
    ((readable_bytes full < packet_size + 1)
      × (handshake lengths true outside full listening
          ≡ ok (finish need_more full (listening, []))))
    ⊎ ((packet_size + 1 ≤ readable_bytes full)
        × (((checked.0 ≡ none)
              × (handshake lengths true outside full listening
                  ≡ ok (finish failed full (checked.1, []))))
            ⊎ ((place : ℕ) × (out : Outcome) × (checked.0 ≡ some place)
                × (handshake lengths true outside full listening ≡ ok out)
                × (out.reply ≡ ok_so_far)
                × Retrieved (packet_size + 1) full out.buffer
                × (out.sent ++ (later (pending outside.first) out.peer).1
                    ≡ made.c1s1 ∷ made.c2s2 ∷ [])
                × ((later (pending outside.first) out.peer).0
                    ≡ record made { state = State.wait_c2 }))))
handshake_accepts_example = handshake_accepts lengths outside listening full-IsValid refl

-- A server that has sent S2.
abbrev answering : RtmpHandShake
answering = record server { state = State.wait_c2 }

-- A client that waits for S0S1.
abbrev waiting : RtmpHandShake
waiting = record client { state = State.wait_s0s1 }

-- The bytes of a C2S2 are fewer by one.
abbrev answers : Outside
answers = record outside { random = replicate packet_size 5 }

exchange-AreDone_example :
    (e : Parties) × (exchange lengths outside outside answers answers client server ≡ ok e)
    × AreDone e
unfolding new
exchange-AreDone_example =
    exchange-AreDone lengths outside outside answers answers client server refl refl refl refl
      (length-replicate {A = ℕ} 1537 3) (length-replicate {A = ℕ} 1537 3)
      (length-replicate {A = ℕ} 1536 5) (length-replicate {A = ℕ} 1536 5)

-- C0C1 of the client in two pieces.
abbrev c0c1 : List ℕ
c0c1 = (create_c1s1 lengths noise client).c1s1

abbrev pieces : List (List ℕ)
pieces = take 700 c0c1 ∷ drop 700 c0c1 ∷ []

abbrev bare : MsgBuffer
bare = record { buffer = replicate 1032 0; reader_index = 8; writer_index = 8 }

bare-Holds : Holds [] bare
bare-Holds =
    let n : length (replicate {A = ℕ} 1032 0) ≡ 1032 = length-replicate {A = ℕ} 1032 0 in
    record {
      valid = record {
        reserve = omega (arith, n);
        small = omega (arith, n);
        ordered = omega arith;
        within = omega (arith, n);
      };
      bytes = refl;
    }

joined-pieces : joined pieces ≡ c0c1
joined-pieces =
    ap (λ l. take 700 c0c1 ++ l) (append-nil (drop 700 c0c1)) ∙ take-append-drop 700 c0c1

feed_c0c1_example :
    (b' : MsgBuffer) × (feed lengths outside pieces bare listening
      ≡ ok (accepted_c0c1 lengths outside b' c0c1 listening))
    × Holds [] b'
unfolding new
feed_c0c1_example =
    feed_c0c1 lengths outside listening client noise pieces refl refl refl refl
      (length-replicate {A = ℕ} 1537 3) joined-pieces bare-Holds (omega arith)

-- S0S1 of a server that asks for the plain handshake, and an S2.
abbrev plain_s0s1 : List ℕ
plain_s0s1 = 3 ∷ replicate 1536 0

abbrev s2_bytes : List ℕ
s2_bytes = replicate 1536 5

abbrev with_s0s1 : MsgBuffer
with_s0s1 = record { buffer = replicate 8 0 ++ plain_s0s1; reader_index = 8; writer_index = 1545 }

abbrev with_s2 : MsgBuffer
with_s2 = record { buffer = replicate 8 0 ++ s2_bytes; reader_index = 8; writer_index = 1544 }

length-plain_s0s1 : length plain_s0s1 ≡ 1537
length-plain_s0s1 = ap (λ n. n + 1) (length-replicate {A = ℕ} 1536 0)

length-s2_bytes : length s2_bytes ≡ 1536
length-s2_bytes = length-replicate {A = ℕ} 1536 5

with_s0s1-Holds : Holds plain_s0s1 with_s0s1
with_s0s1-Holds = record {
  valid = record {
    reserve = omega (arith, length-plain_s0s1);
    small = omega (arith, length-plain_s0s1);
    ordered = omega arith;
    within = omega (arith, length-plain_s0s1);
  };
  bytes = refl;
}

with_s2-Holds : Holds s2_bytes with_s2
with_s2-Holds = record {
  valid = record {
    reserve = omega (arith, length-s2_bytes);
    small = omega (arith, length-s2_bytes);
    ordered = omega arith;
    within = omega (arith, length-s2_bytes);
  };
  bytes = refl;
}

abbrev waiting_plain : RtmpHandShake
waiting_plain = record waiting { is_complex = false }

plain-accepted : check_c1s1 lengths plain_s0s1 waiting_plain ≡ (some 0, waiting_plain)
unfolding check_c1s1
plain-accepted = refl

handshake_late_example :
    let made = create_c2s2 lengths outside.random outside.now (drop 1 plain_s0s1) waiting_plain in
    (out : Outcome) × (out₂ : Outcome) × (handshake lengths true outside with_s0s1 waiting_plain
      ≡ ok out)
    × (out.sent ++ (later (pending outside.second) out.peer).1
        ≡ made.c2s2 ∷ made.c1s1 ∷ made.c2s2 ∷ [])
    × ((later (pending outside.second) out.peer).0 ≡ record made { state = State.wait_c2 })
    × (handshake lengths true outside with_s2 (later (pending outside.second) out.peer).0 ≡ ok out₂)
    × (out₂.peer ≡ record made { state = State.done })
handshake_late_example =
    handshake_late lengths outside waiting_plain plain_s0s1 s2_bytes 0 with_s0s1-Holds with_s2-Holds
      length-plain_s0s1 length-s2_bytes refl plain-accepted
