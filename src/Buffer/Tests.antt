-- ===== src/Buffer/Tests.antt =====
-- Tests of the model of MsgBuffer: its theorems at small buffers.
use turbo_multimedia_server.Common.{ℕ, ◌≡◌, refl, List, [], ◌∷◌, ok, arith}
use turbo_multimedia_server.Buffer.{MsgBuffer, IntWidth, content}
use turbo_multimedia_server.Buffer.Valid.{IsValid}
use turbo_multimedia_server.Buffer.Content.{Holds}
use turbo_multimedia_server.Buffer.Queue.{
  Call, appends, reserves, skips, retrieves, retrieves_all, run, run_queue, run_refines,
}
use turbo_multimedia_server.Buffer.Ints.{append_ints, read_ints, read_ints-append_ints}

-- Two bytes, "\r\n", behind the reserve, and room for one more.
abbrev line_end : MsgBuffer
line_end = record {
  buffer = 0 ∷ 0 ∷ 0 ∷ 0 ∷ 0 ∷ 0 ∷ 0 ∷ 0 ∷ 13 ∷ 10 ∷ 0 ∷ [];
  reader_index = 8;
  writer_index = 10;
}

line_end-IsValid : IsValid line_end
line_end-IsValid = record {
  reserve = omega arith;
  small = omega arith;
  ordered = omega arith;
  within = omega arith;
}

-- The same storage, with nothing in it.
abbrev hollow : MsgBuffer
hollow = record line_end { writer_index = 8 }

hollow-IsValid : IsValid hollow
hollow-IsValid = record {
  reserve = omega arith;
  small = omega arith;
  ordered = omega arith;
  within = omega arith;
}

-- The third byte fits in, the fourth makes the storage grow.
abbrev calls : List Call
calls =
    appends (1 ∷ [])
    ∷ retrieves 2
    ∷ reserves 20
    ∷ appends (2 ∷ 3 ∷ 4 ∷ [])
    ∷ skips 1
    ∷ retrieves_all
    ∷ retrieves 3
    ∷ []

run_refines_example : run line_end calls ≡ run_queue (content line_end) calls
run_refines_example = run_refines calls line_end-IsValid (omega arith)

abbrev ints : List (IntWidth × ℕ)
ints = (IntWidth.int16, 513) ∷ (IntWidth.int32, 70000) ∷ []

read_ints-append_ints_example :
    (b₁ b₂ : MsgBuffer) × (append_ints ints hollow ≡ ok b₁)
    × (read_ints (IntWidth.int16 ∷ IntWidth.int32 ∷ []) b₁ ≡ ok (513 ∷ 70000 ∷ [], b₂))
    × Holds [] b₂
read_ints-append_ints_example =
    read_ints-append_ints ints hollow-IsValid refl (omega arith) (omega arith, (omega arith, tt))
