-- ===== src/Threads/Turns.antt =====
-- The loops of a pool in turn (network/net/EventLoopThreadPool.cpp, `getNextLoop`).
use turbo_multimedia_server.Common.{
  ℕ, zero, suc, ◌+◌, ◌%◌, ◌^◌, ◌≡◌, refl, sym, ap, ◌∙◌, ◌<◌, List, [], ◌∷◌, Option, some, get_elem?,
  length, lt→ltb, Result, ok, ◌>>=◌, arith,
}
use turbo_multimedia_server.Threads.{EventLoopThreadPool, get_next_loop}

-- `n` calls, one after another.
pub next_loops : ℕ → EventLoopThreadPool → Result (List (Option ℕ) × EventLoopThreadPool)
next_loops zero p = ok ([], p)
next_loops (suc n) p = get_next_loop p >>= λ r. next_loops n r.1 >>= λ r'. ok (r.0 ∷ r'.0, r'.1)

element :
    (loops : List (Option ℕ)) (i : ℕ)
    → i < length loops
    → (loop : Option ℕ) × (get_elem? loops i ≡ some loop)
element [] i h = elim h [ ]
element (x ∷ loops) zero h = (x, refl)
element (x ∷ loops) (suc i) h = element loops i (omega arith)

abbrev pub from_index : List (Option ℕ) → ℕ → EventLoopThreadPool
from_index loops i = record { loops = loops; loop_index = i }

get_next_loop_lem :
    (loops : List (Option ℕ)) (i : ℕ)
    → 0 < length loops
    → i + 1 < 2 ^ 31
    → (loop : Option ℕ) × (get_elem? loops (i % length loops) ≡ some loop)
      × (get_next_loop (from_index loops i) ≡ ok (loop, from_index loops (i + 1)))
unfolding get_next_loop
get_next_loop_lem loops i some_threads small =
    let (loop, there) = element loops (i % length loops) (omega arith) in
    (
      loop,
      there,
      rw (lt→ltb i (2 ^ 31) (omega arith), there)
          (ap (λ k. ok (loop, from_index loops k)) {y = i + 1} (omega arith)),
    )

-- Calls of a pool that has a thread give its loops in turn, from the index on and around: the call `j`
-- behind the first gives the loop of the thread `i + j` modulo their number, as long as the index does
-- not get beyond the largest `int`.
pub next_loops_lem :
    (n : ℕ) (loops : List (Option ℕ)) (i : ℕ)
    → 0 < length loops
    → i + n < 2 ^ 31
    → (given : List (Option ℕ)) × (next_loops n (from_index loops i)
        ≡ ok (given, from_index loops (i + n)))
      × (length given ≡ n)
      × ((j : ℕ) → j < n → get_elem? given j ≡ get_elem? loops ((i + j) % length loops))
unfolding next_loops
next_loops_lem zero loops i some_threads small = (
  [],
  ap (λ k. ok ([], from_index loops k)) {y = i + 0} (omega arith),
  refl,
  λ j h. absurd (omega arith),
)
next_loops_lem (suc n) loops i some_threads small =
    let (loop, there, first) = get_next_loop_lem loops i some_threads (omega arith) in
    let (given, rest, size, turns) = next_loops_lem n loops (i + 1) some_threads (omega arith) in
    (
      loop ∷ given,
      ap (λ r. r >>= continued) first
          ∙ ap (λ r. r >>= λ r'. ok (loop ∷ r'.0, r'.1)) rest
          ∙ ap (λ k. ok (loop ∷ given, from_index loops k)) {y = i + suc n} (omega arith),
      ap suc size,
      λ j h. by_turn loop given there turns j h,
    )
  where
    continued : Option ℕ × EventLoopThreadPool → Result (List (Option ℕ) × EventLoopThreadPool)
    continued r = next_loops n r.1 >>= λ r'. ok (r.0 ∷ r'.0, r'.1)

    by_turn :
        (loop : Option ℕ) (given : List (Option ℕ))
        → get_elem? loops (i % length loops) ≡ some loop
        → ((j : ℕ) → j < n → get_elem? given j ≡ get_elem? loops ((i + 1 + j) % length loops))
        → (j : ℕ) → j < suc n
        → get_elem? (loop ∷ given) j ≡ get_elem? loops ((i + j) % length loops)
    by_turn loop given there turns zero h =
        sym there ∙ ap (λ k. get_elem? loops (k % length loops)) {x = i} {y = i + 0} (omega arith)
    by_turn loop given there turns (suc j) h =
        turns j (omega arith)
        ∙ ap (λ k. get_elem? loops (k % length loops)) {y = i + suc j} (omega arith)
