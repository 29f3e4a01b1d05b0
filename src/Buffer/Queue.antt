-- ===== src/Buffer/Queue.antt =====
-- A client of MsgBuffer that appends bytes, makes room for more and takes bytes out (network/base/
-- MsgBuffer.h), and the queue of bytes that it sees.
use turbo_multimedia_server.Common.{
  ℕ, zero, suc, ◌+◌, ◌≡◌, refl, sym, ◌≤◌, ap, inl, inr, ◌⊎◌, List, [], ◌∷◌, ◌++◌, take, drop,
  length, max, leb, if◌then◌else◌, Result, ok, fail, assertion, ◌>>=◌, arith, le→leb, lt→not-leb,
  take-take,
}
use turbo_multimedia_server.Buffer.{
  MsgBuffer, cheap_prepend, max_size, readable_bytes, content, retrieve, retrieve_as_string,
  retrieve_all_as_string, ensure_writable_bytes, append,
}
use turbo_multimedia_server.Buffer.Valid.{IsValid, length-content, ensure_writable_bytes-Extends}
use turbo_multimedia_server.Buffer.Content.{Retrieved, append_lem, retrieve_lem}

pub data Call : Type 0 where
  appends : List ℕ → Call
  reserves : ℕ → Call
  skips : ℕ → Call
  retrieves : ℕ → Call
  retrieves_all : Call

-- `append`, `ensureWritableBytes`, `retrieve`, `retrieveAsString` and `retrieveAllAsString`: the texts that the calls retrieve.
pub run : MsgBuffer → List Call → Result (List (List ℕ))
run b [] = ok []
run b (appends d ∷ cs) = append d b >>= λ b'. run b' cs
run b (reserves n ∷ cs) = ensure_writable_bytes n b >>= λ b'. run b' cs
run b (skips n ∷ cs) = retrieve n b >>= λ b'. run b' cs
run b (retrieves_all ∷ cs) =
    retrieve_all_as_string b >>= λ p. run p.1 cs >>= λ outs. ok (p.0 ∷ outs)
run b (retrieves n ∷ cs) = retrieve_as_string n b >>= λ p. run p.1 cs >>= λ outs. ok (p.0 ∷ outs)

-- The same of a queue of bytes; to take more than it holds is an error of the client.
pub run_queue : List ℕ → List Call → Result (List (List ℕ))
run_queue q [] = ok []
run_queue q (appends d ∷ cs) = run_queue (q ++ d) cs
run_queue q (reserves n ∷ cs) = run_queue q cs
run_queue q (skips n ∷ cs) = if leb n (length q) then run_queue (drop n q) cs else fail assertion
run_queue q (retrieves_all ∷ cs) = run_queue [] cs >>= λ outs. ok (q ∷ outs)
run_queue q (retrieves n ∷ cs) =
    if leb n (length q)
    then (run_queue (drop n q) cs >>= λ outs. ok (take n q ∷ outs))
    else fail assertion

-- How many bytes the calls append, or make room for.
abbrev pub volume : List Call → ℕ
volume [] = 0
volume (appends d ∷ cs) = length d + volume cs
volume (reserves n ∷ cs) = n + volume cs
volume (skips n ∷ cs) = volume cs
volume (retrieves_all ∷ cs) = volume cs
volume (retrieves n ∷ cs) = volume cs

-- `retrieveAsString` takes out the first bytes of the content; with more than there are, its
-- assert fails.
pub retrieve_as_string_lem :
    (len : ℕ) {b : MsgBuffer}
    → IsValid b
    → ((b' : MsgBuffer) × (retrieve_as_string len b ≡ ok (take len (content b), b'))
        × Retrieved len b b')
      ⊎ ((retrieve_as_string len b ≡ fail assertion) × (suc (readable_bytes b) ≤ len))
unfolding retrieve_as_string
retrieve_as_string_lem len {b} v = elim (retrieve_lem len v) [
  | inl (b', e, r) ↦ inl (
    b',
    rw (le→leb _ _ r.inside, e)
        (ap (λ t. ok (t, b')) (sym (take-take len (readable_bytes b) _ r.inside))),
    r,
  )
  | inr (e, h) ↦ inr (rw (lt→not-leb _ _ h), h)
]

take_all : (xs : List ℕ) (n : ℕ) → length xs ≡ n → take n xs ≡ xs
take_all [] zero e = refl
take_all [] (suc n) e = refl
take_all (x ∷ xs) zero e = absurd (omega (arith, e))
take_all (x ∷ xs) (suc n) e = ap (λ l. x ∷ l) (take_all xs n (omega (arith, e)))

drop_all : (xs : List ℕ) (n : ℕ) → length xs ≡ n → drop n xs ≡ []
drop_all [] zero e = refl
drop_all [] (suc n) e = refl
drop_all (x ∷ xs) zero e = absurd (omega (arith, e))
drop_all (x ∷ xs) (suc n) e = drop_all xs n (omega (arith, e))

-- No sequence of calls of `append`, `ensureWritableBytes`, `retrieve`, `retrieveAsString` and
-- `retrieveAllAsString` tells a MsgBuffer from the queue of its readable bytes, as long as the bytes
-- appended and the room asked for stay within the largest size of the storage.
pub run_refines :
    (cs : List Call) {b : MsgBuffer}
    → IsValid b
    → max cheap_prepend b.writer_index + volume cs ≤ max_size
    → run b cs ≡ run_queue (content b) cs
unfolding run run_queue retrieve_all_as_string
run_refines [] v h = refl
run_refines (appends d ∷ cs) {b} v h = elim (append_lem d v (omega arith)) [
  | inl (b', e, r) ↦ rw (e, run_refines cs r.holds.valid (omega (arith, r.behind)), r.holds.bytes)
  | inr (e, (_, over)) ↦ absurd (omega arith)
]
run_refines (reserves n ∷ cs) {b} v h = elim (ensure_writable_bytes-Extends n v (omega arith)) [
  | inl (b', e, r) ↦ rw (e, run_refines cs r.valid (omega (arith, r.behind)), r.same) refl
  | inr (e, (_, over)) ↦ absurd (omega arith)
]
run_refines (skips n ∷ cs) {b} v h = elim (retrieve_lem n v) [
  | inl (b', e, r) ↦ rw (
    e,
    run_refines cs r.holds.valid (omega (arith, r.behind)),
    r.holds.bytes,
    le→leb n (length (content b)) (omega (arith, length-content v, r.inside)),
  )
  | inr (e, k) ↦ rw (e, lt→not-leb n (length (content b)) (omega (arith, length-content v, k)))
]
run_refines (retrieves_all ∷ cs) {b} v h = elim (retrieve_as_string_lem (readable_bytes b) v) [
  | inl (b', e, r) ↦
      rw
        (
          e,
          run_refines cs r.holds.valid (omega (arith, r.behind)),
          r.holds.bytes,
          take_all (content b) (readable_bytes b) (length-content v),
          drop_all (content b) (readable_bytes b) (length-content v),
        )
        refl
  | inr (e, k) ↦ absurd (omega (arith, k))
]
run_refines (retrieves n ∷ cs) {b} v h = elim (retrieve_as_string_lem n v) [
  | inl (b', e, r) ↦ rw (
    e,
    run_refines cs r.holds.valid (omega (arith, r.behind)),
    r.holds.bytes,
    le→leb n (length (content b)) (omega (arith, length-content v, r.inside)),
  )
  | inr (e, k) ↦ rw (e, lt→not-leb n (length (content b)) (omega (arith, length-content v, k)))
]
