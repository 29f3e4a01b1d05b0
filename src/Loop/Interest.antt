-- ===== src/Loop/Interest.antt =====
-- The table of events and epoll's own (network/net/EventLoop.cpp, `addEvent` to `enableEventWriting`).
use turbo_multimedia_server.Common.{
  ℕ, ◌≡◌, sym, ap, ◌∙◌, inl, inr, Bool, List, [], ◌∷◌, Option, none, some, ◌==◌, ==_iff,
  if◌then◌else◌, arith, Bool-cases, Option-cases, arith,
}
use turbo_multimedia_server.Loop.{
  Flags, Request, ctl_add, ctl_mod, ctl_del, EventLoop, lookup, erase, put, ask, event_read,
  add_event, remove_event, enable_event_reading, enable_event_writing,
}

-- What epoll waits for, as its manual says: adding a descriptor that is there and changing one that is
-- not fail.
abbrev pub Table : Type 0
Table = ℕ → Option Flags

abbrev pub added : Flags → Option Flags → Option Flags
added f none = some f
added f (some g) = some g

abbrev pub changed : Flags → Option Flags → Option Flags
changed f none = none
changed f (some g) = some f

unfoldable pub table : List Request → Table
table [] x = none
table (ctl_add fd f ∷ rs) x = let old = table rs x in if x == fd then added f old else old
table (ctl_mod fd f ∷ rs) x = let old = table rs x in if x == fd then changed f old else old
table (ctl_del fd ∷ rs) x = let old = table rs x in if x == fd then none else old

-- epoll waits for what the loop's table says.
abbrev pub Agrees : EventLoop → Type 0
Agrees l = (x : ℕ) → table l.requests x ≡ lookup x l.events

pub data Operation : Type 0 where
  adds removes : ℕ → Operation
  reads writes : ℕ → Bool → Operation

pub run_operations : List Operation → EventLoop → EventLoop
run_operations [] l = l
run_operations (adds fd ∷ os) l = run_operations os (add_event fd l)
run_operations (removes fd ∷ os) l = run_operations os (remove_event fd l)
run_operations (reads fd b ∷ os) l = run_operations os (enable_event_reading fd b l)
run_operations (writes fd b ∷ os) l = run_operations os (enable_event_writing fd b l)

pub lookup-erase {ℓ} :
    {A : Type ℓ} (x fd : ℕ) (es : List (ℕ × A))
    → lookup x (erase fd es) ≡ (if x == fd then none else lookup x es)
lookup-erase x fd [] = elim (Bool-cases (x == fd)) [ inl b ↦ rw b | inr b ↦ rw b ]
lookup-erase x fd ((y, g) ∷ es) = elim (Bool-cases (fd == y)) [
  | inl same ↦ rw same (
      lookup-erase x fd es ∙ elim (Bool-cases (x == fd)) [
        | inl b ↦ rw b
        | inr b ↦ rw (b, sym ((==_iff fd y).0 same), b)
      ])
  | inr other ↦ rw other (elim (Bool-cases (x == y)) [
    | inl here ↦
        rw here (elim (Bool-cases (x == fd)) [ inl b ↦ absurd (ground arith) | inr b ↦ rw b ])
    | inr there ↦ rw there (lookup-erase x fd es)
  ])
]

pub lookup-put {ℓ} :
    {A : Type ℓ} (x fd : ℕ) (f : A) (es : List (ℕ × A))
    → lookup x (put fd f es) ≡ (if x == fd then some f else lookup x es)
lookup-put x fd f es = elim (Bool-cases (x == fd)) [
  | inl b ↦ rw b
  | inr b ↦ rw b (lookup-erase x fd es ∙ rw b)
]

put-Agrees :
    (fd : ℕ) (f : Flags) (r : Request) (l : EventLoop)
    → ((x : ℕ) → table (r ∷ l.requests) x ≡ (if x == fd then some f else table l.requests x))
    → Agrees l
    → Agrees (ask (put fd f l.events) r l)
put-Agrees fd f r l e a x =
    e x ∙ ap (λ t. if x == fd then some f else t) (a x) ∙ sym (lookup-put x fd f l.events)

-- A request for `fd` has the outcome `u` if it has it there.
outcome :
    (x fd : ℕ) (u : Option Flags) (change : Option Flags → Option Flags) (t : Table)
    → change (t fd) ≡ u
    → (if x == fd then change (t x) else t x) ≡ (if x == fd then u else t x)
outcome x fd u change t h = elim (Bool-cases (x == fd)) [
  | inl b ↦ rw b (ap (λ y. change (t y)) ((==_iff x fd).0 b) ∙ h)
  | inr b ↦ rw b
]

pub add_event-Agrees : (fd : ℕ) (l : EventLoop) → Agrees l → Agrees (add_event fd l)
unfolding add_event table
add_event-Agrees fd l a = elim (Option-cases (lookup fd l.events)) [
  | inr (f, there) ↦ rw (add_event, there) a
  | inl fresh ↦
      rw (add_event, fresh)
        (put-Agrees fd event_read (ctl_add fd event_read) l
          (λ x.
            outcome x fd (some event_read) (added event_read) (table l.requests)
              (ap (added event_read) (a fd ∙ fresh)))
          a)
]

pub remove_event-Agrees : (fd : ℕ) (l : EventLoop) → Agrees l → Agrees (remove_event fd l)
unfolding remove_event table
remove_event-Agrees fd l a = elim (Option-cases (lookup fd l.events)) [
  | inl missing ↦ rw (remove_event, missing) a
  | inr (f, there) ↦
      rw (remove_event, there)
        (λ x. ap (λ t. if x == fd then none else t) (a x) ∙ sym (lookup-erase x fd l.events))
]

module _ (fd : ℕ) (b : Bool) (l : EventLoop) (a : Agrees l) where
  change-Agrees :
      (f f' : Flags)
      → lookup fd l.events ≡ some f
      → Agrees (ask (put fd f' l.events) (ctl_mod fd f') l)
  unfolding table
  change-Agrees f f' there =
      put-Agrees fd f' (ctl_mod fd f') l
        (λ x.
          outcome x fd (some f') (changed f') (table l.requests) (ap (changed f') (a fd ∙ there)))
        a

  enable_event_reading-Agrees : Agrees (enable_event_reading fd b l)
  unfolding enable_event_reading
  enable_event_reading-Agrees = elim (Option-cases (lookup fd l.events)) [
    | inl missing ↦ rw (enable_event_reading, missing) a
    | inr (f, there) ↦
        rw (enable_event_reading, there) (change-Agrees f (record f { read = b }) there)
  ]

  pub enable_event_writing-Agrees : Agrees (enable_event_writing fd b l)
  unfolding enable_event_writing
  enable_event_writing-Agrees = elim (Option-cases (lookup fd l.events)) [
    | inl missing ↦ rw (enable_event_writing, missing) a
    | inr (f, there) ↦
        rw (enable_event_writing, there) (change-Agrees f (record f { write = b }) there)
  ]

-- Whatever events are added, removed and changed, in whatever order, epoll waits for exactly what the
-- loop's table says of every descriptor, if it did so before.
pub run_operations-Agrees :
    (os : List Operation) (l : EventLoop) → Agrees l → Agrees (run_operations os l)
unfolding run_operations
run_operations-Agrees [] l a = a
run_operations-Agrees (adds fd ∷ os) l a = run_operations-Agrees os _ (add_event-Agrees fd l a)
run_operations-Agrees (removes fd ∷ os) l a =
    run_operations-Agrees os _ (remove_event-Agrees fd l a)
run_operations-Agrees (reads fd b ∷ os) l a =
    run_operations-Agrees os _ (enable_event_reading-Agrees fd b l a)
run_operations-Agrees (writes fd b ∷ os) l a =
    run_operations-Agrees os _ (enable_event_writing-Agrees fd b l a)
