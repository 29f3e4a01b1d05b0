-- ===== src/Loop/Watched.antt =====
-- Which descriptors the loop's table has (network/net/EventLoop.cpp, `addEvent` and `removeEvent`).
use turbo_multimedia_server.Common.{
  ℕ, ◌≡◌, refl, sym, ap, ◌∙◌, inl, inr, Bool, true, false, List, none, some, ◌==◌, if◌then◌else◌,
  Bool-cases, Option-cases, ==_iff,
}
use turbo_multimedia_server.Loop.{
  EventLoop, lookup, erase, put, event_read, add_event, remove_event, enable_event_writing,
}
use turbo_multimedia_server.Loop.Interest.{lookup-erase, lookup-put}

-- A map has a descriptor.
abbrev pub has_fd {ℓ} : {A : Type ℓ} → ℕ → List (ℕ × A) → Bool
has_fd x fds = elim (lookup x fds) [ none ↦ false | some a ↦ true ]

pub has_fd-erase {ℓ} :
    {A : Type ℓ} (x fd : ℕ) (fds : List (ℕ × A))
    → has_fd x (erase fd fds) ≡ (if x == fd then false else has_fd x fds)
has_fd-erase x fd fds =
    rw (has_fd, lookup-erase x fd fds) (elim (Bool-cases (x == fd)) [ inl b ↦ rw b | inr b ↦ rw b ])

pub has_fd-put {ℓ} :
    {A : Type ℓ} (x fd : ℕ) (a : A) (fds : List (ℕ × A))
    → has_fd x (put fd a fds) ≡ (if x == fd then true else has_fd x fds)
has_fd-put x fd a fds =
    rw (has_fd, lookup-put x fd a fds) (elim (Bool-cases (x == fd)) [ inl b ↦ rw b | inr b ↦ rw b ])

pub has_fd-add_event :
    (x fd : ℕ) (l : EventLoop)
    → has_fd x (add_event fd l).events ≡ (if x == fd then true else has_fd x l.events)
unfolding add_event
has_fd-add_event x fd l = elim (Option-cases (lookup fd l.events)) [
  | inl fresh ↦ rw (add_event, fresh) (has_fd-put x fd event_read l.events)
  | inr (f, there) ↦
      rw (add_event, there)
        (elim (Bool-cases (x == fd)) [
          | inl b ↦ rw b (ap (λ y. has_fd y l.events) ((==_iff x fd).0 b) ∙ rw (has_fd, there) refl)
          | inr b ↦ rw b refl
        ])
]

pub has_fd-remove_event :
    (x fd : ℕ) (l : EventLoop)
    → has_fd x (remove_event fd l).events ≡ (if x == fd then false else has_fd x l.events)
unfolding remove_event
has_fd-remove_event x fd l = elim (Option-cases (lookup fd l.events)) [
  | inr (f, there) ↦ rw (remove_event, there) (has_fd-erase x fd l.events)
  | inl missing ↦
      rw (remove_event, missing)
        (elim (Bool-cases (x == fd)) [
          | inl b ↦
              rw b (ap (λ y. has_fd y l.events) ((==_iff x fd).0 b) ∙ rw (has_fd, missing) refl)
          | inr b ↦ rw b refl
        ])
]

pub has_fd-enable_event_writing :
    (x fd : ℕ) (b : Bool) (l : EventLoop)
    → has_fd x (enable_event_writing fd b l).events ≡ has_fd x l.events
unfolding enable_event_writing
has_fd-enable_event_writing x fd b l = elim (Option-cases (lookup fd l.events)) [
  | inl missing ↦ rw (enable_event_writing, missing) refl
  | inr (f, there) ↦
      rw (enable_event_writing, there)
        (has_fd-put x fd (record f { write = b }) l.events ∙ elim (Bool-cases (x == fd)) [
          | inl e ↦
              rw e (sym (ap (λ y. has_fd y l.events) ((==_iff x fd).0 e) ∙ rw (has_fd, there) refl))
          | inr e ↦ rw e refl
        ])
]

-- The timers stay as they are.
pub enable_event_writing-timing_wheel :
    (fd : ℕ) (b : Bool) (l : EventLoop)
    → (enable_event_writing fd b l).timing_wheel ≡ l.timing_wheel
unfolding enable_event_writing
enable_event_writing-timing_wheel fd b l = elim (Option-cases (lookup fd l.events)) [
  | inl missing ↦ rw (enable_event_writing, missing) refl
  | inr (f, there) ↦ rw (enable_event_writing, there) refl
]

pub add_event-timing_wheel :
    (fd : ℕ) (l : EventLoop) → (add_event fd l).timing_wheel ≡ l.timing_wheel
unfolding add_event
add_event-timing_wheel fd l = elim (Option-cases (lookup fd l.events)) [
  | inl fresh ↦ rw (add_event, fresh) refl
  | inr (f, there) ↦ rw (add_event, there) refl
]

pub remove_event-timing_wheel :
    (fd : ℕ) (l : EventLoop) → (remove_event fd l).timing_wheel ≡ l.timing_wheel
unfolding remove_event
remove_event-timing_wheel fd l = elim (Option-cases (lookup fd l.events)) [
  | inl missing ↦ rw (remove_event, missing) refl
  | inr (f, there) ↦ rw (remove_event, there) refl
]

-- Adding an event again asks for nothing.
pub add_event_again :
    (fd : ℕ) (l : EventLoop) → (add_event fd (add_event fd l)).requests ≡ (add_event fd l).requests
unfolding add_event
add_event_again fd l = elim (Option-cases (lookup fd (add_event fd l).events)) [
  | inr (f, there) ↦ rw (add_event, there) refl
  | inl missing ↦ absurd (
      clash (has_fd-add_event fd fd l ∙ rw ((==_iff fd fd).1 refl) refl)
        (rw (has_fd, missing) refl))
]
  where
    clash : {b : Bool} → b ≡ true → b ≡ false → ⊥
    clash t f = cc
