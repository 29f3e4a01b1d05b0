-- ===== src/Connection.antt =====
-- network/net/Connection.h, Connection.cpp: what a protocol keeps at a connection, and its activation.
--
-- A context is a pointer, none where it is null. `activations` counts the calls of `active_cb_`, and
-- `waiting` the activations in the queue of the loop.
pub mod Contexts
pub mod Activation
mod Tests
use turbo_multimedia_server.Common.{
  ℕ, zero, suc, ◌+◌, Bool, true, false, List, [], ◌∷◌, Option, none, some, if◌then◌else◌,
}
use turbo_multimedia_server.Address.{InetAddress}
use turbo_multimedia_server.Loop.{lookup, put}

pub record Connection {ℓ} (A : Type ℓ) : Type ℓ where
  pub contexts : List (ℕ × Option A)
  pub has_active_cb : Bool
  pub active : Bool
  pub activations : ℕ
  pub waiting : ℕ
  pub local_addr : InetAddress
  pub peer_addr : InetAddress

module _ {ℓ} {A : Type ℓ} where
  pub set_peer_addr : InetAddress → Connection A → Connection A
  set_peer_addr a c = record c { peer_addr = a }

  pub set_local_addr : InetAddress → Connection A → Connection A
  set_local_addr a c = record c { local_addr = a }

  pub set_context : ℕ → Option A → Connection A → Connection A
  set_context type ctx c = record c { contexts = put type ctx c.contexts }

  pub get_context : ℕ → Connection A → Option A
  get_context type c = elim (lookup type c.contexts) [ none ↦ none | some ctx ↦ ctx ]

  -- `contexts_[type]` puts a null pointer where the key is missing, and `reset` leaves one.
  pub remove_context : ℕ → Connection A → Connection A
  remove_context type c = record c { contexts = put type none c.contexts }

  pub clear_contexts : Connection A → Connection A
  clear_contexts c = record c { contexts = [] }

  -- What `active` gives to the loop.
  pub activate : Connection A → Connection A
  activate c = record c {
    active = true;
    activations = if c.has_active_cb then c.activations + 1 else c.activations;
  }

  -- In the loop's thread at once, in another one behind what is queued.
  pub activates : Bool → Connection A → Connection A
  unfolding activate
  activates in_thread c =
      if c.active
      then c
      else (if in_thread then activate c else record c { waiting = c.waiting + 1 })

  pub deactive : Connection A → Connection A
  deactive c = record c { active = false }

  -- The loop runs what is queued.
  pub run_activations : ℕ → Connection A → Connection A
  unfolding activate
  run_activations zero c = c
  run_activations (suc n) c = run_activations n (activate c)

  pub flush : Connection A → Connection A
  unfolding run_activations
  flush c = run_activations c.waiting (record c { waiting = 0 })
