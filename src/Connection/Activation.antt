-- ===== src/Connection/Activation.antt =====
-- How often a connection is activated (network/net/Connection.cpp, `active`).
use turbo_multimedia_server.Common.{
  ℕ, zero, suc, ◌+◌, ◌≡◌, refl, ap, ◌∙◌, Bool, true, false, if◌then◌else◌, arith,
}
use turbo_multimedia_server.Connection.{Connection, activate, activates, run_activations, flush}

zero_add : (n : ℕ) → 0 + n ≡ n
zero_add n = omega arith

module _ {ℓ} {A : Type ℓ} where
  -- Calls of `active`, by the loop's thread or by others, one after another.
  pub activates_each : Bool → ℕ → Connection A → Connection A
  unfolding activates
  activates_each in_thread zero c = c
  activates_each in_thread (suc n) c = activates_each in_thread n (activates in_thread c)

  queued :
      (n : ℕ) (c : Connection A)
      → c.active ≡ false
      → activates_each false n c ≡ record c { waiting = c.waiting + n }
  unfolding activates_each activates
  queued zero c off = ap (λ w. record c { waiting = w }) (omega arith)
  queued (suc n) c off =
      ap (λ b. activates_each false n (if b then c else record c { waiting = c.waiting + 1 })) off
      ∙ queued n (record c { waiting = c.waiting + 1 }) off
      ∙ ap (λ w. record c { waiting = w }) (omega arith)

  counted :
      (n : ℕ) (c : Connection A)
      → c.has_active_cb ≡ true
      → (run_activations n c).activations ≡ c.activations + n
  unfolding run_activations activate
  counted zero c cb = omega arith
  counted (suc n) c cb =
      counted n (activate c) cb
      ∙ ap (λ b. (if b then c.activations + 1 else c.activations) + n) cb
      ∙ omega arith

  -- An active connection is not activated again.
  kept : (n : ℕ) (c : Connection A) → c.active ≡ true → activates_each true n c ≡ c
  unfolding activates_each activates
  kept zero c on = refl
  kept (suc n) c on = ap (λ b. activates_each true n (if b then c else activate c)) on ∙ kept n c on

  -- At an inactive connection with a callback and with nothing queued: calls of `active` by the loop's
  -- thread call the callback once in all, and as many by other threads call it once each when the queue is
  -- run, as only the run sets `active_`.
  pub flush-activates_each :
      (n : ℕ) (c : Connection A)
      → c.has_active_cb ≡ true
      → c.active ≡ false
      → c.waiting ≡ 0
      → ((activates_each true (suc n) c).activations ≡ c.activations + 1)
        × ((flush (activates_each false (suc n) c)).activations ≡ c.activations + suc n)
  unfolding flush activates_each activates activate
  flush-activates_each n c cb off empty = (
    ap (λ b. (activates_each true n (if b then c else activate c)).activations) off
        ∙ ap (λ d. d.activations) (kept n (activate c) refl)
        ∙ ap (λ b. if b then c.activations + 1 else c.activations) cb,
    ap (λ d. (flush d).activations) (queued (suc n) c off)
        ∙ ap (λ w. (run_activations w (record c { waiting = 0 })).activations)
            (ap (λ w. w + suc n) empty ∙ zero_add (suc n))
        ∙ counted (suc n) (record c { waiting = 0 }) cb,
  )
