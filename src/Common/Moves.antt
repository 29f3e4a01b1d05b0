-- ===== src/Common/Moves.antt =====
-- Runs of moves that take turns: a move leads to another state, or is not possible.
use turbo_multimedia_server.Common.Tests.{Option-cases}
use mathlib.Core.Path.{◌≡◌, refl, sym, ap, ◌∙◌, subst}
use mathlib.Core.Logic.{inl, inr}
use mathlib.Core.Option.{Option, none, some}
use mathlib.Core.List.{List, [], ◌∷◌, ◌++◌}

pub some_value {ℓ} : {S : Type ℓ} {s t : S} → some s ≡ some t → s ≡ t
some_value e = cc

pub none-ne-some {ℓ} : {S : Type ℓ} {t : S} → none ≡ some t → ⊥
none-ne-some e = cc

module _ {ℓ κ} {S : Type ℓ} {M : Type κ} (move : M → S → Option S) where
  -- The moves one after another, none as soon as one is not possible.
  unfoldable pub run_moves : List M → S → Option S
  run_moves [] s = some s
  run_moves (m ∷ ms) s = elim (move m s) [ none ↦ none | some t ↦ run_moves ms t ]

  -- What is left of a run, behind moves that lead to a state or are not possible.
  abbrev pub rest_of : List M → Option S → Option S
  rest_of ms o = elim o [ none ↦ none | some s ↦ run_moves ms s ]

  pub run-append : (ms ns : List M) (s : S) → run_moves (ms ++ ns) s ≡ rest_of ns (run_moves ms s)
  unfolding run_moves
  run-append [] ns s = refl
  run-append (m ∷ ms) ns s = elim (Option-cases (move m s)) [
    | inl blocked ↦ rw (run_moves, blocked) refl
    | inr (t, moved) ↦ rw (run_moves, moved) (run-append ms ns t)
  ]

  pub run-join :
      (ms ns : List M) (s : S) {t : S} {o : Option S}
      → run_moves ms s ≡ some t
      → run_moves ns t ≡ o
      → run_moves (ms ++ ns) s ≡ o
  run-join ms ns s e d = run-append ms ns s ∙ ap (rest_of ns) e ∙ d

  -- What every move keeps holds behind a run.
  pub run_keeps {μ} :
      (P : S → Type μ)
      → ((m : M) (s t : S) → move m s ≡ some t → P s → P t)
      → (ms : List M) (s t : S) → run_moves ms s ≡ some t
      → P s
      → P t
  unfolding run_moves
  run_keeps P keeps [] s t e h = subst P (some_value e) h
  run_keeps P keeps (m ∷ ms) s t e h = elim (Option-cases (move m s)) [
    | inl blocked ↦ absurd (none-ne-some (sym (ap (rest_of ms) blocked) ∙ e))
    | inr (u, moved) ↦
        run_keeps P keeps ms u t (sym (ap (rest_of ms) moved) ∙ e) (keeps m s u moved h)
  ]
