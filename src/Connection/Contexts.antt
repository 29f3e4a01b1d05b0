-- ===== src/Connection/Contexts.antt =====
-- The contexts of a connection as a function (network/net/Connection.cpp).
use turbo_multimedia_server.Common.{
  ℕ, ◌≡◌, refl, ap, ◌∙◌, inl, inr, List, [], ◌∷◌, Option, none, ◌==◌, if◌then◌else◌, Bool-cases,
}
use turbo_multimedia_server.Loop.Interest.{lookup-put}
use turbo_multimedia_server.Connection.{
  Connection, set_context, get_context, remove_context, clear_contexts,
}

pub data Operation {ℓ} (A : Type ℓ) : Type ℓ where
  sets : ℕ → Option A → Operation A
  removes : ℕ → Operation A
  clears : Operation A

module _ {ℓ} {A : Type ℓ} where
  pub perform : Operation A → Connection A → Connection A
  unfolding set_context remove_context clear_contexts
  perform (sets type ctx) c = set_context type ctx c
  perform (removes type) c = remove_context type c
  perform clears c = clear_contexts c

  pub perform_all : List (Operation A) → Connection A → Connection A
  unfolding perform
  perform_all [] c = c
  perform_all (o ∷ os) c = perform_all os (perform o c)

  -- The last operation that has a say on a type says what its context is.
  abbrev pub last_of : ℕ → List (Operation A) → Option A → Option A
  last_of x [] before = before
  last_of x (sets type ctx ∷ os) before = last_of x os (if x == type then ctx else before)
  last_of x (removes type ∷ os) before = last_of x os (if x == type then none else before)
  last_of x (clears ∷ os) before = last_of x os none

  get_context-put :
      (x type : ℕ) (ctx : Option A) (c : Connection A)
      → get_context x (set_context type ctx c) ≡ (if x == type then ctx else get_context x c)
  unfolding get_context set_context
  get_context-put x type ctx c =
      rw (get_context, lookup-put x type ctx c.contexts)
        (elim (Bool-cases (x == type)) [ inl b ↦ rw b refl | inr b ↦ rw b refl ])

  get_context-clear : (x : ℕ) (c : Connection A) → get_context x (clear_contexts c) ≡ none
  unfolding get_context clear_contexts
  get_context-clear x c = refl

  -- The contexts of a connection, after any operations on them, are those of a function from types to
  -- pointers: the context of a type is what the last operation that sets, removes or clears it gives.
  pub get_context-perform_all :
      (x : ℕ) (os : List (Operation A)) (c : Connection A)
      → get_context x (perform_all os c) ≡ last_of x os (get_context x c)
  unfolding perform_all perform remove_context
  get_context-perform_all x [] c = refl
  get_context-perform_all x (sets type ctx ∷ os) c =
      get_context-perform_all x os (set_context type ctx c)
      ∙ ap (last_of x os) (get_context-put x type ctx c)
  get_context-perform_all x (removes type ∷ os) c =
      get_context-perform_all x os (remove_context type c)
      ∙ ap (last_of x os) (get_context-put x type none c)
  get_context-perform_all x (clears ∷ os) c =
      get_context-perform_all x os (clear_contexts c) ∙ ap (last_of x os) (get_context-clear x c)
