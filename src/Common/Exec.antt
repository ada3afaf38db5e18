-- ===== src/Common/Exec.antt =====
-- Actions on a state that may throw. What was done before a throw stays done, so the state comes
-- back beside the exception too. An `await` is a bind: its promise is an action of the same kind.

use nestjs_hexagonal_templat.Common.Errors.{Exception}

pub data Result {ℓ} (A : Type ℓ) : Type ℓ where
  ok : A → Result A
  throw : Exception → Result A

abbrev pub Exec {ℓ} : Type ℓ → Type ℓ → Type ℓ
Exec S A = S → Result A × S

module _ {ℓ} {S A : Type ℓ} where
  abbrev pub pure : A → Exec S A
  pure a s = (ok a, s)

  abbrev pub raise : Exception → Exec S A
  raise e s = (throw e, s)

  abbrev pub gets : (S → A) → Exec S A
  gets f s = (ok (f s), s)

module _ {ℓ} {S A B : Type ℓ} where
  abbrev pub continue : Result A → (A → Exec S B) → Exec S B
  continue (ok a) f s = f a s
  continue (throw e) f s = (throw e, s)

  infixl 10 ◌>>=◌ ◌>>◌
  abbrev pub ◌>>=◌ : Exec S A → (A → Exec S B) → Exec S B
  ◌>>=◌ first next s = let (answer, left) = first s in continue answer next left

  abbrev pub ◌>>◌ : Exec S A → Exec S B → Exec S B
  m >> n = m >>= λ _. n

-- What holds of the state after an action: `P` of the value and the state where it returns, `Q` of
-- the state where it throws.
abbrev pub Ensures {ℓ κ} : {S A : Type ℓ} → Result A × S → (A → S → Type κ) → (S → Type κ) → Type κ
Ensures (ok a, s) P Q = P a s
Ensures (throw e, s) P Q = Q s

module _ {ℓ κ} {S A B : Type ℓ} where
  -- The rule for a step and what follows it.
  pub Ensures-bind :
      (m : Result A × S) (f : A → Exec S B) (P : A → S → Type κ) (Q : S → Type κ)
      (P' : B → S → Type κ) (Q' : S → Type κ)
      → Ensures m P Q
      → ((a : A) (s : S) → P a s → Ensures (f a s) P' Q')
      → ((s : S) → Q s → Q' s)
      → Ensures (continue m.0 f m.1) P' Q'
  Ensures-bind (ok a, s) f P Q P' Q' h k l = k a s h
  Ensures-bind (throw e, s) f P Q P' Q' h k l = l s h

module _ {ℓ κ} {S A : Type ℓ} where
  pub Ensures-mono :
      (m : Result A × S) (P : A → S → Type κ) (Q : S → Type κ) (P' : A → S → Type κ)
      (Q' : S → Type κ)
      → Ensures m P Q
      → ((a : A) (s : S) → P a s → P' a s)
      → ((s : S) → Q s → Q' s)
      → Ensures m P' Q'
  Ensures-mono (ok a, s) P Q P' Q' h k l = k a s h
  Ensures-mono (throw e, s) P Q P' Q' h k l = l s h

  -- What holds of the state whichever way the action ends.
  pub Ensures-frame : (m : Result A × S) (P : S → Type κ) → P m.1 → Ensures m (λ _. P) P
  Ensures-frame (ok a, s) P h = h
  Ensures-frame (throw e, s) P h = h

  pub Ensures-state : (m : Result A × S) (P : S → Type κ) → Ensures m (λ _. P) P → P m.1
  Ensures-state (ok a, s) P h = h
  Ensures-state (throw e, s) P h = h

-- What an action leaves true of the state, however it ends.
module _ {ℓ κ} {S : Type ℓ} (I : S → Type κ) where
  abbrev pub Preserves : {A : Type ℓ} → Exec S A → Type (ℓ ⊔ κ)
  Preserves m = (s : S) → I s → I (m s).1

  pub bind-Preserves :
      {A B : Type ℓ} (m : Exec S A) (f : A → Exec S B)
      → Preserves m
      → ((a : A) → Preserves (f a))
      → Preserves (m >>= f)
  bind-Preserves {A} m f h k s i = after (m s) (h s i)
    where
      after : (r : Result A × S) → I r.1 → I (continue r.0 f r.1).1
      after (ok a, s') j = k a s' j
      after (throw e, s') j = j
