-- ===== src/Base/Stateful.antt =====
-- Operations that may fail on a state that they change. What was changed before an error stays, so
-- that the state comes back beside the error too.
use fnd.Base.Errors.{Outcome, ok, err, panicked}

abbrev pub Stateful {ℓ} : Type ℓ → Type ℓ → Type ℓ → Type ℓ
Stateful S E A = S → Outcome E A × S

module _ {ℓ} {S E A B : Type ℓ} where
  abbrev pub continue : Outcome E A → (A → Stateful S E B) → Stateful S E B
  continue (ok a) f s = f a s
  continue (err e) f s = (err e, s)
  continue panicked f s = (panicked, s)

  infixl 5 ◌>>=◌
  abbrev pub ◌>>=◌ : Stateful S E A → (A → Stateful S E B) → Stateful S E B
  ◌>>=◌ m f s = continue (m s).0 f (m s).1

module _ {S E B : Type 0} where
  infixl 5 ◌>>◌
  abbrev pub ◌>>◌ : Stateful S E (Unit {0}) → Stateful S E B → Stateful S E B
  ◌>>◌ m k s = continue (m s).0 (λ _. k) (m s).1

abbrev pub pure {ℓ} : {S E A : Type ℓ} → A → Stateful S E A
pure a s = (ok a, s)

-- A result that does not touch the state.
abbrev pub lift {ℓ} : {S E A : Type ℓ} → Outcome E A → Stateful S E A
lift r s = (r, s)
