-- ===== src/Importer.antt =====
-- api/importer: the control of the importing cluster's dogus and blueprints.
pub mod Blueprints
pub mod Dogus
pub mod Clients
use ces_importer.Base.{Error, ◌≡◌, ◌⊎◌, inl, inr, refl}

-- What `Get` answers; `errors.IsNotFound` is told apart from the other errors.
pub data Answer (A : Type 0) : Type 0 where
  found : A → Answer A
  missing : Answer A
  unavailable : Error → Answer A

-- To split on a computed answer and keep the equation.
pub Answer-cases :
    {A : Type 0} (r : Answer A)
    → ((a : A) × (r ≡ found a)) ⊎ ((r ≡ missing) ⊎ ((e : Error) × (r ≡ unavailable e)))
Answer-cases (found a) = inl (a, refl)
Answer-cases missing = inr (inl refl)
Answer-cases (unavailable e) = inr (inr (e, refl))
