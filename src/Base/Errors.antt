-- ===== src/Base/Errors.antt =====
-- Go's `error` values. A function that returns `error` alone yields an `Option Error`, and `none` is
-- `nil`; one that returns a value and an error yields a `Result`.
use Prim.Native.Nat.{ℕ}
use Prim.Native.String.{String}
use mathlib.Core.Path.{◌≡◌, refl, sym}
use mathlib.Core.Logic.{◌↔◌, ◌⊎◌, inl, inr}
use mathlib.Core.Option.{Option, none, some}
use mathlib.Core.List.{List, [], ◌∷◌, ◌++◌, append-nil}
use native.Mathlib.Omega.{arith}

pub data Error : Type 0 where
  -- `errors.New`, and `fmt.Errorf` with no `%w`
  plain : String → Error
  -- `fmt.Errorf("…: %w", err)`
  wrap : String → Error → Error
  -- `errors.Join` of one and of two errors that are not nil
  join_one : Error → Error
  join_two : Error → Error → Error
  -- an error value made by code outside of the repository
  foreign : ℕ → Error
  -- the sentinel `ErrExpiredTimestamp`
  expired_timestamp : Error
  -- `restoreError` of the fqdn change: the restore's error, then the update's
  restore_failed : Error → Error → Error

pub data Result {ℓ} (A : Type ℓ) : Type ℓ where
  ok : A → Result A
  err : Error → Result A

-- `errors.Join`, which drops nil values and is nil if nothing is left
unfoldable pub join : Option Error → Option Error → Option Error
join none none = none
join (some a) none = some (join_one a)
join none (some b) = some (join_one b)
join (some a) (some b) = some (join_two a b)

-- Joined errors are nil exactly when both are.
pub join-eq-none : (a b : Option Error) → (join a b ≡ none) ↔ ((a ≡ none) × (b ≡ none))
unfolding join
join-eq-none a b = ground arith

-- To split on a computed result and keep the equation.
pub Result-cases {ℓ} :
    {A : Type ℓ} (r : Result A) → ((a : A) × (r ≡ ok a)) ⊎ ((e : Error) × (r ≡ err e))
Result-cases (ok a) = inl (a, refl)
Result-cases (err e) = inr (e, refl)

-- The errors that were joined, in their order.
abbrev leaves_of : Error → List Error
leaves_of (join_one e) = leaves_of e
leaves_of (join_two e e') = leaves_of e ++ leaves_of e'
leaves_of e = e ∷ []

abbrev pub leaves : Option Error → List Error
leaves none = []
leaves (some e) = leaves_of e

pub leaves-join : (a b : Option Error) → leaves (join a b) ≡ leaves a ++ leaves b
unfolding join
leaves-join none none = refl
leaves-join none (some e) = refl
leaves-join (some e) none = sym (append-nil (leaves_of e))
leaves-join (some e) (some e') = refl
