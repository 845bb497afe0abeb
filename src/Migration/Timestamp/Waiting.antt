-- ===== src/Migration/Timestamp/Waiting.antt =====
-- How long the waits for the final migration last.
use mathlib.Core.Path.{subst}
use ces_importer.Base.{
  ℕ, zero, suc, ◌+◌, ◌*◌, ◌≤◌, ◌<◌, ◌≡◌, refl, ◌⊎◌, inl, inr, Bool, true, false, Option, none, some,
  arith, Bool-cases, ltb,
}
use ces_importer.Migration.Timestamp.{
  FinalTimestamp, wait_until, tick_duration, poll, wait_until_ready,
}

-- A wait for a final timestamp that is set ends at the timestamp or later, unless the context was done
-- before; and it ends at once if the timestamp is not set.
wait_until-reached :
    (ft : FinalTimestamp) (cancelled : Option ℕ) (now : ℕ)
    → (now ≤ wait_until ft cancelled now)
      × ((ft ≤ wait_until ft cancelled now)
          ⊎ ((t : ℕ) × (cancelled ≡ some t) × (t ≤ wait_until ft cancelled now)))
unfolding wait_until
wait_until-reached ft none now = (ground arith, inl (ground arith))
wait_until-reached ft (some t) now = (
  ground arith,
  elim (Bool-cases (ltb t ft)) [
    | inl early ↦ inr (t, refl, ground arith)
    | inr late ↦ inl (ground arith)
  ],
)

-- The poll ends at the first of its instants at which it finds `ready` true, given one round for each.
pub poll-first :
    (n fuel : ℕ) (ready : ℕ → Bool) (now : ℕ)
    → ((i : ℕ) → i < n → ready (now + i * tick_duration) ≡ false)
    → ready (now + n * tick_duration) ≡ true
    → n < fuel
    → poll fuel ready now ≡ some (now + n * tick_duration)
unfolding poll
poll-first n zero ready now before found enough = absurd (omega arith)
poll-first zero (suc fuel) ready now before found enough =
    let here : now + 0 * tick_duration ≡ now = omega arith in rw here (rw (rw here at found))
poll-first (suc n) (suc fuel) ready now before found enough =
    let shift : (i : ℕ) → now + suc i * tick_duration ≡ now + tick_duration + i * tick_duration =
      λ i. omega arith in
    let here : now + 0 * tick_duration ≡ now = omega arith in
    let idle : ready now ≡ false = subst (λ t. ready t ≡ false) here (before 0 (omega arith)) in
    rw (idle, shift n)
      (poll-first n fuel ready (now + tick_duration)
        (λ i h. rw (shift i) at (before (suc i) (omega arith))) (rw (shift n) at (found))
        (omega arith))

-- If the waited-for instant is reached with a poll left over, the final migration waits from there in steps
-- of a minute for the first at which `ready` is true, and starts then.
pub wait_until_ready-first :
    (n fuel : ℕ) (ft : FinalTimestamp) (cancelled : Option ℕ) (ready : ℕ → Bool) (now : ℕ)
    → let start = wait_until ft cancelled now in
      ((i : ℕ) → i < n → ready (start + i * tick_duration) ≡ false)
      → ready (start + n * tick_duration) ≡ true
      → n < fuel
      → wait_until_ready fuel ft cancelled ready now ≡ some (start + n * tick_duration)
unfolding wait_until_ready
wait_until_ready-first n fuel ft cancelled ready now before found enough =
    poll-first n fuel ready (wait_until ft cancelled now) before found enough
