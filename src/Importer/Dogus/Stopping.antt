-- ===== src/Importer/Dogus/Stopping.antt =====
-- What a stop of all dogus has seen when it returns, and that it returns.
use ces_importer.Base.{
  Bool-cases, nat_eq, Result-cases, Option-cases, inl, inr, ℕ, zero, suc, ◌+◌, ◌*◌, ◌≤◌, ◌<◌,
  String, none, some, List, [], ◌∷◌, ◌≡◌, ◌≢◌, ok, arith,
}
use ces_importer.Importer.Dogus.{
  Phase, DoguControl, stop_timeout, stop_poll_interval, count_not_terminated_pods, stop_each,
  poll_pods, wait_for_dogu_pods_terminated, wait_each, stop_all,
}
use ces_importer.SystemInfo.Names.{QualifiedName}

-- The timer: a poll's interval passes unless the deadline has come, and a listing does not turn the clock back.
pub record IsTimed {W : Type 0} (dc : DoguControl W) : Type 0 where
  pub list_pods_now : (n : String) (w : W) → dc.now w ≤ dc.now (dc.list_pods n w).1
  pub await_poll_now :
      (d : ℕ) (w : W)
      → (dc.await_poll d w).0 ≡ none
      → (dc.now w < d) × (dc.now w + stop_poll_interval ≤ dc.now (dc.await_poll d w).1)

module _ {W : Type 0} (dc : DoguControl W) where
  -- After this many polls, each a listing and the wait for the next.
  abbrev pub after_polls : String → ℕ → ℕ → W → W
  after_polls name deadline zero w = w
  after_polls name deadline (suc n) w =
      after_polls name deadline n (dc.await_poll deadline (dc.list_pods name w).1).1

  -- Some polls after the world `w`, a listing showed that no container of the dogu may still run; `w'` is the world after that listing.
  pub record SeenTerminated (full_name : String) (w w' : W) : Type 0 where
    pub name : QualifiedName
    pub polls : ℕ
    pub phases : List Phase
    pub is_parsed : dc.parse full_name ≡ ok name
    pub is_listed :
        dc.list_pods name.simple_name
          (after_polls name.simple_name (dc.now w + stop_timeout) polls w)
        ≡ (ok phases, w')
    pub is_terminated : count_not_terminated_pods phases ≡ 0

  -- From `w` on, the dogus were seen terminated one after the other, each in polls that begin where the ones of the dogu before it ended.
  pub data Drained : List String → W → W → Type 0 where
    drained : {w w' : W} → w ≡ w' → Drained [] w w'
    then_drained :
        {name : String} {names : List String} {w w' w'' : W}
        → SeenTerminated name w w'
        → Drained names w' w''
        → Drained (name ∷ names) w w''

  poll_pods-not-none :
      IsTimed dc
      → (fuel deadline : ℕ) (name : String) (w : W)
      → deadline ≤ dc.now w + fuel * stop_poll_interval
      → poll_pods dc (suc fuel) deadline name w ≢ none
  unfolding poll_pods
  poll_pods-not-none timed zero deadline name w h =
      ground
        (arith, timed.list_pods_now name w, timed.await_poll_now deadline (dc.list_pods name w).1)
  poll_pods-not-none timed (suc fuel) deadline name w h = ground (
    arith,
    timed.list_pods_now name w,
    timed.await_poll_now deadline (dc.list_pods name w).1,
    poll_pods-not-none timed fuel deadline name (dc.await_poll deadline (dc.list_pods name w).1).1,
  )

  wait_for_dogu_pods_terminated-not-none :
      IsTimed dc → (name : String) (w : W) → wait_for_dogu_pods_terminated dc 151 name w ≢ none
  unfolding wait_for_dogu_pods_terminated
  wait_for_dogu_pods_terminated-not-none timed name w h = elim (Result-cases (dc.parse name)) [
    | inl (q, p) ↦
        ground (arith, poll_pods-not-none timed 150 (dc.now w + stop_timeout) q.simple_name w, p)
    | inr (e, p) ↦ ground arith
  ]

  wait_each-not-none : IsTimed dc → (names : List String) (w : W) → wait_each dc 151 names w ≢ none
  unfolding wait_each
  wait_each-not-none timed [] w h = ground arith
  wait_each-not-none timed (name ∷ names) w h =
      elim (Option-cases (wait_for_dogu_pods_terminated dc 151 name w)) [
        | inl p ↦ wait_for_dogu_pods_terminated-not-none timed name w p
        | inr ((some e, w'), p) ↦ ground arith
        | inr ((none, w'), p) ↦ ground (arith, wait_each-not-none timed names w')
      ]

  -- `StopAll` returns: with a poll every two seconds and a deadline after 300, no dogu is polled more than
  -- 151 times, whatever the pods do.
  pub stop_all-terminates : IsTimed dc → (w : W) → stop_all dc 151 w ≢ none
  unfolding stop_all
  stop_all-terminates timed w h = elim (Result-cases (dc.list w).0) [
    | inl (names, p) ↦
        ground (arith, wait_each-not-none timed names (stop_each dc names (dc.list w).1).1)
    | inr (e, p) ↦ ground arith
  ]

  -- The polls of one dogu up to a deadline, and the listing that ends them.
  record Seen (deadline : ℕ) (name : String) (w w' : W) : Type 0 where
    polls : ℕ
    phases : List Phase
    listed : dc.list_pods name (after_polls name deadline polls w) ≡ (ok phases, w')
    terminated : count_not_terminated_pods phases ≡ 0

  poll_pods-Seen :
      (fuel deadline : ℕ) (name : String) (w w' : W)
      → poll_pods dc fuel deadline name w ≡ some (none, w')
      → Seen deadline name w w'
  unfolding poll_pods
  poll_pods-Seen zero deadline name w w' h = ground arith
  poll_pods-Seen (suc fuel) deadline name w w' h = elim (Result-cases (dc.list_pods name w).0) [
    | inr (e, q) ↦ ground arith
    | inl (phases, q) ↦ elim (Bool-cases (nat_eq (count_not_terminated_pods phases) 0)) [
      | inl gone ↦ record {
        polls = 0;
        phases = phases;
        listed = ground (arith, q, gone, h);
        terminated = ground (arith, gone);
      }
      | inr busy ↦
          let later =
            poll_pods-Seen fuel deadline name (dc.await_poll deadline (dc.list_pods name w).1).1 w'
              (ground arith) in
          record {
            polls = suc later.polls;
            phases = later.phases;
            listed = later.listed;
            terminated = later.terminated;
          }
    ]
  ]

  wait_each-Drained :
      (fuel : ℕ) (names : List String) (w w' : W)
      → wait_each dc fuel names w ≡ some (none, w')
      → Drained names w w'
  unfolding wait_each wait_for_dogu_pods_terminated
  wait_each-Drained fuel [] w w' h = drained (ground arith)
  wait_each-Drained fuel (name ∷ names) w w' h = elim (Result-cases (dc.parse name)) [
    | inr (e, p) ↦ ground arith
    | inl (q, p) ↦
        elim (Option-cases (poll_pods dc fuel (dc.now w + stop_timeout) q.simple_name w)) [
          | inl r ↦ ground arith
          | inr ((some e, w''), r) ↦ ground arith
          | inr ((none, w''), r) ↦
              let last = poll_pods-Seen fuel _ q.simple_name w w'' r in
              then_drained
                (record {
                  name = q;
                  polls = last.polls;
                  phases = last.phases;
                  is_parsed = p;
                  is_listed = last.listed;
                  is_terminated = last.terminated;
                })
                (wait_each-Drained fuel names w'' w' (ground arith))
        ]
  ]

  pub stop_all-Drained :
      (fuel : ℕ) (w w' : W)
      → stop_all dc fuel w ≡ some (none, w')
      → ((names : List String) × ((dc.list w).0 ≡ ok names)
          × ((stop_each dc names (dc.list w).1).0 ≡ none)
          × Drained names (stop_each dc names (dc.list w).1).1 w')
  unfolding stop_all
  stop_all-Drained fuel w w' h = elim (Result-cases (dc.list w).0) [
    | inr (e, p) ↦ ground arith
    | inl (names, p) ↦ (names, p, ground arith, wait_each-Drained fuel names _ w' (ground arith))
  ]
