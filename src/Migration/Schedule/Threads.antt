-- ===== src/Migration/Schedule/Threads.antt =====
-- The threads that start migrations: cron's for the delta migrations, the watcher of config maps for manual
-- ones, and the final one. They share `migrationRunning`, an atomic flag that is loaded and stored
-- in separate steps.
use ces_importer.Base.{ℕ, ◌≤◌, ◌≡◌, refl, ◌⊎◌, inl, Bool, true, false, ◌&&◌, ◌||◌, not, arith}
use ces_importer.Migration.Timestamp.{FinalTimestamp, is_zero, expired}

-- Where a thread stands: before the load; after a load that found the flag clear; after the store; in
-- `RunMigration`.
pub data Place : Type 0 where
  idle loaded flagged migrating : Place

-- The final thread waits, migrates and is done.
pub data Final : Type 0 where
  waiting final_migrating done : Final

pub record Threads : Type 0 where
  pub running : Bool
  pub delta : Place
  pub manual : Place
  pub final : Final
  pub now : ℕ
  pub cancelled : Bool

-- One step of one thread, or of the clock or the context. `ft` is the final timestamp.
pub data Step (ft : FinalTimestamp) (s t : Threads) : Type 0 where
  delta_load : s.delta ≡ idle → s.running ≡ false → t ≡ record s { delta = loaded } → Step ft s t
  delta_store : s.delta ≡ loaded → t ≡ record s { delta = flagged; running = true } → Step ft s t
  delta_skip :
      s.delta ≡ flagged
      → (not (is_zero ft) && expired ft s.now) ≡ true
      → t ≡ record s { delta = idle; running = false }
      → Step ft s t
  delta_start :
      s.delta ≡ flagged
      → (not (is_zero ft) && expired ft s.now) ≡ false
      → t ≡ record s { delta = migrating }
      → Step ft s t
  delta_end : s.delta ≡ migrating → t ≡ record s { delta = idle; running = false } → Step ft s t
  manual_load : s.manual ≡ idle → s.running ≡ false → t ≡ record s { manual = loaded } → Step ft s t
  manual_store : s.manual ≡ loaded → t ≡ record s { manual = flagged; running = true } → Step ft s t
  manual_start : s.manual ≡ flagged → t ≡ record s { manual = migrating } → Step ft s t
  manual_end : s.manual ≡ migrating → t ≡ record s { manual = idle; running = false } → Step ft s t
  -- the wait ends at the timestamp or with the context, and then the flag is found clear
  final_start :
      s.final ≡ waiting
      → is_zero ft ≡ false
      → (ft ≤ s.now) ⊎ (s.cancelled ≡ true)
      → s.running ≡ false
      → t ≡ record s { final = final_migrating }
      → Step ft s t
  final_end : s.final ≡ final_migrating → t ≡ record s { final = done } → Step ft s t
  tick : (later : ℕ) → s.now ≤ later → t ≡ record s { now = later } → Step ft s t
  cancel : t ≡ record s { cancelled = true } → Step ft s t

pub data Reach (ft : FinalTimestamp) (s : Threads) : Threads → Type 0 where
  here : Reach ft s s
  next : (t : Threads) {u : Threads} → Reach ft s t → Step ft t u → Reach ft s u

-- Nothing is started yet.
abbrev pub initial : ℕ → Threads
initial now = record {
  running = false;
  delta = idle;
  manual = idle;
  final = waiting;
  now = now;
  cancelled = false;
}

-- Between its load and its store a thread can be overtaken by the other's load, and then both migrate:
-- whenever the delta thread and the manual thread are idle, the flag is clear and the final timestamp
-- has not passed, a run can go on to a state in which both are in `RunMigration`.
pub overlap :
    (ft : FinalTimestamp) (s : Threads)
    → s.delta ≡ idle
    → s.manual ≡ idle
    → s.running ≡ false
    → (not (is_zero ft) && expired ft s.now) ≡ false
    → (t : Threads) × Reach ft s t × (t.delta ≡ migrating) × (t.manual ≡ migrating)
overlap ft s d m r in_time =
    let s₁ : Threads = record s { delta = loaded } in
    let s₂ : Threads = record s₁ { manual = loaded } in
    let s₃ : Threads = record s₂ { delta = flagged; running = true } in
    let s₄ : Threads = record s₃ { manual = flagged; running = true } in
    let s₅ : Threads = record s₄ { delta = migrating } in
    let s₆ : Threads = record s₅ { manual = migrating } in
    let r₂ : Reach ft s s₂ = next s₁ (next s here (delta_load d r refl)) (manual_load m r refl) in
    let r₄ : Reach ft s s₄ =
      next s₃ (next s₂ r₂ (delta_store refl refl)) (manual_store refl refl) in
    let r₆ : Reach ft s s₆ =
      next s₅ (next s₄ r₄ (delta_start refl in_time refl)) (manual_start refl refl) in
    (s₆, r₆, refl, refl)

-- The final migration sets no flag: while it runs and the manual thread is idle and the flag is clear, a
-- manual migration can start beside it.
overlap_final :
    (ft : FinalTimestamp) (s : Threads)
    → s.final ≡ final_migrating
    → s.manual ≡ idle
    → s.running ≡ false
    → (t : Threads) × Reach ft s t × (t.final ≡ final_migrating) × (t.manual ≡ migrating)
overlap_final ft s f m r =
    let s₁ : Threads = record s { manual = loaded } in
    let s₂ : Threads = record s₁ { manual = flagged; running = true } in
    let s₃ : Threads = record s₂ { manual = migrating } in
    let r₁ : Reach ft s s₁ = next s here (manual_load m r refl) in
    (s₃, next s₂ (next s₁ r₁ (manual_store refl refl)) (manual_start refl refl), f, refl)

-- While one thread is between its load and its store, the other does not move.
abbrev pub Undisturbed : Threads → Threads → Type 0
Undisturbed s t = (s.delta ≡ loaded → t.manual ≡ s.manual) × (s.manual ≡ loaded → t.delta ≡ s.delta)

-- The states that are reached by such steps.
pub data Orderly (ft : FinalTimestamp) (s : Threads) : Threads → Type 0 where
  start : Orderly ft s s
  more :
      (t : Threads) {u : Threads} → Orderly ft s t → Step ft t u → Undisturbed t u → Orderly ft s u

abbrev is_busy : Place → Bool
is_busy flagged = true
is_busy migrating = true
is_busy _ = false

-- One of the two threads is idle, and the flag says whether the other is past its store.
record IsExclusive (s : Threads) : Type 0 where
  one_idle : (s.delta ≡ idle) ⊎ (s.manual ≡ idle)
  flag : s.running ≡ (is_busy s.delta || is_busy s.manual)

Step-IsExclusive :
    (ft : FinalTimestamp) (s t : Threads)
    → Step ft s t
    → Undisturbed s t
    → IsExclusive s
    → IsExclusive t
Step-IsExclusive ft s t (delta_load a b e) u x = ground arith
Step-IsExclusive ft s t (delta_store a e) u x = ground arith
Step-IsExclusive ft s t (delta_skip a b e) u x = ground arith
Step-IsExclusive ft s t (delta_start a b e) u x = ground arith
Step-IsExclusive ft s t (delta_end a e) u x = ground arith
Step-IsExclusive ft s t (manual_load a b e) u x = ground arith
Step-IsExclusive ft s t (manual_store a e) u x = ground arith
Step-IsExclusive ft s t (manual_start a e) u x = ground arith
Step-IsExclusive ft s t (manual_end a e) u x = ground arith
Step-IsExclusive ft s t (final_start a b c d e) u x = ground arith
Step-IsExclusive ft s t (final_end a e) u x = ground arith
Step-IsExclusive ft s t (tick later b e) u x = ground arith
Step-IsExclusive ft s t (cancel e) u x = ground arith

Orderly-IsExclusive :
    (ft : FinalTimestamp) (s : Threads) {t : Threads}
    → IsExclusive s
    → Orderly ft s t
    → IsExclusive t
Orderly-IsExclusive ft s x start = x
Orderly-IsExclusive ft s {t = u} x (more t r st un) =
    Step-IsExclusive ft t u st un (Orderly-IsExclusive ft s x r)

-- The flag keeps delta migrations and manual ones apart as long as no thread moves between the other's load
-- and store: in each state that is reached so from the start, one of the two threads is idle.
pub orderly_exclusive :
    (ft : FinalTimestamp) (now : ℕ) (t : Threads)
    → Orderly ft (initial now) t
    → (t.delta ≡ idle) ⊎ (t.manual ≡ idle)
orderly_exclusive ft now t r =
    (Orderly-IsExclusive ft (initial now) (record { one_idle = inl refl; flag = refl }) r).one_idle
