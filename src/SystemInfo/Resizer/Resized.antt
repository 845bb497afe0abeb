-- ===== src/SystemInfo/Resizer/Resized.antt =====
-- What a resize without an error has seen.
use ces_importer.Base.{
  ◌⊎◌, wrap, ◌<>◌, join-eq-none, ℕ, zero, suc, ◌≤◌, ◌<◌, ◌≡◌, refl, String, Option, none, some,
  List, [], ◌∷◌, Error, ok, arith, join, leb, Result-cases, Option-cases, Bool-cases, inl, inr,
}
use ces_importer.Migration.Types.{Dogu}
use ces_importer.SystemInfo.Resizer.{
  DoguVolumeResizer, Resize, decide, skip, start, report, collect, Decision, wait_for_pvc_resize,
  resize, resize_all, resize_dogus_if_needed,
}

decision_cases :
    (x : Decision) → (x ≡ skip) ⊎ (((e : Error) × (x ≡ report e)) ⊎ ((r : Resize) × (x ≡ start r)))
decision_cases skip = inl refl
decision_cases (report e) = inr (inl (e, refl))
decision_cases (start r) = inr (inr (r, refl))

module _ {W : Type 0} (d : DoguVolumeResizer W) where
  -- The world after `n` rounds of a sleep and a look at the claim.
  abbrev pub after_rounds : String → ℕ → W → W
  after_rounds name zero w = w
  after_rounds name (suc n) w = after_rounds name n (d.get_pvc name (d.sleep w)).1

  -- The look of round `n`, counted from 0, shows at least the requested size.
  abbrev pub IsLarge : String → ℕ → ℕ → W → Type 0
  IsLarge name requested n w =
      (storage : ℕ) × ((d.get_pvc name (d.sleep (after_rounds name n w))).0 ≡ ok storage)
      × (requested ≤ storage)

  some_look :
      (retries : ℕ) (name : String) (requested : ℕ) (w : W)
      → (wait_for_pvc_resize d retries name requested w).0 ≡ none
      → ((n : ℕ) × (n < retries) × IsLarge name requested n w)
  unfolding wait_for_pvc_resize
  some_look zero name requested w h = ground arith
  some_look (suc retries) name requested w h =
      let w' = (d.get_pvc name (d.sleep w)).1 in
      elim (Result-cases (d.get_pvc name (d.sleep w)).0) [
        | inr (e, p) ↦
            let (n, l, large) = some_look retries name requested w' (ground arith) in
            (suc n, ground arith, large)
        | inl (storage, p) ↦ elim (Bool-cases (leb requested storage)) [
          | inl q ↦ (zero, ground arith, (storage, p, ground arith))
          | inr q ↦
              let (n, l, large) = some_look retries name requested w' (ground arith) in
              (suc n, ground arith, large)
        ]
      ]

  look-none :
      (retries n : ℕ) (name : String) (requested : ℕ) (w : W)
      → n < retries
      → IsLarge name requested n w
      → (wait_for_pvc_resize d retries name requested w).0 ≡ none
  unfolding wait_for_pvc_resize
  look-none zero n name requested w l large = ground arith
  look-none (suc retries) zero name requested w l (storage, p, large) = ground arith
  look-none (suc retries) (suc n) name requested w l large = ground (
    arith,
    look-none retries n name requested (d.get_pvc name (d.sleep w)).1 (ground arith) large,
  )

  -- `waitForPVCResize` succeeds exactly if one of its looks, of which there are as many as retries, shows a
  -- claim of at least the requested size; a look that fails counts as a retry and is no error.
  pub wait_for_pvc_resize-eq-none :
      (retries : ℕ) (name : String) (requested : ℕ) (w : W)
      → ((wait_for_pvc_resize d retries name requested w).0 ≡ none
          → (n : ℕ) × (n < retries) × IsLarge name requested n w)
        × ((n : ℕ)
            → n < retries
            → IsLarge name requested n w
            → (wait_for_pvc_resize d retries name requested w).0 ≡ none)
  wait_for_pvc_resize-eq-none retries name requested w = (
    some_look retries name requested w,
    λ n l large. look-none retries n name requested w l large,
  )

  -- Each resize succeeds, one after the other.
  abbrev pub AllResized : List Resize → W → Type 0
  AllResized [] w = Unit
  AllResized (r ∷ rs) w =
      ((resize d r.importer_name r.size w).0 ≡ none)
      × AllResized rs (resize d r.importer_name r.size w).1

  resize_all-none :
      (rs : List Resize) (e : Option Error) (w : W)
      → (resize_all d rs e w).0 ≡ none
      → (e ≡ none) × AllResized rs w
  unfolding resize_all
  resize_all-none [] e w h = (h, tt)
  resize_all-none (r ∷ rs) e w h =
      let (p, rest) = resize_all-none rs _ _ h in
      elim (Option-cases (resize d r.importer_name r.size w).0) [
        | inl q ↦ (ground arith, (q, rest))
        | inr (f, q) ↦
            ground
              (arith, join-eq-none e (some (wrap ("failed to resize dogu " <> r.exporter_name) f)))
      ]

  -- How the loop goes through the exporter's dogus with no error: what it decides for each, and what it starts.
  pub data Gone (importer_dogus : List Dogu) : List Dogu → W → List Resize → W → Type 0 where
    at_end : {w : W} → Gone importer_dogus [] w [] w
    skipped :
        {dogu : Dogu} {dogus : List Dogu} {rs : List Resize} {w w' : W}
        → (decide d importer_dogus dogu w).0 ≡ skip
        → Gone importer_dogus dogus (decide d importer_dogus dogu w).1 rs w'
        → Gone importer_dogus (dogu ∷ dogus) w rs w'
    started :
        {dogu : Dogu} {dogus : List Dogu} {r : Resize} {rs : List Resize} {w w' : W}
        → (decide d importer_dogus dogu w).0 ≡ start r
        → Gone importer_dogus dogus (decide d importer_dogus dogu w).1 rs w'
        → Gone importer_dogus (dogu ∷ dogus) w (r ∷ rs) w'

  collect-Gone :
      (importer_dogus dogus : List Dogu) (e : Option Error) (w : W)
      → (collect d importer_dogus dogus e w).0.0 ≡ none
      → (e ≡ none)
        × Gone importer_dogus dogus w
            (collect d importer_dogus dogus e w).0.1
            (collect d importer_dogus dogus e w).1
  unfolding collect
  collect-Gone importer_dogus [] e w h = (h, at_end)
  collect-Gone importer_dogus (dogu ∷ dogus) e w h =
      let w' = (decide d importer_dogus dogu w).1 in
      elim (decision_cases (decide d importer_dogus dogu w).0) [
        | inl p ↦
            rw (p, collect)
              (let (k, gone) = collect-Gone importer_dogus dogus e w' (ground arith) in
                (k, skipped p gone))
        | inr (inl (f, p)) ↦
            let (k, _) = collect-Gone importer_dogus dogus (join e (some f)) w' (ground arith) in
            ground (arith, join-eq-none e (some f))
        | inr (inr (r, p)) ↦
            rw (p, collect)
              (let (k, gone) = collect-Gone importer_dogus dogus e w' (ground arith) in
                (k, started p gone))
      ]

  -- If `ResizeDogusIfNeeded` returns nil, then none of the exporter's dogus was found missing or gave an error, and
  -- each resize that was started succeeded, so that its claim was seen with the new size.
  pub resize_dogus_if_needed-none :
      (exporter_dogus importer_dogus : List Dogu) (w : W)
      → (resize_dogus_if_needed d exporter_dogus importer_dogus w).0 ≡ none
      → ((rs : List Resize) × (w' : W) × Gone importer_dogus exporter_dogus w rs w'
          × AllResized rs w')
  unfolding resize_dogus_if_needed
  resize_dogus_if_needed-none exporter_dogus importer_dogus w h =
      let (e, resized) = resize_all-none _ _ _ h in
      let (_, gone) = collect-Gone importer_dogus exporter_dogus none w e in (_, _, gone, resized)
