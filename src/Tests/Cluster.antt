-- ===== src/Tests/Cluster.antt =====
-- A small cluster: blueprints as a function of their names, and dogus whose pods end after a while.
use ces_importer.Base.{
  str_dec, ℕ, ◌+◌, String, ◌==◌, ◌≡◌, ◌≢◌, refl, Bool, true, false, Option, none, some, [], ◌∷◌,
  plain, ok, if◌then◌else◌, ltb, arith,
}
use ces_importer.Importer.{Answer, found, missing}
use ces_importer.Importer.Blueprints.{
  BlueprintInterface, BlueprintControl, start_stop, stop_loop, stop_blueprint, start_loop,
  start_blueprint,
}
use ces_importer.Importer.Blueprints.RoundTrip.{IsLawful, told, start_blueprint-stop_blueprint}
use ces_importer.Importer.Dogus
use ces_importer.Importer.Dogus.{DoguControl, Phase, running, succeeded, stop_all}
use ces_importer.Importer.Dogus.Stopping.{IsTimed, stop_all-terminates}

-- Whether each blueprint is stopped.
abbrev Blueprints : Type 0
Blueprints = String → Option Bool

abbrev answer_of : Option Bool → Answer (Option Bool)
answer_of none = missing
answer_of (some b) = found (some b)

abbrev client : BlueprintInterface Blueprints
client = record {
  list = λ w. (ok ("core" ∷ "tools" ∷ []), w);
  get = λ n w. (answer_of (w n), w);
  patch = λ n b w. (none, λ m. if n == m then some b else w m);
}

told-answer_of : (v : Option Bool) → v ≡ told (answer_of v) v
told-answer_of none = refl
told-answer_of (some b) = refl

client-IsLawful : IsLawful client (λ w. w)
client-IsLawful = record {
  list_keeps = λ w n. refl;
  get_keeps = λ m w n. refl;
  get_reads = λ n w. told-answer_of (w n);
  patch_sets = λ m b w n h. refl;
}

-- One blueprint runs and one is stopped.
abbrev two_blueprints : Blueprints
two_blueprints n = if n == "core" then some false else if n == "tools" then some true else none

abbrev control : BlueprintControl Blueprints
control = record { world = two_blueprints; stopped_blueprints = [] }

stops : (stop_blueprint client control).0 ≡ none
unfolding stop_blueprint stop_loop start_stop str_dec
stops = refl

starts : (start_blueprint client (stop_blueprint client control).1).0 ≡ none
unfolding start_blueprint start_loop stop_blueprint stop_loop start_stop str_dec
starts = refl

start_blueprint-stop_blueprint_example :
    ((n : String)
      → (start_blueprint client (stop_blueprint client control).1).1.world n ≡ two_blueprints n)
    × ((start_blueprint client (stop_blueprint client control).1).1.stopped_blueprints ≡ [])
start_blueprint-stop_blueprint_example =
    start_blueprint-stop_blueprint client (λ w. w) client-IsLawful control refl stops starts

-- The world is the time; the pod of the one dogu ends at 3 seconds.
abbrev pub dogus : DoguControl ℕ
dogus = record {
  parse = λ n. ok (record { namespace = "official"; simple_name = n });
  list = λ w. (ok ("redmine" ∷ []), w);
  get = λ n w. (found false, w);
  update_stopped = λ n b w. (none, w);
  list_pods = λ n w. (ok ((if ltb w 3 then running else succeeded) ∷ []), w);
  await_poll =
      λ d w. if ltb w d then (none, w + 2) else (some (plain "context deadline exceeded"), w);
  now = λ w. w;
}

dogus-IsTimed : IsTimed dogus
dogus-IsTimed = record {
  list_pods_now = λ n w. ground arith;
  await_poll_now = λ d w h. ground arith;
}

stop_all-terminates_example : stop_all dogus 151 0 ≢ none
stop_all-terminates_example = stop_all-terminates dogus dogus-IsTimed 0
