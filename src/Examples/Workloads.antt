-- ===== src/Examples/Workloads.antt =====
-- A Deployment with three replicas is scaled to zero and restored.
use costguard_operator.Base.{
  ◌≡◌, refl, String, true, [], ◌∷◌, none, some, pos, arith, lookup, insert, erase,
}
use costguard_operator.Go.Strconv.{format_int, parse_int32}
use costguard_operator.Kube.{Workload, deployment}
use costguard_operator.Controller.Reconciler.{pre_scale_replicas_annotation}
use costguard_operator.Controller.Scale.{is_exempt, save_replicas, scaled_to_zero}
use costguard_operator.Controller.Scale.Plan.{annotation, IsScaled, scaled_to_zero-IsScaled}
use costguard_operator.Controller.Restore.{restored, is_pending, prior_count}
use costguard_operator.Controller.Restore.RoundTrip.{
  IsRestored, restored-IsRestored, restored-scaled_to_zero,
}
use costguard_operator.Controller.Patching.{patch_items}
use costguard_operator.Controller.Patching.Trace.{planned, Ran, patch_items-Ran}
use costguard_operator.Examples.Cluster.{web, cluster, at_cluster, reconciler}

-- web, scaled to zero
abbrev stopped_web : Workload
stopped_web = record web {
  replicas = some (pos 0);
  annotations = some (("team", "a") ∷ (pre_scale_replicas_annotation, "3") ∷ []);
}

web_stops : scaled_to_zero web ≡ some stopped_web
unfolding scaled_to_zero save_replicas insert lookup is_exempt format_int
web_stops = refl

web_starts : restored stopped_web ≡ some web
unfolding restored prior_count lookup erase parse_int32
web_starts = refl

not_saved : annotation pre_scale_replicas_annotation web ≡ none
unfolding lookup
not_saved = refl

saved_three : prior_count (annotation pre_scale_replicas_annotation stopped_web) ≡ some (pos 3)
unfolding prior_count lookup parse_int32
saved_three = refl

stopped_web_waits : is_pending stopped_web ≡ true
unfolding is_pending lookup
stopped_web_waits = refl

scaled_to_zero-IsScaled_example : IsScaled web stopped_web
scaled_to_zero-IsScaled_example = scaled_to_zero-IsScaled web stopped_web web_stops

restored-IsRestored_example : IsRestored stopped_web web
restored-IsRestored_example = restored-IsRestored stopped_web web web_starts

restored-scaled_to_zero_example :
    (w'' : Workload) × (restored stopped_web ≡ some w'')
    × (w''.replicas ≡ some (pos 3))
    × (w''.name ≡ "web")
    × ((key : String) → annotation key w'' ≡ annotation key web)
restored-scaled_to_zero_example =
    restored-scaled_to_zero web stopped_web web_stops not_saved (omega arith, omega arith)
      (omega arith)

-- web again with one replica more, but with the count of three saved before
abbrev old_web : Workload
old_web = record stopped_web { replicas = some (pos 4) }

old_web_stops : scaled_to_zero old_web ≡ some stopped_web
unfolding scaled_to_zero save_replicas lookup
old_web_stops = refl

patch_items-Ran_example :
    let (q, z) =
      patch_items reconciler scaled_to_zero "patch %q" deployment "team-a" 0
        (web ∷ stopped_web ∷ [])
        (at_cluster cluster) in
    Ran [] (planned scaled_to_zero deployment "team-a" (web ∷ stopped_web ∷ [])) 0 q z.calls
patch_items-Ran_example =
    patch_items-Ran reconciler scaled_to_zero "patch %q" deployment "team-a" 0
      (web ∷ stopped_web ∷ []) (at_cluster cluster)
