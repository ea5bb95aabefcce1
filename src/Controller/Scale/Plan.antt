-- ===== src/Controller/Scale/Plan.antt =====
-- What scaling does to one workload.
use costguard_operator.Base.{
  String, ◌≡◌, ◌≢◌, ◌⊎◌, true, false, Option, none, some, Map, lookup, lookup-insert, arith, eq_iff,
  eq_refl, ℤ, pos, ◌==◌, if◌then◌else◌,
}
use costguard_operator.Go.Strconv.{format_int}
use costguard_operator.Kube.{Workload}
use costguard_operator.Controller.Reconciler.{pre_scale_replicas_annotation}
use costguard_operator.Controller.Scale.{
  is_exempt, replicas_or, map_or_empty, save_replicas, scaled_to_zero,
}

-- The value of an annotation, `none` also where there are no annotations.
abbrev pub annotation : String → Workload → Option String
annotation key w = lookup key (map_or_empty w.annotations)

-- A workload is left alone exactly when it is exempt or has no replica (one that does not state
-- its count has one).
pub left_alone_iff :
    (w : Workload)
    → (scaled_to_zero w ≡ none → (is_exempt w.template_labels ≡ true) ⊎ (w.replicas ≡ some (pos 0)))
      × ((is_exempt w.template_labels ≡ true) ⊎ (w.replicas ≡ some (pos 0))
          → scaled_to_zero w ≡ none)
unfolding scaled_to_zero is_exempt
left_alone_iff w = (ground arith, ground arith)

-- What a scale-down makes of a workload.
pub record IsScaled (w w' : Workload) : Type 0 where
  pub not_exempt : is_exempt w.template_labels ≡ false
  pub was_running : w.replicas ≢ some (pos 0)
  pub stopped : w'.replicas ≡ some (pos 0)
  pub same_name : w'.name ≡ w.name
  pub same_labels : w'.template_labels ≡ w.template_labels
  pub saved_new :
      annotation pre_scale_replicas_annotation w ≡ none
      → annotation pre_scale_replicas_annotation w' ≡ some (format_int (replicas_or (pos 1) w))
  pub saved_old :
      (raw : String)
      → annotation pre_scale_replicas_annotation w ≡ some raw
      → annotation pre_scale_replicas_annotation w' ≡ some raw
  pub others :
      (key : String) → key ≢ pre_scale_replicas_annotation → annotation key w' ≡ annotation key w

lookup-save_replicas :
    (n : ℤ) (m : Map String) (key : String)
    → lookup key (save_replicas n m) ≡ (
        if pre_scale_replicas_annotation == key
        then some
            (elim (lookup pre_scale_replicas_annotation m) [ none ↦ format_int n | some raw ↦ raw ])
        else lookup key m)
unfolding save_replicas
lookup-save_replicas n m key = ground (
  arith,
  lookup-insert pre_scale_replicas_annotation key (format_int n) m,
  eq_iff pre_scale_replicas_annotation key,
)

-- A workload that is patched was not exempt and had a replica; it then has none, keeps its name and
-- its labels, has its former count saved unless a count was saved before, and has its other
-- annotations as they were.
pub scaled_to_zero-IsScaled : (w w' : Workload) → scaled_to_zero w ≡ some w' → IsScaled w w'
unfolding scaled_to_zero
scaled_to_zero-IsScaled w w' e = record {
  not_exempt = ground arith;
  was_running = ground arith;
  stopped = ground arith;
  same_name = ground arith;
  same_labels = ground arith;
  saved_new =
      ground (arith, saved pre_scale_replicas_annotation, eq_refl pre_scale_replicas_annotation);
  saved_old = λ raw.
      ground (arith, saved pre_scale_replicas_annotation, eq_refl pre_scale_replicas_annotation);
  others = λ key ne. ground (arith, saved key, eq_iff pre_scale_replicas_annotation key);
}
  where
    saved :
        (key : String)
        → lookup key (save_replicas (replicas_or (pos 1) w) (map_or_empty w.annotations)) ≡ (
            if pre_scale_replicas_annotation == key
            then some (elim (lookup pre_scale_replicas_annotation (map_or_empty w.annotations)) [
              | none ↦ format_int (replicas_or (pos 1) w)
              | some raw ↦ raw
            ])
            else lookup key (map_or_empty w.annotations))
    saved key = lookup-save_replicas (replicas_or (pos 1) w) (map_or_empty w.annotations) key

-- A workload that was scaled to zero is left alone by the next scale-down.
pub scaled_twice : (w w' : Workload) → scaled_to_zero w ≡ some w' → scaled_to_zero w' ≡ none
unfolding scaled_to_zero
scaled_twice w w' e = ground arith
