-- ===== src/Controller/Restore/RoundTrip.antt =====
-- Scaling a workload to zero and restoring it.
use costguard_operator.Base.{
  String, ◌≡◌, ◌≢◌, ◌↔◌, refl, sym, ap, ◌∙◌, ◌⊎◌, inl, inr, true, false, Option, none, some, lookup,
  erase, lookup-erase, lookup-nil, [], arith, eq_iff, eq_refl, ℤ, pos, ◌==◌, if◌then◌else◌, ◌<ℤ◌,
  Option-cases,
}
use costguard_operator.Go.Strconv.{format_int}
use costguard_operator.Go.Strconv.RoundTrip.{IsInt32, parse_int32-format_int}
use costguard_operator.Kube.{Workload}
use costguard_operator.Controller.Reconciler.{pre_scale_replicas_annotation}
use costguard_operator.Controller.Scale.{is_exempt, replicas_or, map_or_empty, scaled_to_zero}
use costguard_operator.Controller.Scale.Plan.{annotation, scaled_to_zero-IsScaled}
use costguard_operator.Controller.Restore.{is_pending, prior_count, erased, restored}

prior_count-pos : (raw : Option String) (n : ℤ) → prior_count raw ≡ some n → pos 0 <ℤ n
unfolding prior_count
prior_count-pos none n e = ground arith
prior_count-pos (some raw) n e = ground arith

pub prior_count-none : prior_count none ≡ none
unfolding prior_count
prior_count-none = refl

-- What a restore makes of a workload.
pub record IsRestored (w w' : Workload) : Type 0 where
  pub was_pending : is_pending w ≡ true
  pub no_longer_pending : is_pending w' ≡ false
  pub from_saved :
      (n : ℤ) × (prior_count (annotation pre_scale_replicas_annotation w) ≡ some n)
      × (w'.replicas ≡ some n)
      × (pos 0 <ℤ n)
  pub same_name : w'.name ≡ w.name
  pub same_labels : w'.template_labels ≡ w.template_labels
  pub saved_gone : annotation pre_scale_replicas_annotation w' ≡ none
  pub others :
      (key : String) → key ≢ pre_scale_replicas_annotation → annotation key w' ≡ annotation key w

-- A workload that is patched by a restore was waiting for one and no longer is; it has the saved
-- count, which is positive, keeps its name and its labels, has the saved count taken off, and has
-- its other annotations as they were.
pub restored-IsRestored : (w w' : Workload) → restored w ≡ some w' → IsRestored w w'
unfolding restored is_pending
restored-IsRestored w w' e = record {
  was_pending = elim count [
    | inl no_count ↦ ground arith
    | inr (n, saved) ↦ ground (arith, no_map, prior_count-none)
  ];
  no_longer_pending = elim count [
    | inl no_count ↦ ground arith
    | inr (n, saved) ↦
        ground (arith, prior_count-pos (annotation pre_scale_replicas_annotation w) n saved)
  ];
  from_saved = elim count [
    | inl no_count ↦ absurd (ground arith)
    | inr (n, saved) ↦ (
      n,
      saved,
      ground arith,
      prior_count-pos (annotation pre_scale_replicas_annotation w) n saved,
    )
  ];
  same_name = ground arith;
  same_labels = ground arith;
  saved_gone = ground (
    arith,
    no_map,
    erase_saved pre_scale_replicas_annotation,
    eq_refl pre_scale_replicas_annotation,
  );
  others = λ key ne. ground (arith, erase_saved key, eq_iff pre_scale_replicas_annotation key);
}
  where
    count :
        (prior_count (annotation pre_scale_replicas_annotation w) ≡ none)
        ⊎ ((n : ℤ) × (prior_count (annotation pre_scale_replicas_annotation w) ≡ some n))
    count = Option-cases (prior_count (annotation pre_scale_replicas_annotation w))

    erase_saved :
        (key : String)
        → lookup key (erase pre_scale_replicas_annotation (map_or_empty w.annotations)) ≡ (
            if pre_scale_replicas_annotation == key
            then none
            else lookup key (map_or_empty w.annotations))
    erase_saved key = lookup-erase pre_scale_replicas_annotation key (map_or_empty w.annotations)

    no_map : lookup {Value = String} pre_scale_replicas_annotation [] ≡ none
    no_map = lookup-nil pre_scale_replicas_annotation

can_restore :
    (w : Workload) (n : ℤ)
    → is_exempt w.template_labels ≡ false
    → w.replicas ≡ some (pos 0)
    → prior_count (annotation pre_scale_replicas_annotation w) ≡ some n
    → (w' : Workload) × (restored w ≡ some w')
unfolding restored
can_restore w n not_exempt stopped saved =
    (record w { replicas = some n; annotations = erased w.annotations }, ground arith)

prior_count-format_int :
    (n : ℤ) → IsInt32 n → pos 0 <ℤ n → prior_count (some (format_int n)) ≡ some n
unfolding prior_count
prior_count-format_int n fits positive = rw (parse_int32-format_int n fits) (ground arith)

-- What a restore gives after a scale-down, when the count that is saved then is `n`.
restore_scaled :
    (w w' : Workload) (n : ℤ)
    → scaled_to_zero w ≡ some w'
    → prior_count (annotation pre_scale_replicas_annotation w') ≡ some n
    → (w'' : Workload) × (restored w' ≡ some w'')
      × (w''.replicas ≡ some n)
      × (w''.name ≡ w.name)
      × (annotation pre_scale_replicas_annotation w'' ≡ none)
      × ((key : String)
          → key ≢ pre_scale_replicas_annotation
          → annotation key w'' ≡ annotation key w)
restore_scaled w w' n scaled saved =
    let s = scaled_to_zero-IsScaled w w' scaled in
    let (w'', e) = can_restore w' n (rw s.same_labels s.not_exempt) s.stopped saved in
    let b = restored-IsRestored w' w'' e in
    (
      w'',
      e,
      b.from_saved.2 ∙ sym b.from_saved.1 ∙ saved,
      b.same_name ∙ s.same_name,
      b.saved_gone,
      λ key ne. b.others key ne ∙ s.others key ne,
    )

-- A workload with a positive int32 count of replicas and no saved count, once it is scaled to zero,
-- is restored, and then has the count, the name and the annotations that it had.
pub restored-scaled_to_zero :
    (w w' : Workload)
    → scaled_to_zero w ≡ some w'
    → annotation pre_scale_replicas_annotation w ≡ none
    → IsInt32 (replicas_or (pos 1) w)
    → pos 0 <ℤ replicas_or (pos 1) w
    → (w'' : Workload) × (restored w' ≡ some w'')
      × (w''.replicas ≡ some (replicas_or (pos 1) w))
      × (w''.name ≡ w.name)
      × ((key : String) → annotation key w'' ≡ annotation key w)
restored-scaled_to_zero w w' scaled fresh fits positive =
    let saved = (scaled_to_zero-IsScaled w w' scaled).saved_new fresh in
    let (w'', e, count, name, gone, others) =
      restore_scaled w w' (replicas_or (pos 1) w) scaled
        (rw saved (prior_count-format_int (replicas_or (pos 1) w) fits positive)) in
    (
      w'',
      e,
      count,
      name,
      λ key. ground (arith, eq_iff key pre_scale_replicas_annotation, gone, fresh, others key),
    )

-- A positive count that is saved already wins over the count that the workload has when it is scaled
-- down: the restore after that gives the older count, and takes the saved one off.
restored-scaled_to_zero_saved :
    (w w' : Workload) (n : ℤ)
    → scaled_to_zero w ≡ some w'
    → prior_count (annotation pre_scale_replicas_annotation w) ≡ some n
    → (w'' : Workload) × (restored w' ≡ some w'')
      × (w''.replicas ≡ some n)
      × (w''.name ≡ w.name)
      × (annotation pre_scale_replicas_annotation w'' ≡ none)
      × ((key : String)
          → key ≢ pre_scale_replicas_annotation
          → annotation key w'' ≡ annotation key w)
restored-scaled_to_zero_saved w w' n scaled saved =
    restore_scaled w w' n scaled (elim (Option-cases (annotation pre_scale_replicas_annotation w)) [
      | inl fresh ↦ absurd (ground (arith, prior_count-none, ap prior_count fresh))
      | inr (raw, old) ↦
          rw ((scaled_to_zero-IsScaled w w' scaled).saved_old raw old) (rw old at saved)
    ])

-- A workload that is waiting for a restore is restored exactly when its saved text is a positive
-- int32; otherwise it goes on waiting.
pub pending_restored_iff :
    (w : Workload)
    → is_pending w ≡ true
    → (restored w ≡ none) ↔ (prior_count (annotation pre_scale_replicas_annotation w) ≡ none)
unfolding restored is_pending
pending_restored_iff w pending =
    elim (Option-cases (prior_count (annotation pre_scale_replicas_annotation w))) [
      | inl no_count ↦ (λ _. no_count, λ _. ground arith)
      | inr (n, saved) ↦ (λ e. absurd (ground arith), λ e. absurd (ground arith))
    ]
