-- ===== src/Controller/Ensure/Stored.antt =====
-- What the server stores once the three resources are ensured, key by key.
use costguard_operator.Base.{
  ◌≡◌, ◌≢◌, refl, sym, ap, ◌∙◌, subst, String, Bool, true, [], ◌∷◌, Option, none, some, Map, lookup,
  length, if◌then◌else◌, ◌==◌, eq_refl, eq_iff, arith, ◌&&◌, Bool-cases, inl, inr,
}
use costguard_operator.Go.Strconv.{format_int}
use costguard_operator.Api.{BudgetNamespaceSpec}
use costguard_operator.Kube.{
  ok, Quantities, Namespace, ResourceQuota, LimitRangeItem, NamespacedName,
}
use costguard_operator.Kube.Action.{World}
use costguard_operator.Kube.Resources.{
  Stored, ResourceServer, same_name, or_new, new_namespace, new_quota, new_limit_range, upsert,
}
use costguard_operator.Controller.Reconciler.{Reconciler}
use costguard_operator.Controller.Scale.{map_or_empty}
use costguard_operator.Controller.Ensure.{set_hard, merge_map, merge_namespace, ensure_resources}
use costguard_operator.Controller.Ensure.Merging.{DesiredDistinct, either, merged}
use costguard_operator.Controller.Ensure.Desired.{
  Amounts, Parses, quota_key, range_key, desired_hard, desired_range, ensured,
}
use costguard_operator.Controller.Ensure.Converging.{stepped}

-- Each entry of `after` is the desired one where there is one, else the one that was there before.
abbrev pub Merges : Option (Map String) → Option (Map String) → Option (Map String) → Type 0
Merges desired before after =
    (key : String)
    → lookup key (map_or_empty after)
      ≡ either (lookup key (map_or_empty desired)) (lookup key (map_or_empty before))

merge_map-Merges :
    (desired before : Option (Map String))
    → DesiredDistinct desired
    → Merges desired before (merge_map desired before)
unfolding lookup merge_map
merge_map-Merges none before distinct key = refl
merge_map-Merges (some desired) before distinct key = (merged desired before key distinct).0

module _ {Q : Type 0} (quantities : Quantities Q) where
  -- The text is a quantity, and that is what the list has at the key.
  abbrev pub Limits : String → String → Map Q → Type 0
  Limits key text limits =
      (q : Q) × (quantities.parse_quantity text ≡ some q) × (lookup key limits ≡ some q)

  pub record QuotaFits (spec : BudgetNamespaceSpec) (quota : ResourceQuota Q) : Type 0 where
    pub cpu : Limits "requests.cpu" spec.quota.cpu quota.hard
    pub memory : Limits "requests.memory" spec.quota.memory quota.hard
    pub storage : Limits "requests.storage" spec.quota.storage quota.hard
    pub pvc_count :
        Limits "persistentvolumeclaims" (format_int spec.quota.persistent_volume_claims) quota.hard
    pub pod_count : Limits "pods" (format_int spec.quota.pods) quota.hard
    pub no_more : length quota.hard ≡ 5

  pub record ItemFits (spec : BudgetNamespaceSpec) (item : LimitRangeItem Q) : Type 0 where
    pub of_containers : item.limit_type ≡ "Container"
    pub request_cpu : Limits "cpu" spec.defaults.request_cpu item.default_request
    pub request_memory : Limits "memory" spec.defaults.request_memory item.default_request
    pub limit_cpu : Limits "cpu" spec.defaults.limit_cpu item.default_limit
    pub limit_memory : Limits "memory" spec.defaults.limit_memory item.default_limit
    pub no_more : (length item.default_request ≡ 2) × (length item.default_limit ≡ 2)

  -- The three objects that the spec asks for, and no other change.
  pub record Ensured (spec : BudgetNamespaceSpec) (s s' : Stored Q) : Type 0 where
    pub namespace : Namespace
    pub namespace_stored : s'.namespaces spec.namespace_name ≡ some namespace
    pub labels :
        Merges spec.labels
          (or_new new_namespace (s.namespaces spec.namespace_name)).labels
          namespace.labels
    pub annotations :
        Merges spec.annotations
          (or_new new_namespace (s.namespaces spec.namespace_name)).annotations
          namespace.annotations
    pub quota : ResourceQuota Q
    pub quota_stored :
        s'.quotas (record { namespace = spec.namespace_name; name = "costguard-quota" })
        ≡ some quota
    pub quota_fits : QuotaFits spec quota
    pub item : LimitRangeItem Q
    pub range_stored :
        s'.limit_ranges (record { namespace = spec.namespace_name; name = "costguard-limitrange" })
        ≡ some (record { limits = item ∷ [] })
    pub item_fits : ItemFits spec item
    pub other_namespaces :
        (name : String) → spec.namespace_name ≢ name → s'.namespaces name ≡ s.namespaces name
    pub other_quotas :
        (key : NamespacedName)
        → record { namespace = spec.namespace_name; name = "costguard-quota" } ≢ key
        → s'.quotas key ≡ s.quotas key
    pub other_ranges :
        (key : NamespacedName)
        → record { namespace = spec.namespace_name; name = "costguard-limitrange" } ≢ key
        → s'.limit_ranges key ≡ s.limit_ranges key

module _ {K A : Type 0} (same : K → K → Bool) (k : K) (new : A) (change : A → A)
    (objects : K → Option A) where
  at_key :
      same k k ≡ true → upsert same k new change objects k ≡ some (change (or_new new (objects k)))
  at_key self =
      ap (λ (b : Bool). if b then some (change (or_new new (objects k))) else objects k) self

  elsewhere :
      ((j : K) → same k j ≡ true → k ≡ j)
      → (j : K) → k ≢ j
      → upsert same k new change objects j ≡ objects j
  elsewhere reflects j differs = elim (Bool-cases (same k j)) [
    | inl e ↦ absurd (differs (reflects j e))
    | inr e ↦ ap (λ (b : Bool). if b then some (change (or_new new (objects k))) else objects j) e
  ]

texts_equal : (a b : String) → (a == b) ≡ true → a ≡ b
texts_equal a b e = ground (arith, eq_iff a b)

same_self : (k : NamespacedName) → same_name k k ≡ true
same_self k = ap (λ (b : Bool). b && k.name == k.name) (eq_refl k.namespace) ∙ eq_refl k.name

names_equal : (k j : NamespacedName) → same_name k j ≡ true → k ≡ j
names_equal k j e i = record {
  namespace =
      texts_equal k.namespace j.namespace (both (k.namespace == j.namespace) (k.name == j.name) e).0
        i;
  name = texts_equal k.name j.name (both (k.namespace == j.namespace) (k.name == j.name) e).1 i;
}
  where
    both : (b c : Bool) → (b && c) ≡ true → (b ≡ true) × (c ≡ true)
    both b c h = ground arith

module _ {F Q S : Type 0} (r : Reconciler F Q S) (server : ResourceServer r.client) where
  ensured-Ensured :
      (spec : BudgetNamespaceSpec) (a : Amounts Q) (s : Stored Q)
      → DesiredDistinct spec.labels
      → DesiredDistinct spec.annotations
      → Parses r.quantities spec a
      → Ensured r.quantities spec s (ensured spec a s)
  unfolding ensured lookup merge_namespace
  ensured-Ensured spec a s labels annotations p =
      let old = or_new new_namespace (s.namespaces spec.namespace_name) in
      record {
        namespace = merge_namespace spec old;
        namespace_stored =
            at_key (λ x y. x == y) spec.namespace_name new_namespace (merge_namespace spec)
              s.namespaces (eq_refl spec.namespace_name);
        labels = merge_map-Merges spec.labels old.labels labels;
        annotations = merge_map-Merges spec.annotations old.annotations annotations;
        quota = set_hard (desired_hard a) (or_new (new_quota quota_name) (s.quotas quota_name));
        quota_stored =
            at_key same_name quota_name (new_quota quota_name) (set_hard (desired_hard a)) s.quotas
              (same_self quota_name);
        quota_fits = record {
          cpu = (a.cpu, p.cpu, refl);
          memory = (a.memory, p.memory, refl);
          storage = (a.storage, p.storage, refl);
          pvc_count = (a.pvc_count, p.pvc_count, refl);
          pod_count = (a.pod_count, p.pod_count, refl);
          no_more = refl;
        };
        item = record {
          limit_type = "Container";
          default_request = ("cpu", a.request_cpu) ∷ ("memory", a.request_memory) ∷ [];
          default_limit = ("cpu", a.limit_cpu) ∷ ("memory", a.limit_memory) ∷ [];
        };
        range_stored =
            at_key same_name range_name new_limit_range (desired_range a) s.limit_ranges
              (same_self range_name);
        item_fits = record {
          of_containers = refl;
          request_cpu = (a.request_cpu, p.request_cpu, refl);
          request_memory = (a.request_memory, p.request_memory, refl);
          limit_cpu = (a.limit_cpu, p.limit_cpu, refl);
          limit_memory = (a.limit_memory, p.limit_memory, refl);
          no_more = (refl, refl);
        };
        other_namespaces =
            elsewhere (λ x y. x == y) spec.namespace_name new_namespace (merge_namespace spec)
              s.namespaces (texts_equal spec.namespace_name);
        other_quotas =
            elsewhere same_name quota_name (new_quota quota_name) (set_hard (desired_hard a))
              s.quotas (names_equal quota_name);
        other_ranges =
            elsewhere same_name range_name new_limit_range (desired_range a) s.limit_ranges
              (names_equal range_name);
      }
    where
      quota_name : NamespacedName
      quota_name = quota_key spec.namespace_name

      range_name : NamespacedName
      range_name = range_key spec.namespace_name

  -- Where the three resources are ensured with success, the Namespace stored has each desired label
  -- and annotation and otherwise those that were there; the ResourceQuota costguard-quota has the
  -- parsed quantities of the spec at requests.cpu, requests.memory, requests.storage,
  -- persistentvolumeclaims and pods, and no other limit; the LimitRange costguard-limitrange has
  -- one item, for containers, with the parsed default requests and limits of cpu and memory alone;
  -- no other object is changed; the desired labels and annotations have each key once, and the
  -- server stores what CreateOrPatch and CreateOrUpdate are given.
  pub ensure-refines :
      (spec : BudgetNamespaceSpec) (w w' : World S) (b : Unit {0})
      → DesiredDistinct spec.labels
      → DesiredDistinct spec.annotations
      → ensure_resources r spec w ≡ (ok b, w')
      → Ensured r.quantities spec (server.stored w.server) (server.stored w'.server)
  ensure-refines spec w w' b labels annotations e =
      let step = stepped r server spec w w' b e in
      subst (Ensured r.quantities spec (server.stored w.server)) (sym step.after)
        (ensured-Ensured spec step.amounts (server.stored w.server) labels annotations step.parses)
