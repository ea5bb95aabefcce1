-- ===== src/Api/DeepCopy/Structs.antt =====
-- The deep copies of the structs that hold pointers, field by field.
use costguard_operator.Base.{refl}
use costguard_operator.Api.Memory.{
  string_map, time, condition_array, namespace_array, cost_budget_struct,
}
use costguard_operator.Api.Memory.Copying.{
  Reading, Grown-refl, Grown-trans, Yields-pure, Yields-part, IsLocal, Copies,
}
use costguard_operator.Api.Memory.Reads.{
  Plain, Plain-IsLocal, Entries, Entries-IsLocal, Points, Points-IsLocal, OrNil, OrNil-IsLocal,
  Each-IsLocal,
}
use costguard_operator.Api.Memory.Values.{
  MapReads, CostBudgetReads, TimeReads, ConditionsRead, SpecReads, SpecReads-IsLocal, StatusReads,
  StatusReads-IsLocal, NamespaceReads, NamespaceReads-IsLocal, ItemsRead, ListReads,
}
use costguard_operator.Api.DeepCopy.{
  CopyMethods, if_set, copy_map, copy_cost_budget, copy_slice, as_conditions, as_items,
  spec_deep_copy_into, status_deep_copy_into, namespace_deep_copy_into, list_deep_copy_into,
}
use costguard_operator.Api.DeepCopy.Parts.{if_set-Copies, copy_cost_budget-Copies}
use costguard_operator.Api.DeepCopy.Slices.{copy_slice-Copies}
use costguard_operator.Api.DeepCopy.Maps.{copy_map-Copies}

module _ {ObjectMeta ListMeta : Type 0} where
  maps-IsLocal : IsLocal {ObjectMeta = ObjectMeta} {ListMeta = ListMeta} MapReads
  maps-IsLocal = OrNil-IsLocal _ (Points-IsLocal string_map Entries Entries-IsLocal)

  maps_copied : Copies {ObjectMeta = ObjectMeta} {ListMeta = ListMeta} MapReads (if_set copy_map)
  maps_copied = if_set-Copies (Points string_map Entries) copy_map copy_map-Copies

  budgets-IsLocal : IsLocal {ObjectMeta = ObjectMeta} {ListMeta = ListMeta} CostBudgetReads
  budgets-IsLocal = OrNil-IsLocal _ (Points-IsLocal cost_budget_struct Plain Plain-IsLocal)

  budgets_copied :
      Copies {ObjectMeta = ObjectMeta} {ListMeta = ListMeta} CostBudgetReads
        (if_set copy_cost_budget)
  budgets_copied =
      if_set-Copies (Points cost_budget_struct Plain) copy_cost_budget copy_cost_budget-Copies

  pub spec_deep_copy_into-Copies :
      Copies {ObjectMeta = ObjectMeta} {ListMeta = ListMeta} SpecReads spec_deep_copy_into
  unfolding spec_deep_copy_into
  spec_deep_copy_into-Copies = record {
    copied = λ lo hi h s v below r.
        Yields-part maps-IsLocal maps_copied _ _ lo hi h h s.labels v.labels below r.labels
          (Grown-refl h)
          (λ labels h1 g1 labels_copied.
            Yields-part maps-IsLocal maps_copied _ _ lo hi h h1 s.annotations v.annotations below
              r.annotations g1
              (λ annotations h2 g2 annotations_copied.
                Yields-part budgets-IsLocal budgets_copied _ _ lo hi h h2 s.cost_budget
                  v.cost_budget below r.cost_budget (Grown-trans g1 g2)
                  (λ cost_budget h3 g3 budget_copied.
                    Yields-pure (λ y h'. SpecReads h.next h'.next h' y v)
                      (record s {
                        labels = labels;
                        annotations = annotations;
                        cost_budget = cost_budget;
                      })
                      h3
                      (record {
                        namespace_name = r.namespace_name;
                        labels = labels_copied h3 (Grown-trans g2 g3);
                        annotations = annotations_copied h3 g3;
                        quota = r.quota;
                        defaults = r.defaults;
                        ttl = r.ttl;
                        enforcement = r.enforcement;
                        cost_budget = budget_copied h3 (Grown-refl h3);
                      }))));
  }

module _ {ObjectMeta ListMeta Meta ListedMeta : Type 0} where
  -- What k8s.io/apimachinery documents of its deep copies, where the metadata stand for values by
  -- readings of their own.
  pub record CopyLaws (methods : CopyMethods ObjectMeta ListMeta)
      (MetaReads : Reading ObjectMeta ListMeta ObjectMeta Meta)
      (ListMetaReads : Reading ObjectMeta ListMeta ListMeta ListedMeta) : Type 0 where
    pub meta_local : IsLocal MetaReads
    pub list_meta_local : IsLocal ListMetaReads
    pub meta_copied : Copies MetaReads methods.copy_object_meta
    pub list_meta_copied : Copies ListMetaReads methods.copy_list_meta
    pub time_copied : Copies TimeReads methods.copy_time
    pub condition_copied : Copies Plain methods.copy_condition

  module _ (methods : CopyMethods ObjectMeta ListMeta)
      (MetaReads : Reading ObjectMeta ListMeta ObjectMeta Meta)
      (ListMetaReads : Reading ObjectMeta ListMeta ListMeta ListedMeta)
      (laws : CopyLaws methods MetaReads ListMetaReads) where
    times-IsLocal : IsLocal {ObjectMeta = ObjectMeta} {ListMeta = ListMeta} (OrNil TimeReads)
    times-IsLocal = OrNil-IsLocal _ (Points-IsLocal time Plain Plain-IsLocal)

    times_copied : Copies (OrNil TimeReads) (if_set methods.copy_time)
    times_copied = if_set-Copies TimeReads methods.copy_time laws.time_copied

    conditions-IsLocal : IsLocal {ObjectMeta = ObjectMeta} {ListMeta = ListMeta} ConditionsRead
    conditions-IsLocal =
        OrNil-IsLocal _ (Points-IsLocal condition_array _ (Each-IsLocal _ Plain-IsLocal))

    conditions_copied :
        Copies ConditionsRead
          (if_set (copy_slice as_conditions condition_array methods.copy_condition))
    conditions_copied = if_set-Copies _ _ (
        copy_slice-Copies Plain methods.copy_condition Plain-IsLocal laws.condition_copied
          as_conditions condition_array (λ x. refl))

    pub status_deep_copy_into-Copies : Copies StatusReads (status_deep_copy_into methods)
    unfolding status_deep_copy_into
    status_deep_copy_into-Copies = record {
      copied = λ lo hi h s v below r.
          Yields-part times-IsLocal times_copied _ _ lo hi h h s.expires_at v.status.expires_at
            below r.expires_at (Grown-refl h)
            (λ expires_at h1 g1 expiry_copied.
              Yields-part times-IsLocal times_copied _ _ lo hi h h1 s.last_enforcement_at
                v.status.last_enforcement_at below r.last_enforcement_at g1
                (λ last_enforcement_at h2 g2 enforcement_copied.
                  Yields-part times-IsLocal times_copied _ _ lo hi h h2 s.last_cost_query_at
                    v.status.last_cost_query_at below r.last_cost_query_at (Grown-trans g1 g2)
                    (λ last_cost_query_at h3 g3 query_copied.
                      Yields-part conditions-IsLocal conditions_copied _ _ lo hi h h3 s.conditions
                        v.listed below r.conditions (Grown-trans g1 (Grown-trans g2 g3))
                        (λ conditions h4 g4 list_copied.
                          Yields-pure (λ y h'. StatusReads h.next h'.next h' y v)
                            (record s {
                              expires_at = expires_at;
                              last_enforcement_at = last_enforcement_at;
                              last_cost_query_at = last_cost_query_at;
                              conditions = conditions;
                            })
                            h4
                            (record {
                              observed_generation = r.observed_generation;
                              managed_namespace = r.managed_namespace;
                              expires_at = expiry_copied h4 (Grown-trans g2 (Grown-trans g3 g4));
                              last_enforcement_at = enforcement_copied h4 (Grown-trans g3 g4);
                              last_enforcement_operation = r.last_enforcement_operation;
                              last_cost_query_at = query_copied h4 g4;
                              last_observed_spend_usd = r.last_observed_spend_usd;
                              conditions = list_copied h4 (Grown-refl h4);
                              conditions_listed = r.conditions_listed;
                            })))));
    }

    pub namespace_deep_copy_into-Copies :
        Copies (NamespaceReads MetaReads) (namespace_deep_copy_into methods)
    unfolding namespace_deep_copy_into
    namespace_deep_copy_into-Copies = record {
      copied = λ lo hi h x v below r.
          Yields-part laws.meta_local laws.meta_copied _ _ lo hi h h x.object_meta v.object_meta
            below r.object_meta (Grown-refl h)
            (λ object_meta h1 g1 meta_copied.
              Yields-part SpecReads-IsLocal spec_deep_copy_into-Copies _ _ lo hi h h1 x.spec v.spec
                below r.spec g1
                (λ spec h2 g2 spec_copied.
                  Yields-part StatusReads-IsLocal status_deep_copy_into-Copies _ _ lo hi h h2
                    x.status v.status below r.status (Grown-trans g1 g2)
                    (λ status h3 g3 status_copied.
                      Yields-pure (λ y h'. NamespaceReads MetaReads h.next h'.next h' y v)
                        (record x { object_meta = object_meta; spec = spec; status = status }) h3
                        (record {
                          type_meta = r.type_meta;
                          object_meta = meta_copied h3 (Grown-trans g2 g3);
                          spec = spec_copied h3 g3;
                          status = status_copied h3 (Grown-refl h3);
                        }))));
    }

    items-IsLocal : IsLocal (ItemsRead MetaReads ListMetaReads)
    items-IsLocal = OrNil-IsLocal _ (
        Points-IsLocal namespace_array _
          (Each-IsLocal _ (NamespaceReads-IsLocal MetaReads laws.meta_local)))

    items_copied :
        Copies
          (ItemsRead MetaReads ListMetaReads)
          (if_set (copy_slice as_items namespace_array (namespace_deep_copy_into methods)))
    items_copied = if_set-Copies _ _ (
        copy_slice-Copies (NamespaceReads MetaReads) (namespace_deep_copy_into methods)
          (NamespaceReads-IsLocal MetaReads laws.meta_local) namespace_deep_copy_into-Copies
          as_items namespace_array (λ x. refl))

    pub list_deep_copy_into-Copies :
        Copies (ListReads MetaReads ListMetaReads) (list_deep_copy_into methods)
    unfolding list_deep_copy_into
    list_deep_copy_into-Copies = record {
      copied = λ lo hi h x v below r.
          Yields-part laws.list_meta_local laws.list_meta_copied _ _ lo hi h h x.list_meta
            v.list_meta below r.list_meta (Grown-refl h)
            (λ list_meta h1 g1 meta_copied.
              Yields-part items-IsLocal items_copied _ _ lo hi h h1 x.items v.items below r.items g1
                (λ items h2 g2 items_copied.
                  Yields-pure (λ y h'. ListReads MetaReads ListMetaReads h.next h'.next h' y v)
                    (record x { list_meta = list_meta; items = items }) h2
                    (record {
                      type_meta = r.type_meta;
                      list_meta = meta_copied h2 g2;
                      items = items_copied h2 (Grown-refl h2);
                    })));
    }
