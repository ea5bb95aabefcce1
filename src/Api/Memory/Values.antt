-- ===== src/Api/Memory/Values.antt =====
-- How the structs of api/v1alpha1 stand in memory: the plain values of Api that they stand for.
use costguard_operator.Base.{◌≡◌, String, List, [], Option, none, some, Map}
use costguard_operator.Go.Time.{Time}
use costguard_operator.Api.{
  BudgetNamespaceSpec, BudgetNamespaceStatus, BudgetNamespaceCostBudgetSpec, Condition,
}
use costguard_operator.Api.Memory.{
  Ptr, TypeMeta, SpecStruct, StatusStruct, NamespaceStruct, ListStruct, Memory, string_map, time,
  condition_array, namespace_array, cost_budget_struct,
}
use costguard_operator.Api.Memory.Copying.{Reading, IsLocal}
use costguard_operator.Api.Memory.Reads.{
  Plain, Plain-IsLocal, Entries, Entries-IsLocal, Points, Points-IsLocal, OrNil, OrNil-IsLocal,
  Each, Each-IsLocal,
}

-- A nil slice reads as an empty list.
abbrev pub or_empty : Option (List Condition) → List Condition
or_empty none = []
or_empty (some cs) = cs

-- A status, and its slice of conditions, which is nil where nothing is listed.
pub record StatusValue : Type 0 where
  pub status : BudgetNamespaceStatus
  pub listed : Option (List Condition)

-- The plain values of a BudgetNamespace and of a BudgetNamespaceList, where the metadata stand for
-- values of any types.
pub record NamespaceValue (Meta : Type 0) : Type 0 where
  pub type_meta : TypeMeta
  pub object_meta : Meta
  pub spec : BudgetNamespaceSpec
  pub status : StatusValue

pub record ListValue (Meta ListedMeta : Type 0) : Type 0 where
  pub type_meta : TypeMeta
  pub list_meta : ListedMeta
  pub items : Option (List (NamespaceValue Meta))

module _ {ObjectMeta ListMeta : Type 0} where
  abbrev pub MapReads : Reading ObjectMeta ListMeta (Option Ptr) (Option (Map String))
  MapReads = OrNil (Points string_map Entries)

  abbrev pub CostBudgetReads :
      Reading ObjectMeta ListMeta (Option Ptr) (Option BudgetNamespaceCostBudgetSpec)
  CostBudgetReads = OrNil (Points cost_budget_struct Plain)

  abbrev pub TimeReads : Reading ObjectMeta ListMeta Ptr Time
  TimeReads = Points time Plain

  abbrev pub ConditionsRead : Reading ObjectMeta ListMeta (Option Ptr) (Option (List Condition))
  ConditionsRead = OrNil (Points condition_array (Each Plain))

  pub record SpecReads (lo hi : Ptr) (h : Memory ObjectMeta ListMeta) (x : SpecStruct)
      (v : BudgetNamespaceSpec) : Type 0 where
    pub namespace_name : x.namespace_name ≡ v.namespace_name
    pub labels : MapReads lo hi h x.labels v.labels
    pub annotations : MapReads lo hi h x.annotations v.annotations
    pub quota : x.quota ≡ v.quota
    pub defaults : x.defaults ≡ v.defaults
    pub ttl : x.ttl ≡ v.ttl
    pub enforcement : x.enforcement ≡ v.enforcement
    pub cost_budget : CostBudgetReads lo hi h x.cost_budget v.cost_budget

  pub record StatusReads (lo hi : Ptr) (h : Memory ObjectMeta ListMeta) (x : StatusStruct)
      (value : StatusValue) : Type 0 where
    pub observed_generation : x.observed_generation ≡ value.status.observed_generation
    pub managed_namespace : x.managed_namespace ≡ value.status.managed_namespace
    pub expires_at : OrNil TimeReads lo hi h x.expires_at value.status.expires_at
    pub last_enforcement_at :
        OrNil TimeReads lo hi h x.last_enforcement_at value.status.last_enforcement_at
    pub last_enforcement_operation :
        x.last_enforcement_operation ≡ value.status.last_enforcement_operation
    pub last_cost_query_at :
        OrNil TimeReads lo hi h x.last_cost_query_at value.status.last_cost_query_at
    pub last_observed_spend_usd : x.last_observed_spend_usd ≡ value.status.last_observed_spend_usd
    pub conditions : ConditionsRead lo hi h x.conditions value.listed
    pub conditions_listed : or_empty value.listed ≡ value.status.conditions

  pub SpecReads-IsLocal : IsLocal SpecReads
  SpecReads-IsLocal = record {
    moved = λ lo hi lo' hi' h h' x v down up same r.
        let map_local = OrNil-IsLocal _ (Points-IsLocal string_map Entries Entries-IsLocal) in
        let cost_local = OrNil-IsLocal _ (Points-IsLocal cost_budget_struct Plain Plain-IsLocal) in
        record {
          namespace_name = r.namespace_name;
          labels = map_local.moved lo hi lo' hi' h h' x.labels v.labels down up same r.labels;
          annotations =
              map_local.moved lo hi lo' hi' h h' x.annotations v.annotations down up same
                r.annotations;
          quota = r.quota;
          defaults = r.defaults;
          ttl = r.ttl;
          enforcement = r.enforcement;
          cost_budget =
              cost_local.moved lo hi lo' hi' h h' x.cost_budget v.cost_budget down up same
                r.cost_budget;
        };
  }

  pub StatusReads-IsLocal : IsLocal StatusReads
  StatusReads-IsLocal = record {
    moved = λ lo hi lo' hi' h h' x v down up same r.
        let time_local = OrNil-IsLocal _ (Points-IsLocal time Plain Plain-IsLocal) in
        let list_local =
          OrNil-IsLocal _ (Points-IsLocal condition_array _ (Each-IsLocal _ Plain-IsLocal)) in
        record {
          observed_generation = r.observed_generation;
          managed_namespace = r.managed_namespace;
          expires_at =
              time_local.moved lo hi lo' hi' h h' x.expires_at v.status.expires_at down up same
                r.expires_at;
          last_enforcement_at =
              time_local.moved lo hi lo' hi' h h' x.last_enforcement_at v.status.last_enforcement_at
                down up same r.last_enforcement_at;
          last_enforcement_operation = r.last_enforcement_operation;
          last_cost_query_at =
              time_local.moved lo hi lo' hi' h h' x.last_cost_query_at v.status.last_cost_query_at
                down up same r.last_cost_query_at;
          last_observed_spend_usd = r.last_observed_spend_usd;
          conditions =
              list_local.moved lo hi lo' hi' h h' x.conditions v.listed down up same r.conditions;
          conditions_listed = r.conditions_listed;
        };
  }

  module _ {Meta : Type 0} (MetaReads : Reading ObjectMeta ListMeta ObjectMeta Meta) where
    pub record NamespaceReads (lo hi : Ptr) (h : Memory ObjectMeta ListMeta)
        (x : NamespaceStruct ObjectMeta) (v : NamespaceValue Meta) : Type 0 where
      pub type_meta : x.type_meta ≡ v.type_meta
      pub object_meta : MetaReads lo hi h x.object_meta v.object_meta
      pub spec : SpecReads lo hi h x.spec v.spec
      pub status : StatusReads lo hi h x.status v.status

    pub NamespaceReads-IsLocal : IsLocal MetaReads → IsLocal NamespaceReads
    NamespaceReads-IsLocal l = record {
      moved = λ lo hi lo' hi' h h' x v down up same r. record {
        type_meta = r.type_meta;
        object_meta =
            l.moved lo hi lo' hi' h h' x.object_meta v.object_meta down up same r.object_meta;
        spec = (SpecReads-IsLocal).moved lo hi lo' hi' h h' x.spec v.spec down up same r.spec;
        status =
            (StatusReads-IsLocal).moved lo hi lo' hi' h h' x.status v.status down up same r.status;
      };
    }

    module _ {ListedMeta : Type 0}
        (ListMetaReads : Reading ObjectMeta ListMeta ListMeta ListedMeta) where
      abbrev pub ItemsRead :
          Reading ObjectMeta ListMeta (Option Ptr) (Option (List (NamespaceValue Meta)))
      ItemsRead = OrNil (Points namespace_array (Each NamespaceReads))

      pub record ListReads (lo hi : Ptr) (h : Memory ObjectMeta ListMeta) (x : ListStruct ListMeta)
          (v : ListValue Meta ListedMeta) : Type 0 where
        pub type_meta : x.type_meta ≡ v.type_meta
        pub list_meta : ListMetaReads lo hi h x.list_meta v.list_meta
        pub items : ItemsRead lo hi h x.items v.items

      pub ListReads-IsLocal : IsLocal MetaReads → IsLocal ListMetaReads → IsLocal ListReads
      ListReads-IsLocal l k = record {
        moved = λ lo hi lo' hi' h h' x v down up same r.
            let items_local =
              OrNil-IsLocal _
                (Points-IsLocal namespace_array _ (Each-IsLocal _ (NamespaceReads-IsLocal l))) in
            record {
              type_meta = r.type_meta;
              list_meta =
                  k.moved lo hi lo' hi' h h' x.list_meta v.list_meta down up same r.list_meta;
              items = items_local.moved lo hi lo' hi' h h' x.items v.items down up same r.items;
            };
      }
