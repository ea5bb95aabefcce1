-- ===== src/Api/Memory.antt =====
-- The memory that values of api/v1alpha1/budgetnamespace_types.go stand in: what a pointer, a map or
-- a slice leads to is an object at an address. A struct as it lies in memory holds addresses where
-- the plain records of Api hold values; nil is `none`.
pub mod Copying
pub mod Reads
pub mod Values
pub mod Writes
use costguard_operator.Base.{
  ℕ, ◌+◌, String, List, Option, none, some, Map, ℤ, eqb, if◌then◌else◌, insert,
}
use costguard_operator.Go.Time.{Time}
use costguard_operator.Api.{
  BudgetNamespaceQuotaSpec, BudgetNamespaceDefaultsSpec, BudgetNamespaceEnforcementSpec,
  BudgetNamespaceCostBudgetSpec, Condition,
}

abbrev pub Ptr : Type 0
Ptr = ℕ

-- metav1.TypeMeta
pub record TypeMeta : Type 0 where
  pub kind : String
  pub api_version : String

pub record SpecStruct : Type 0 where
  pub namespace_name : String
  pub labels : Option Ptr
  pub annotations : Option Ptr
  pub quota : BudgetNamespaceQuotaSpec
  pub defaults : BudgetNamespaceDefaultsSpec
  pub ttl : String
  pub enforcement : BudgetNamespaceEnforcementSpec
  pub cost_budget : Option Ptr

pub record StatusStruct : Type 0 where
  pub observed_generation : ℤ
  pub managed_namespace : String
  pub expires_at : Option Ptr
  pub last_enforcement_at : Option Ptr
  pub last_enforcement_operation : String
  pub last_cost_query_at : Option Ptr
  pub last_observed_spend_usd : String
  pub conditions : Option Ptr

-- metav1.ObjectMeta and metav1.ListMeta are not part of the repository: any types.
pub record NamespaceStruct (ObjectMeta : Type 0) : Type 0 where
  pub type_meta : TypeMeta
  pub object_meta : ObjectMeta
  pub spec : SpecStruct
  pub status : StatusStruct

-- BudgetNamespaceList
pub record ListStruct (ListMeta : Type 0) : Type 0 where
  pub type_meta : TypeMeta
  pub list_meta : ListMeta
  pub items : Option Ptr

pub data Object (ObjectMeta ListMeta : Type 0) : Type 0 where
  string_map : Map String → Object ObjectMeta ListMeta
  time : Time → Object ObjectMeta ListMeta
  condition_array : List Condition → Object ObjectMeta ListMeta
  namespace_array : List (NamespaceStruct ObjectMeta) → Object ObjectMeta ListMeta
  namespace_struct : NamespaceStruct ObjectMeta → Object ObjectMeta ListMeta
  list_struct : ListStruct ListMeta → Object ObjectMeta ListMeta
  spec_struct : SpecStruct → Object ObjectMeta ListMeta
  status_struct : StatusStruct → Object ObjectMeta ListMeta
  quota_struct : BudgetNamespaceQuotaSpec → Object ObjectMeta ListMeta
  defaults_struct : BudgetNamespaceDefaultsSpec → Object ObjectMeta ListMeta
  enforcement_struct : BudgetNamespaceEnforcementSpec → Object ObjectMeta ListMeta
  cost_budget_struct : BudgetNamespaceCostBudgetSpec → Object ObjectMeta ListMeta

-- The addresses from `next` on are free.
pub record Memory (ObjectMeta ListMeta : Type 0) : Type 0 where
  pub next : Ptr
  pub cell : Ptr → Option (Object ObjectMeta ListMeta)

-- A read through an address that holds no object of the type faults, which is `none`.
abbrev pub Cmd : Type 0 → Type 0 → Type 0 → Type 0
Cmd ObjectMeta ListMeta A = Memory ObjectMeta ListMeta → Option (A × Memory ObjectMeta ListMeta)

module _ {ObjectMeta ListMeta : Type 0} where
  abbrev pub pure : {A : Type 0} → A → Cmd ObjectMeta ListMeta A
  pure a h = some (a, h)

  infixl 5 ◌>>=◌ ◌>>◌
  abbrev pub ◌>>=◌ :
      {A B : Type 0}
      → Cmd ObjectMeta ListMeta A
      → (A → Cmd ObjectMeta ListMeta B)
      → Cmd ObjectMeta ListMeta B
  ◌>>=◌ m f h = elim (m h) [ none ↦ none | some (a, h') ↦ f a h' ]

  abbrev pub ◌>>◌ :
      {A B : Type 0}
      → Cmd ObjectMeta ListMeta A
      → Cmd ObjectMeta ListMeta B
      → Cmd ObjectMeta ListMeta B
  m >> k = m >>= λ _. k

  -- new or make: a free address, with nothing in it yet
  unfoldable pub new : Cmd ObjectMeta ListMeta Ptr
  new h = some (h.next, record h { next = h.next + 1 })

  unfoldable pub store : Ptr → Object ObjectMeta ListMeta → Cmd ObjectMeta ListMeta (Unit {0})
  store p x h = some (tt, record h { cell = λ a. if eqb a p then some x else h.cell a })

  unfoldable pub load : Ptr → Cmd ObjectMeta ListMeta (Object ObjectMeta ListMeta)
  load p h = elim (h.cell p) [ none ↦ none | some x ↦ some (x, h) ]

  -- An object of another type faults.
  abbrev pub expect : {A : Type 0} → Option A → Cmd ObjectMeta ListMeta A
  expect none h = none
  expect (some a) h = some (a, h)
