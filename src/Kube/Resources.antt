-- ===== src/Kube/Resources.antt =====
-- What is documented of CreateOrPatch and CreateOrUpdate, where nothing else writes meanwhile: the
-- object of the name, or the new one where there is none, is changed by the function and stored;
-- every other object stays.
use costguard_operator.Base.{
  String, Bool, [], Option, none, some, ◌&&◌, ◌≡◌, if◌then◌else◌, ◌==◌, refl, ap, true, false,
  arith,
}
use costguard_operator.Kube.{Client, Namespace, ResourceQuota, LimitRange, NamespacedName, ok}

-- The objects that the operator ensures.
pub record Stored (Q : Type 0) : Type 0 where
  pub namespaces : String → Option Namespace
  pub quotas : NamespacedName → Option (ResourceQuota Q)
  pub limit_ranges : NamespacedName → Option (LimitRange Q)

abbrev pub same_name : NamespacedName → NamespacedName → Bool
same_name a b = a.namespace == b.namespace && a.name == b.name

abbrev pub or_new : {A : Type 0} → A → Option A → A
or_new new none = new
or_new new (some old) = old

module _ {K A : Type 0} (same : K → K → Bool) where
  -- The object at a key is changed, or made first.
  abbrev pub upsert : K → A → (A → A) → (K → Option A) → K → Option A
  upsert k new change objects j =
      if same k j then some (change (or_new new (objects k))) else objects j

abbrev pub new_namespace : Namespace
new_namespace = record { labels = none; annotations = none }

module _ {Q : Type 0} where
  abbrev pub new_quota : NamespacedName → ResourceQuota Q
  new_quota key = record { name = key.name; namespace = key.namespace; hard = []; used = [] }

  abbrev pub new_limit_range : LimitRange Q
  new_limit_range = record { limits = [] }

  abbrev pub with_namespace : String → (Namespace → Namespace) → Stored Q → Stored Q
  with_namespace name change s = record s {
    namespaces = upsert (λ a b. a == b) name new_namespace change s.namespaces;
  }

  abbrev pub with_quota : NamespacedName → (ResourceQuota Q → ResourceQuota Q) → Stored Q → Stored Q
  with_quota key change s = record s {
    quotas = upsert same_name key (new_quota key) change s.quotas;
  }

  abbrev pub with_limit_range : NamespacedName → (LimitRange Q → LimitRange Q) → Stored Q → Stored Q
  with_limit_range key change s = record s {
    limit_ranges = upsert same_name key new_limit_range change s.limit_ranges;
  }

pub record ResourceServer {Q S : Type 0} (client : Client Q S) : Type 0 where
  pub stored : S → Stored Q
  pub namespace_ensured :
      (name : String) (change : Namespace → Namespace) (s s' : S) (done : Unit {0})
      → client.create_or_patch_namespace name change s ≡ (ok done, s')
      → stored s' ≡ with_namespace name change (stored s)
  pub quota_ensured :
      (key : NamespacedName) (change : ResourceQuota Q → ResourceQuota Q) (s s' : S)
      (done : Unit {0})
      → client.create_or_update_resource_quota key change s ≡ (ok done, s')
      → stored s' ≡ with_quota key change (stored s)
  pub limit_range_ensured :
      (key : NamespacedName) (change : LimitRange Q → LimitRange Q) (s s' : S) (done : Unit {0})
      → client.create_or_update_limit_range key change s ≡ (ok done, s')
      → stored s' ≡ with_limit_range key change (stored s)

module _ {K A : Type 0} (same : K → K → Bool) where
  twice_at :
      (new : A) (change : A → A) (object : Option A)
      → ((x : A) → change (change x) ≡ change x)
      → (b : Bool) → b ≡ true
      → (other : Option A)
      → change (or_new new (if b then some (change (or_new new object)) else other))
        ≡ change (or_new new object)
  twice_at new change object idem true e other = idem (or_new new object)
  twice_at new change object idem false e other = absurd (not_both e)
    where
      not_both : false ≡ true → ⊥
      not_both p = ground arith

  -- A change that does nothing the second time is stored as by the first.
  pub upsert-upsert :
      (k : K) (new : A) (change : A → A) (objects : K → Option A)
      → same k k ≡ true
      → ((x : A) → change (change x) ≡ change x)
      → upsert same k new change (upsert same k new change objects)
        ≡ upsert same k new change objects
  upsert-upsert k new change objects self idem i j = by_key (same k j) j i
    where
      again :
          change (or_new new (upsert same k new change objects k)) ≡ change (or_new new (objects k))
      again = twice_at new change (objects k) idem (same k k) self (objects k)

      by_key :
          (b : Bool) (j : K)
          → (if b
              then some (change (or_new new (upsert same k new change objects k)))
              else (if b then some (change (or_new new (objects k))) else objects j))
            ≡ (if b then some (change (or_new new (objects k))) else objects j)
      by_key true j = ap some again
      by_key false j = refl
