-- ===== src/Controller/Watches/Laws.antt =====
-- Which BudgetNamespaces a change of a ResourceQuota reconciles.
use costguard_operator.Base.{
  ◌≡◌, refl, ap, sym, ◌∙◌, String, Bool, true, false, not, List, [], ◌∷◌, some, arith,
  if◌then◌else◌, ◌==◌, eq_iff,
}
use mathlib.Core.List.{Memᴰ}
use costguard_operator.Api.{BudgetNamespace}
use costguard_operator.Kube.{Result, ok, ApiError, Error, ResourceQuota, NamespacedName}
use costguard_operator.Kube.Action.{World, Action, pure, fetch, ◌>>=◌}
use costguard_operator.Controller.Reconciler.{Reconciler, resource_quota_name}
use costguard_operator.Controller.Watches.{
  requests_for, resource_quota_to_requests, listed_requests,
}

abbrev pub request_of : BudgetNamespace → NamespacedName
request_of bn = record { namespace = bn.namespace; name = bn.name }

keep_or :
    {A : Type 0} (b : Bool) (x y : A) (l : List A) → Memᴰ x l → Memᴰ x (if not b then l else y ∷ l)
keep_or true x y l m = Memᴰ.tail m
keep_or false x y l m = m

put_or :
    {A : Type 0} (b : Bool) (x y : A) (l : List A)
    → b ≡ true
    → x ≡ y
    → Memᴰ x (if not b then l else y ∷ l)
put_or true x y l h e = Memᴰ.head e
put_or false x y l h e = absurd (ground arith)

equal : (a b : String) → a ≡ b → (a == b) ≡ true
equal a b e = ground (arith, eq_iff a b)

is_equal : (a b : String) → (a == b) ≡ true → a ≡ b
is_equal a b e = ground (arith, eq_iff a b)

requested :
    (namespace : String) (bn : BudgetNamespace) (bns : List BudgetNamespace)
    → Memᴰ bn bns
    → bn.spec.namespace_name ≡ namespace
    → Memᴰ (request_of bn) (requests_for namespace bns)
unfolding requests_for
requested namespace bn [] m same = elim m [ ]
requested namespace bn (b ∷ bns) (Memᴰ.head e) same =
    put_or (b.spec.namespace_name == namespace) (request_of bn) (request_of b)
      (requests_for namespace bns)
      (equal b.spec.namespace_name namespace
        (ap (λ (x : BudgetNamespace). x.spec.namespace_name) (sym e) ∙ same))
      (ap request_of e)
requested namespace bn (b ∷ bns) (Memᴰ.tail m) same =
    keep_or (b.spec.namespace_name == namespace) (request_of bn) (request_of b)
      (requests_for namespace bns) (requested namespace bn bns m same)

-- Where a request comes from.
pub record Origin (namespace : String) (bns : List BudgetNamespace) (req : NamespacedName)
    : Type 0 where
  pub origin : BudgetNamespace
  pub listed : Memᴰ origin bns
  pub manages : origin.spec.namespace_name ≡ namespace
  pub named : request_of origin ≡ req

module _ (namespace : String) where
  from_tail :
      {bn : BudgetNamespace} {bns : List BudgetNamespace} {req : NamespacedName}
      → Origin namespace bns req
      → Origin namespace (bn ∷ bns) req
  from_tail o = record {
    origin = o.origin;
    listed = Memᴰ.tail o.listed;
    manages = o.manages;
    named = o.named;
  }

  from_head :
      (bn : BudgetNamespace) (bns : List BudgetNamespace) (req : NamespacedName) (b : Bool)
      (rest : List NamespacedName)
      → (bn.spec.namespace_name == namespace) ≡ b
      → (Memᴰ req rest → Origin namespace bns req)
      → Memᴰ req (if not b then rest else request_of bn ∷ rest)
      → Origin namespace (bn ∷ bns) req
  from_head bn bns req false rest e k m = from_tail (k m)
  from_head bn bns req true rest e k (Memᴰ.tail m) = from_tail (k m)
  from_head bn bns req true rest e k (Memᴰ.head same) = record {
    origin = bn;
    listed = Memᴰ.head refl;
    manages = is_equal bn.spec.namespace_name namespace e;
    named = sym same;
  }

  originates :
      (bns : List BudgetNamespace) (req : NamespacedName)
      → Memᴰ req (requests_for namespace bns)
      → Origin namespace bns req
  unfolding requests_for
  originates [] req m = elim m [ ]
  originates (bn ∷ bns) req m =
      from_head bn bns req (bn.spec.namespace_name == namespace) (requests_for namespace bns) refl
        (originates bns req) m

module _ {F Q S : Type 0} (r : Reconciler F Q S) where
  named-resource_quota_to_requests :
      (rq : ResourceQuota Q) (w : World S) (bns : List BudgetNamespace) (s : S)
      → (rq.name == resource_quota_name) ≡ true
      → r.client.list_budget_namespaces w.server ≡ (ok bns, s)
      → resource_quota_to_requests r (some rq) w
        ≡ (ok (requests_for rq.namespace bns), record w { server = s })
  unfolding resource_quota_to_requests listed_requests
  named-resource_quota_to_requests rq w bns s mine read =
      let nothing : Action S (List NamespacedName) = pure [] in
      let listing : Action S (List NamespacedName) =
        fetch r.client.list_budget_namespaces
        >>= (λ found. pure (listed_requests rq.namespace found)) in
      ap (λ (b : Bool). (if not b then nothing else listing) w) mine
      ∙ ap
          (λ (q : Result ApiError (List BudgetNamespace) × S).
            let p : Result Error (List NamespacedName) × World S =
              (ok (listed_requests rq.namespace q.0), record w { server = q.1 }) in
            p)
          read

  -- When the operator's ResourceQuota of a namespace changes, and the BudgetNamespaces are listed,
  -- each one that manages that namespace is reconciled, and no other; no request is sent.
  pub woken :
      (rq : ResourceQuota Q) (w : World S) (bns : List BudgetNamespace) (s : S)
      → rq.name ≡ resource_quota_name
      → r.client.list_budget_namespaces w.server ≡ (ok bns, s)
      → (reqs : List NamespacedName) × (resource_quota_to_requests r (some rq) w
          ≡ (ok reqs, record w { server = s }))
        × ((bn : BudgetNamespace)
            → Memᴰ bn bns
            → bn.spec.namespace_name ≡ rq.namespace
            → Memᴰ (request_of bn) reqs)
        × ((req : NamespacedName) → Memᴰ req reqs → Origin rq.namespace bns req)
  woken rq w bns s mine read = (
    requests_for rq.namespace bns,
    named-resource_quota_to_requests rq w bns s (equal rq.name resource_quota_name mine) read,
    λ bn. requested rq.namespace bn bns,
    originates rq.namespace bns,
  )
