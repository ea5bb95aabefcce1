-- ===== src/Controller/Ensure/Converging.antt =====
-- ensure_resources as a step on the stored objects, once and again.
use costguard_operator.Base.{◌≡◌, sym, ap, ◌∙◌, String}
use mathlib.Core.Option.{some-injective}
use costguard_operator.Api.{
  BudgetNamespaceSpec, BudgetNamespaceQuotaSpec, BudgetNamespaceDefaultsSpec,
}
use costguard_operator.Kube.{ok}
use costguard_operator.Kube.Action.{World, ◌>>◌}
use costguard_operator.Kube.Resources.{Stored, ResourceServer, with_quota, with_limit_range}
use costguard_operator.Controller.Reconciler.{Reconciler}
use costguard_operator.Controller.Ensure.{
  set_hard, apply_namespace, apply_resource_quota, apply_limit_range, ensure_resources,
}
use costguard_operator.Controller.Ensure.Merging.{DesiredDistinct}
use costguard_operator.Controller.Ensure.Desired.{
  Amounts, Parses, quota_key, range_key, desired_hard, desired_range, ensured, ensured-ensured,
}
use costguard_operator.Kube.Action.OnOk.{OnOk, OnOk-bind}
use costguard_operator.Controller.Ensure.Applied.{QuotaRead, namespace_applied, quota_applied}
use costguard_operator.Controller.Ensure.Limited.{RangeRead, range_applied}

module _ {F Q S : Type 0} (r : Reconciler F Q S) (server : ResourceServer r.client) where
  pub record Stepped (spec : BudgetNamespaceSpec) (s s' : Stored Q) : Type 0 where
    pub amounts : Amounts Q
    pub parses : Parses r.quantities spec amounts
    pub after : s' ≡ ensured spec amounts s

  abbrev amounts_of :
      {namespace namespace2 : String} {quota : BudgetNamespaceQuotaSpec}
      {defaults : BudgetNamespaceDefaultsSpec} {s s1 s2 s3 : Stored Q}
      → QuotaRead r server namespace quota s s1
      → RangeRead r server namespace2 defaults s2 s3
      → Amounts Q
  amounts_of quota range = record {
    cpu = quota.cpu;
    memory = quota.memory;
    storage = quota.storage;
    pvc_count = quota.pvc_count;
    pod_count = quota.pod_count;
    request_cpu = range.request_cpu;
    request_memory = range.request_memory;
    limit_cpu = range.limit_cpu;
    limit_memory = range.limit_memory;
  }

  ensure-OnOk :
      (spec : BudgetNamespaceSpec) (w : World S)
      → OnOk
          (λ b w'. Stepped spec (server.stored w.server) (server.stored w'.server))
          (ensure_resources r spec)
          w
  unfolding ensure_resources ensured
  ensure-OnOk spec w =
      OnOk-bind _ _ (apply_namespace r spec)
        (λ _.
          apply_resource_quota r spec.namespace_name spec.quota
          >> apply_limit_range r spec.namespace_name spec.defaults)
        w (namespace_applied r server spec w)
        (λ b w1 e1.
          OnOk-bind _ _ (apply_resource_quota r spec.namespace_name spec.quota)
            (λ _. apply_limit_range r spec.namespace_name spec.defaults) w1
            (quota_applied r server spec.namespace_name spec.quota w1)
            (λ b w2 quota. record {
              of_run = λ w' b e.
                  let range =
                    (range_applied r server spec.namespace_name spec.defaults w2).of_run w' b e in
                  record {
                    amounts = amounts_of quota range;
                    parses = record {
                      cpu = quota.is_cpu;
                      memory = quota.is_memory;
                      storage = quota.is_storage;
                      pvc_count = quota.is_pvc_count;
                      pod_count = quota.is_pod_count;
                      request_cpu = range.is_request_cpu;
                      request_memory = range.is_request_memory;
                      limit_cpu = range.is_limit_cpu;
                      limit_memory = range.is_limit_memory;
                    };
                    after =
                        range.after
                        ∙ ap
                            (λ (s : Stored Q).
                              with_limit_range (range_key spec.namespace_name)
                                (desired_range (amounts_of quota range)) s)
                            (quota.after
                              ∙ ap
                                  (λ (s : Stored Q).
                                    with_quota (quota_key spec.namespace_name)
                                      (set_hard (desired_hard (amounts_of quota range))) s)
                                  e1);
                  };
            }))

  -- A text parses to one quantity.
  same_amounts :
      (spec : BudgetNamespaceSpec) (a b : Amounts Q)
      → Parses r.quantities spec a
      → Parses r.quantities spec b
      → a ≡ b
  same_amounts spec a b p q i = record {
    cpu = some-injective a.cpu b.cpu (sym p.cpu ∙ q.cpu) i;
    memory = some-injective a.memory b.memory (sym p.memory ∙ q.memory) i;
    storage = some-injective a.storage b.storage (sym p.storage ∙ q.storage) i;
    pvc_count = some-injective a.pvc_count b.pvc_count (sym p.pvc_count ∙ q.pvc_count) i;
    pod_count = some-injective a.pod_count b.pod_count (sym p.pod_count ∙ q.pod_count) i;
    request_cpu = some-injective a.request_cpu b.request_cpu (sym p.request_cpu ∙ q.request_cpu) i;
    request_memory =
        some-injective a.request_memory b.request_memory (sym p.request_memory ∙ q.request_memory)
          i;
    limit_cpu = some-injective a.limit_cpu b.limit_cpu (sym p.limit_cpu ∙ q.limit_cpu) i;
    limit_memory =
        some-injective a.limit_memory b.limit_memory (sym p.limit_memory ∙ q.limit_memory) i;
  }

  pub stepped :
      (spec : BudgetNamespaceSpec) (w w' : World S) (b : Unit {0})
      → ensure_resources r spec w ≡ (ok b, w')
      → Stepped spec (server.stored w.server) (server.stored w'.server)
  stepped spec w w' b e = (ensure-OnOk spec w).of_run w' b e

  -- Where the resources were ensured with success and what is stored is still the same,
  -- ensuring them again with success changes nothing that is stored; the desired labels and
  -- annotations have each key once, and the server stores what it is given.
  pub ensured_again :
      (spec : BudgetNamespaceSpec) (w w1 w2 w3 : World S) (b c : Unit {0})
      → DesiredDistinct spec.labels
      → DesiredDistinct spec.annotations
      → ensure_resources r spec w ≡ (ok b, w1)
      → server.stored w2.server ≡ server.stored w1.server
      → ensure_resources r spec w2 ≡ (ok c, w3)
      → server.stored w3.server ≡ server.stored w1.server
  ensured_again spec w w1 w2 w3 b c labels annotations first kept second =
      let one = stepped spec w w1 b first in
      let two = stepped spec w2 w3 c second in
      let same = same_amounts spec two.amounts one.amounts two.parses one.parses in
      two.after
      ∙ ap (λ (a : Amounts Q). ensured spec a (server.stored w2.server)) same
      ∙ ap (ensured spec one.amounts) (kept ∙ one.after)
      ∙ ensured-ensured spec one.amounts (server.stored w.server) labels annotations
      ∙ sym one.after
