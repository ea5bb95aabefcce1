-- ===== src/Controller/Ensure/Applied.antt =====
-- The Namespace and the ResourceQuota that are stored where their step succeeds.
use costguard_operator.Base.{◌≡◌, ap, ◌∙◌, String, some, ℤ}
use costguard_operator.Go.Strconv.{format_int}
use costguard_operator.Api.{BudgetNamespaceSpec, BudgetNamespaceQuotaSpec}
use costguard_operator.Kube.{wrap, api_error}
use costguard_operator.Kube.Action.{
  World, Action, send, checked, ◌>>=◌, ensure_namespace, ensure_resource_quota,
}
use costguard_operator.Kube.Resources.{Stored, ResourceServer, with_namespace, with_quota}
use costguard_operator.Controller.Reconciler.{Reconciler}
use costguard_operator.Controller.Ensure.{
  merge_namespace, hard_limits, set_hard, parsed, must_parse, apply_namespace, apply_resource_quota,
}
use costguard_operator.Controller.Ensure.Desired.{quota_key}
use costguard_operator.Kube.Action.OnOk.{OnOk, OnOk-bind, or_fail-OnOk, sent_ok}

module _ {F Q S : Type 0} (r : Reconciler F Q S) (server : ResourceServer r.client) where
  pub namespace_applied :
      (spec : BudgetNamespaceSpec) (w : World S)
      → OnOk
          (λ b w'.
            server.stored w'.server
            ≡ with_namespace spec.namespace_name (merge_namespace spec) (server.stored w.server))
          (apply_namespace r spec)
          w
  unfolding apply_namespace
  namespace_applied spec w = record {
    of_run = λ w' b e.
        server.namespace_ensured spec.namespace_name (merge_namespace spec) w.server w'.server b (
          sent_ok (ensure_namespace spec.namespace_name)
            (r.client.create_or_patch_namespace spec.namespace_name (merge_namespace spec))
            (λ x. wrap "ensure namespace %q: %w" (api_error x)) w w' b e);
  }

  pub parsed-OnOk :
      (context text : String) (w : World S)
      → OnOk
          (λ q w'. (r.quantities.parse_quantity text ≡ some q) × (w'.server ≡ w.server))
          (parsed r context text)
          w
  unfolding parsed
  parsed-OnOk context text w = or_fail-OnOk _ _ w

  must_parse-OnOk :
      (n : ℤ) (w : World S)
      → OnOk
          (λ q w'. (r.quantities.parse_quantity (format_int n) ≡ some q) × (w'.server ≡ w.server))
          (must_parse r n)
          w
  unfolding must_parse
  must_parse-OnOk n w = or_fail-OnOk _ _ w

  pub record QuotaRead (namespace : String) (quota : BudgetNamespaceQuotaSpec) (s s' : Stored Q)
      : Type 0 where
    pub cpu : Q
    pub memory : Q
    pub storage : Q
    pub pvc_count : Q
    pub pod_count : Q
    pub is_cpu : r.quantities.parse_quantity quota.cpu ≡ some cpu
    pub is_memory : r.quantities.parse_quantity quota.memory ≡ some memory
    pub is_storage : r.quantities.parse_quantity quota.storage ≡ some storage
    pub is_pvc_count :
        r.quantities.parse_quantity (format_int quota.persistent_volume_claims) ≡ some pvc_count
    pub is_pod_count : r.quantities.parse_quantity (format_int quota.pods) ≡ some pod_count
    pub after :
        s'
        ≡ with_quota
            (quota_key namespace)
            (set_hard (hard_limits cpu memory storage pvc_count pod_count))
            s

  -- The rest of apply_resource_quota, from its counts on, and from its request on.
  module _ (namespace : String) (quota : BudgetNamespaceQuotaSpec) where
    abbrev send_quota : Q → Q → Q → Q → Q → Action S (Unit {0})
    send_quota cpu memory storage pvc_count pod_count =
        send (ensure_resource_quota namespace) (
          r.client.create_or_update_resource_quota (quota_key namespace)
            (set_hard (hard_limits cpu memory storage pvc_count pod_count)))
        >>= checked (λ x. wrap "apply ResourceQuota in namespace %q: %w" (api_error x))

    abbrev count_and_send : Q → Q → Q → Action S (Unit {0})
    count_and_send cpu memory storage = must_parse r quota.persistent_volume_claims >>= λ pvc_count.
        must_parse r quota.pods >>= send_quota cpu memory storage pvc_count

  pub quota_applied :
      (namespace : String) (quota : BudgetNamespaceQuotaSpec) (w : World S)
      → OnOk
          (λ b w'. QuotaRead namespace quota (server.stored w.server) (server.stored w'.server))
          (apply_resource_quota r namespace quota)
          w
  unfolding apply_resource_quota
  quota_applied namespace quota w =
      OnOk-bind _ _ _
        (λ cpu. parsed r "parse quota.memory: %w" quota.memory >>= λ memory.
          parsed r "parse quota.storage: %w" quota.storage
          >>= count_and_send namespace quota cpu memory)
        w (parsed-OnOk _ quota.cpu w)
        (λ cpu w1 (is_cpu, e1).
          OnOk-bind _ _ _
            (λ memory.
              parsed r "parse quota.storage: %w" quota.storage
              >>= count_and_send namespace quota cpu memory)
            w1 (parsed-OnOk _ quota.memory w1)
            (λ memory w2 (is_memory, e2).
              OnOk-bind _ _ _ (count_and_send namespace quota cpu memory) w2
                (parsed-OnOk _ quota.storage w2)
                (λ storage w3 (is_storage, e3).
                  OnOk-bind _ _ _
                    (λ pvc_count.
                      must_parse r quota.pods
                      >>= send_quota namespace quota cpu memory storage pvc_count)
                    w3 (must_parse-OnOk quota.persistent_volume_claims w3)
                    (λ pvc_count w4 (is_pvc_count, e4).
                      OnOk-bind _ _ _ (send_quota namespace quota cpu memory storage pvc_count) w4
                        (must_parse-OnOk quota.pods w4)
                        (λ pod_count w5 (is_pod_count, e5).
                          let hard =
                            set_hard (hard_limits cpu memory storage pvc_count pod_count) in
                          record {
                            of_run = λ w' b e. record {
                              cpu = cpu;
                              memory = memory;
                              storage = storage;
                              pvc_count = pvc_count;
                              pod_count = pod_count;
                              is_cpu = is_cpu;
                              is_memory = is_memory;
                              is_storage = is_storage;
                              is_pvc_count = is_pvc_count;
                              is_pod_count = is_pod_count;
                              after =
                                  server.quota_ensured (quota_key namespace) hard w5.server
                                    w'.server b
                                    (sent_ok (ensure_resource_quota namespace)
                                      (r.client.create_or_update_resource_quota
                                        (quota_key namespace) hard)
                                      (λ x.
                                        wrap "apply ResourceQuota in namespace %q: %w"
                                          (api_error x))
                                      w5 w' b e)
                                  ∙ ap
                                      (λ (s : S).
                                        with_quota (quota_key namespace) hard (server.stored s))
                                      (e5 ∙ e4 ∙ e3 ∙ e2 ∙ e1);
                            };
                          })))))
