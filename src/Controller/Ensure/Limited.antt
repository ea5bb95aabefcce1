-- ===== src/Controller/Ensure/Limited.antt =====
-- The LimitRange that is stored where its step succeeds.
use costguard_operator.Base.{◌≡◌, ap, ◌∙◌, String, some}
use costguard_operator.Api.{BudgetNamespaceDefaultsSpec}
use costguard_operator.Kube.{wrap, api_error}
use costguard_operator.Kube.Action.{World, Action, send, checked, ◌>>=◌, ensure_limit_range}
use costguard_operator.Kube.Resources.{Stored, ResourceServer, with_limit_range}
use costguard_operator.Controller.Reconciler.{Reconciler}
use costguard_operator.Controller.Ensure.{set_limits, parsed, apply_limit_range}
use costguard_operator.Controller.Ensure.Desired.{range_key}
use costguard_operator.Kube.Action.OnOk.{OnOk, OnOk-bind, sent_ok}
use costguard_operator.Controller.Ensure.Applied.{parsed-OnOk}

module _ {F Q S : Type 0} (r : Reconciler F Q S) (server : ResourceServer r.client) where
  pub record RangeRead (namespace : String) (defaults : BudgetNamespaceDefaultsSpec)
      (s s' : Stored Q) : Type 0 where
    pub request_cpu : Q
    pub request_memory : Q
    pub limit_cpu : Q
    pub limit_memory : Q
    pub is_request_cpu : r.quantities.parse_quantity defaults.request_cpu ≡ some request_cpu
    pub is_request_memory :
        r.quantities.parse_quantity defaults.request_memory ≡ some request_memory
    pub is_limit_cpu : r.quantities.parse_quantity defaults.limit_cpu ≡ some limit_cpu
    pub is_limit_memory : r.quantities.parse_quantity defaults.limit_memory ≡ some limit_memory
    pub after :
        s'
        ≡ with_limit_range
            (range_key namespace)
            (set_limits request_cpu request_memory limit_cpu limit_memory)
            s

  -- The rest of apply_limit_range, from its limits on, and from its request on.
  module _ (namespace : String) (defaults : BudgetNamespaceDefaultsSpec) where
    abbrev send_range : Q → Q → Q → Q → Action S (Unit {0})
    send_range request_cpu request_memory limit_cpu limit_memory =
        send (ensure_limit_range namespace) (
          r.client.create_or_update_limit_range (range_key namespace)
            (set_limits request_cpu request_memory limit_cpu limit_memory))
        >>= checked (λ x. wrap "apply LimitRange in namespace %q: %w" (api_error x))

    abbrev limit_and_send : Q → Q → Action S (Unit {0})
    limit_and_send request_cpu request_memory =
        parsed r "parse defaults.limitCPU: %w" defaults.limit_cpu >>= λ limit_cpu.
        parsed r "parse defaults.limitMemory: %w" defaults.limit_memory
        >>= send_range request_cpu request_memory limit_cpu

  pub range_applied :
      (namespace : String) (defaults : BudgetNamespaceDefaultsSpec) (w : World S)
      → OnOk
          (λ b w'. RangeRead namespace defaults (server.stored w.server) (server.stored w'.server))
          (apply_limit_range r namespace defaults)
          w
  unfolding apply_limit_range
  range_applied namespace defaults w =
      OnOk-bind _ _ _
        (λ request_cpu.
          parsed r "parse defaults.requestMemory: %w" defaults.request_memory
          >>= limit_and_send namespace defaults request_cpu)
        w (parsed-OnOk r server _ defaults.request_cpu w)
        (λ request_cpu w1 (is_request_cpu, e1).
          OnOk-bind _ _ _ (limit_and_send namespace defaults request_cpu) w1
            (parsed-OnOk r server _ defaults.request_memory w1)
            (λ request_memory w2 (is_request_memory, e2).
              OnOk-bind _ _ _
                (λ limit_cpu.
                  parsed r "parse defaults.limitMemory: %w" defaults.limit_memory
                  >>= send_range namespace defaults request_cpu request_memory limit_cpu)
                w2 (parsed-OnOk r server _ defaults.limit_cpu w2)
                (λ limit_cpu w3 (is_limit_cpu, e3).
                  OnOk-bind _ _ _
                    (send_range namespace defaults request_cpu request_memory limit_cpu) w3
                    (parsed-OnOk r server _ defaults.limit_memory w3)
                    (λ limit_memory w4 (is_limit_memory, e4).
                      let limits = set_limits request_cpu request_memory limit_cpu limit_memory in
                      record {
                        of_run = λ w' b e. record {
                          request_cpu = request_cpu;
                          request_memory = request_memory;
                          limit_cpu = limit_cpu;
                          limit_memory = limit_memory;
                          is_request_cpu = is_request_cpu;
                          is_request_memory = is_request_memory;
                          is_limit_cpu = is_limit_cpu;
                          is_limit_memory = is_limit_memory;
                          after =
                              server.limit_range_ensured (range_key namespace) limits w4.server
                                w'.server b
                                (sent_ok (ensure_limit_range namespace)
                                  (r.client.create_or_update_limit_range (range_key namespace)
                                    limits)
                                  (λ x. wrap "apply LimitRange in namespace %q: %w" (api_error x))
                                  w4 w' b e)
                              ∙ ap
                                  (λ (s : S).
                                    with_limit_range (range_key namespace) limits (server.stored s))
                                  (e4 ∙ e3 ∙ e2 ∙ e1);
                        };
                      }))))
