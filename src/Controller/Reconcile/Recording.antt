-- ===== src/Controller/Reconcile/Recording.antt =====
-- What Reconcile records of an enforcement, next to the requests that it sent for it.
use costguard_operator.Base.{
  ℕ, ◌≡◌, refl, subst, ◌⊎◌, inl, inr, String, Bool, true, false, List, Option, some, if◌then◌else◌,
  All-map,
}
use costguard_operator.Go.Time.{Time}
use costguard_operator.Kube.{Error, Result}
use costguard_operator.Kube.Action.{
  Call, patch, ensure_namespace, ensure_resource_quota, ensure_limit_range, delete_namespace,
  query_spend, update_status, World, Action, pure, ◌>>=◌,
}
use costguard_operator.Kube.Action.Emits.{Emits, Grows, Grows-refl, Grows-trans}
use costguard_operator.Kube.Action.Ensures.{Ensures}
use costguard_operator.Kube.Action.OnOk.{OnOk, OnOk-bind, OnOk-pure}
use costguard_operator.Controller.Reconciler.{enforcement_op_scale_to_zero, enforcement_op_restore}
use costguard_operator.Controller.Restore.{restored}
use costguard_operator.Controller.Enforce.{Progress}
use costguard_operator.Controller.Patching.Counted.{Counted, Patched, Patched-left, Patched-right}
use costguard_operator.Controller.Reconcile.OnlyScaling.{OnlyScales}

abbrev pub NoPatch : Call → Type 0
NoPatch (patch kind namespace w w') = ⊥
NoPatch _ = Unit

-- A request that patches a workload restores it.
abbrev pub OnlyRestores : Call → Type 0
OnlyRestores (patch kind namespace w w') = restored w ≡ some w'
OnlyRestores _ = Unit

pub scales_none : (c : Call) → NoPatch c → OnlyScales c
scales_none (ensure_namespace n) h = tt
scales_none (ensure_resource_quota n) h = tt
scales_none (ensure_limit_range n) h = tt
scales_none (delete_namespace n) h = tt
scales_none (patch kind namespace w w') h = absurd h
scales_none (query_spend n) h = tt
scales_none (update_status bn) h = tt

pub restores_none : (c : Call) → NoPatch c → OnlyRestores c
restores_none (ensure_namespace n) h = tt
restores_none (ensure_resource_quota n) h = tt
restores_none (ensure_limit_range n) h = tt
restores_none (delete_namespace n) h = tt
restores_none (patch kind namespace w w') h = absurd h
restores_none (query_spend n) h = tt
restores_none (update_status bn) h = tt

-- The enforcement recorded is this one, at some time.
abbrev pub Stamped : String → Progress → Type 0
Stamped op p = (p.last_enf_op ≡ op) × (at : Time) × (p.last_enf_at ≡ some at)

-- Nothing was patched and the record is what it was, or at least one workload was patched, each to
-- scale it, and that is recorded, or at least one, each to restore it, and that is.
abbrev pub Told : String → Option Time → List Call → Progress → List Call → Type 0
Told op at before p after =
    (Grows NoPatch before after × (p.last_enf_op ≡ op) × (p.last_enf_at ≡ at))
    ⊎ (Grows OnlyScales before after
        × Patched before after
        × Stamped enforcement_op_scale_to_zero p)
    ⊎ (Grows OnlyRestores before after × Patched before after × Stamped enforcement_op_restore p)

Grows-weaker :
    {P R : Call → Type 0} (weaker : (c : Call) → P c → R c) (a b : List Call)
    → Grows P a b
    → Grows R a b
Grows-weaker {P} {R} weaker a b (new, e, h) = (new, e, All-map P R new weaker h)

earlier :
    (op : String) (at : Option Time) (a b c : List Call) (p : Progress)
    → Grows NoPatch a b
    → Told op at b p c
    → Told op at a p c
earlier op at a b c p g (inl (h, same_op, same_at)) =
    inl (Grows-trans NoPatch a b c g h, same_op, same_at)
earlier op at a b c p g (inr (inl (h, patched, stamp))) = inr (
    inl (
      Grows-trans OnlyScales a b c (Grows-weaker scales_none a b g) h,
      Patched-right NoPatch a b c g patched,
      stamp,
    ))
earlier op at a b c p g (inr (inr (h, patched, stamp))) = inr (
    inr (
      Grows-trans OnlyRestores a b c (Grows-weaker restores_none a b g) h,
      Patched-right NoPatch a b c g patched,
      stamp,
    ))

module _ (op : String) (at : Option Time) where
  -- A step that counts what it patched, and then records an enforcement unless the count is zero.
  abbrev pub Noted : (Call → Type 0) → String → List Call → ℕ → Progress → List Call → Type 0
  Noted P stamp before n p after =
      Grows NoPatch before after
      × (((n ≡ 0) × (p.last_enf_op ≡ op) × (p.last_enf_at ≡ at)) ⊎ ((n ≡ 0 → ⊥) × Stamped stamp p))

  joined :
      (P : Call → Type 0) (stamp : String) (weaker : (c : Call) → NoPatch c → P c)
      (tell : (a c : List Call) (p : Progress)
        → Grows P a c × Patched a c × Stamped stamp p
        → Told op at a p c)
      (a b c : List Call) (n : ℕ) (p : Progress)
      → Counted P a n b
      → Noted P stamp b n p c
      → Told op at a p c
  joined P stamp weaker tell a b c n p (sent, inl (zero, same)) (g, inl (none, same_op, same_at)) =
      inl (subst (λ (l : List Call). Grows NoPatch l c) same g, same_op, same_at)
  joined P stamp weaker tell a b c n p (sent, inr (some_sent, patched))
        (g, inl (none, same_op, same_at)) =
      absurd (some_sent none)
  joined P stamp weaker tell a b c n p (sent, inl (zero, same)) (g, inr (counted, stamped)) =
      absurd (counted zero)
  joined P stamp weaker tell a b c n p (sent, inr (some_sent, patched))
        (g, inr (counted, stamped)) =
      tell a c p (
        Grows-trans P a b c sent (Grows-weaker weaker b c g),
        Patched-left NoPatch a b c patched g,
        stamped,
      )

module _ {S : Type 0} (op : String) (at : Option Time) where
  pub record Tells (m : Action S Progress) : Type 0 where
    pub told : (w : World S) → OnOk (λ p w'. Told op at w.calls p w'.calls) m w

  pub Tells-pure : (p : Progress) → p.last_enf_op ≡ op → p.last_enf_at ≡ at → Tells (pure p)
  Tells-pure p same_op same_at = record {
    told = λ w.
        OnOk-pure (λ q w'. Told op at w.calls q w'.calls) p w
          (inl (Grows-refl NoPatch w.calls, same_op, same_at));
  }

  pub Tells-if :
      (b : Bool) (m n : Action S Progress)
      → (b ≡ true → Tells m)
      → (b ≡ false → Tells n)
      → Tells (if b then m else n)
  Tells-if true m n f g = f refl
  Tells-if false m n f g = g refl

  -- A first action that patches nothing, and whose result is as ensured.
  pub Tells-after :
      {A : Type 0} (R : A → Type 0) (m : Action S A) (f : A → Action S Progress)
      → Emits NoPatch m
      → Ensures R m
      → ((a : A) → R a → Tells (f a))
      → Tells (m >>= f)
  Tells-after {A} R m f quiet ensures rest = record {
    told = λ w.
        OnOk-bind (λ a w1. R a × Grows NoPatch w.calls w1.calls)
          (λ p w'. Told op at w.calls p w'.calls) m f w
          (record {
            of_run = λ w1 a e. (
              ensures.of_value w w1 a e,
              subst (λ (q : Result Error A × World S). Grows NoPatch w.calls q.1.calls) e
                  (quiet.at w),
            );
          })
          (λ a w1 (h, g). record {
            of_run = λ w' p e.
                earlier op at w.calls w1.calls w'.calls p g (((rest a h).told w1).of_run w' p e);
          });
  }

  pub Tells-quiet :
      {A : Type 0} (m : Action S A) (f : A → Action S Progress)
      → Emits NoPatch m
      → ((a : A) → Tells (f a))
      → Tells (m >>= f)
  Tells-quiet m f quiet rest =
      Tells-after (λ a. Unit) m f quiet (record { of_value = λ w w' a e. tt }) (λ a _. rest a)

  pub Tells-counts :
      (P : Call → Type 0) (stamp : String) (weaker : (c : Call) → NoPatch c → P c)
      (tell : (a c : List Call) (p : Progress)
        → Grows P a c × Patched a c × Stamped stamp p
        → Told op at a p c)
      (m : Action S ℕ) (note : ℕ → Action S Progress)
      → ((w : World S) → OnOk (λ n w'. Counted P w.calls n w'.calls) m w)
      → ((n : ℕ) (w : World S) → OnOk (λ p w'. Noted op at P stamp w.calls n p w'.calls) (note n) w)
      → Tells (m >>= note)
  Tells-counts P stamp weaker tell m note counts notes = record {
    told = λ w.
        OnOk-bind (λ n w1. Counted P w.calls n w1.calls) (λ p w'. Told op at w.calls p w'.calls) m
          note w (counts w)
          (λ n w1 counted. record {
            of_run = λ w' p e.
                joined op at P stamp weaker tell w.calls w1.calls w'.calls n p counted
                  ((notes n w1).of_run w' p e);
          });
  }
