-- ===== src/Controller/Patching/Store.antt =====
-- What a patching loop leaves on a server that stores the workloads.
use costguard_operator.Base.{
  ℕ, ◌+◌, ◌≡◌, refl, sym, subst, ap, ◌∙◌, inl, inr, String, Bool, false, List, [], ◌∷◌, ◌++◌, map,
  Option, none, some, is_some, arith, Option-cases, if◌then◌else◌,
}
use mathlib.Core.List.{append_assoc, Memᴰ}
use costguard_operator.Kube.{ApiError, Error, Result, ok, err, Kind, Workload, api_error, wrap}
use costguard_operator.Kube.Server.{
  WorkloadServer, DistinctNames, same_place, same_place_refl, replace, replace-middle, Mem-middle,
}
use costguard_operator.Kube.Action.{patch, World, Action, ◌>>=◌, checked}
use costguard_operator.Kube.Action.Run.{bind_ok, bind_err}
use costguard_operator.Controller.Reconciler.{Reconciler}
use costguard_operator.Controller.Patching.{
  list_context, list_workloads, patch_workload, patch_items,
}
use costguard_operator.Controller.Patching.Trace.{patch_workload_outcome, loop_skip, loop_hit, loop}

abbrev pub value_or : Workload → Option Workload → Workload
value_or w none = w
value_or w (some w') = w'

module _ (change : Workload → Option Workload) where
  -- A workload after its round.
  abbrev pub made : Workload → Workload
  made w = value_or w (change w)

  -- How many workloads a loop patches.
  abbrev pub changed : List Workload → ℕ
  changed [] = 0
  changed (w ∷ ws) = (if is_some (change w) then 1 else 0) + changed ws

  -- What is stored, behind `pre`, after a loop over `ws`: all of it is changed and counted, or a first part of it is.
  abbrev pub Stores : List Workload → List Workload → ℕ → Result Error ℕ → List Workload → Type 0
  Stores pre ws n (ok m) after = (after ≡ pre ++ map made ws) × (m ≡ n + changed ws)
  Stores pre ws n (err e) after =
      (done rest : List Workload) × (ws ≡ done ++ rest) × (after ≡ pre ++ (map made done ++ rest))

  Stores-cons :
      (pre : List Workload) (w v : Workload) (ws : List Workload) (n d : ℕ) (q : Result Error ℕ)
      (after : List Workload)
      → made w ≡ v
      → d ≡ (if is_some (change w) then 1 else 0)
      → Stores (pre ++ v ∷ []) ws (n + d) q after
      → Stores pre (w ∷ ws) n q after
  Stores-cons pre w v ws n d (ok m) after is count (stored, counted) = (
    stored
        ∙ append_assoc pre (v ∷ []) (map made ws)
        ∙ ap (λ (x : Workload). pre ++ x ∷ map made ws) (sym is),
    ground (arith, count, counted),
  )
  Stores-cons pre w v ws n d (err e) after is count (done, rest, split, stored) = (
    w ∷ done,
    rest,
    ap (λ (l : List Workload). w ∷ l) split,
    stored
        ∙ append_assoc pre (v ∷ []) (map made done ++ rest)
        ∙ ap (λ (x : Workload). pre ++ x ∷ (map made done ++ rest)) (sym is),
  )

module _ {F Q S : Type 0} (r : Reconciler F Q S) (server : WorkloadServer r.client)
    (change : Workload → Option Workload) (context : String) (kind : Kind) (namespace : String)
    (named : (w w' : Workload) → change w ≡ some w' → w'.name ≡ w.name) where
  abbrev here : S → List Workload
  here s = server.stored s kind namespace

  -- Every other kind and namespace is as it was.
  abbrev pub Elsewhere : S → S → Type 0
  Elsewhere s s' =
      (k : Kind) (m : String)
      → same_place kind namespace k m ≡ false
      → server.stored s' k m ≡ server.stored s k m

  abbrev Leaves : List Workload → List Workload → ℕ → S → Result Error ℕ × World S → Type 0
  Leaves pre ws n s p = Stores change pre ws n p.0 (here p.1.server) × Elsewhere s p.1.server

  patched_here :
      (w w' : Workload) (pre ws : List Workload) (s s' : S) (done : Unit {0})
      → here s ≡ pre ++ w ∷ ws
      → w'.name ≡ w.name
      → r.client.patch_workload kind namespace w w' s ≡ (ok done, s')
      → (here s' ≡ (pre ++ w' ∷ []) ++ ws) × Elsewhere s s'
  patched_here w w' pre ws s s' done stored same e =
      let at_place =
        server.patch_applies kind namespace w w' s s' done
          (subst (λ (l : List Workload). Memᴰ w l) (sym stored) (Mem-middle w pre ws)) same e in
      (
        at_place kind namespace
            ∙ ap (λ (b : Bool). if b then replace w' (here s) else here s)
                (same_place_refl kind namespace)
            ∙ ap (replace w') stored
            ∙ replace-middle w w' pre ws same
                (subst DistinctNames stored (server.names_distinct s kind namespace))
            ∙ sym (append_assoc pre (w' ∷ []) ws),
        λ k m differs.
            at_place k m
            ∙ ap (λ (b : Bool). if b then replace w' (server.stored s k m) else server.stored s k m)
                differs,
      )

  after_patch :
      (w w' : Workload) (pre ws : List Workload) (n : ℕ) (x : World S)
      → change w ≡ some w'
      → here x.server ≡ pre ++ w ∷ ws
      → ((y : World S)
          → here y.server ≡ (pre ++ w' ∷ []) ++ ws
          → Leaves
              (pre ++ w' ∷ [])
              ws
              (n + 1)
              y.server
              (loop r change context kind namespace (n + 1) ws y))
      → (answer : Result ApiError (Unit {0})) (s : S)
      → r.client.patch_workload kind namespace w w' x.server ≡ (answer, s)
      → Leaves pre (w ∷ ws) n x.server (
          (patch_workload r context kind namespace w w' >>= λ _.
          loop r change context kind namespace (n + 1) ws)
            x)
  after_patch w w' pre ws n x hit stored ih (ok a) s e =
      let go = loop r change context kind namespace (n + 1) ws in
      let y : World S = record x {
        server = s;
        calls = x.calls ++ patch kind namespace w w' ∷ [];
      } in
      let (moved, elsewhere) = patched_here w w' pre ws x.server s a stored (named w w' hit) e in
      let (later, others) = ih y moved in
      subst (Leaves pre (w ∷ ws) n x.server)
        (sym (
          bind_ok (patch_workload r context kind namespace w w') (λ _. go) x a y
            (patch_workload_outcome r change context kind namespace w w' x (ok a) s e)))
        (
          Stores-cons change pre w w' ws n 1 (go y).0 (here (go y).1.server) (ap (value_or w) hit)
              (ap (λ (o : Option Workload). if is_some o then 1 else 0) (sym hit)) later,
          λ k m differs. others k m differs ∙ elsewhere k m differs,
        )
  after_patch w w' pre ws n x hit stored ih (err a) s e =
      let go = loop r change context kind namespace (n + 1) ws in
      let y : World S = record x {
        server = s;
        calls = x.calls ++ patch kind namespace w w' ∷ [];
      } in
      let kept = server.patch_refused kind namespace w w' x.server s a e in
      subst (Leaves pre (w ∷ ws) n x.server)
        (sym (
          bind_err (patch_workload r context kind namespace w w') (λ _. go) x
            (wrap context (api_error a)) y
            (patch_workload_outcome r change context kind namespace w w' x (err a) s e)))
        (([], w ∷ ws, refl, kept kind namespace ∙ stored), λ k m differs. kept k m)

  pub loop-Leaves :
      (n : ℕ) (ws pre : List Workload) (x : World S)
      → here x.server ≡ pre ++ ws
      → Leaves pre ws n x.server (loop r change context kind namespace n ws x)
  unfolding loop patch_items
  loop-Leaves n [] pre x stored = ((stored, omega arith), λ k m differs. refl)
  loop-Leaves n (w ∷ ws) pre x stored = elim (Option-cases (change w)) [
    | inl skip ↦
        let go = loop r change context kind namespace n ws in
        let (later, others) =
          loop-Leaves n ws (pre ++ w ∷ []) x (stored ∙ sym (append_assoc pre (w ∷ []) ws)) in
        subst (λ (m : Action S ℕ). Leaves pre (w ∷ ws) n x.server (m x))
          (sym (loop_skip r change context kind namespace n w ws skip))
          (
            Stores-cons change pre w w ws n 0 (go x).0 (here (go x).1.server) (ap (value_or w) skip)
                (ap (λ (o : Option Workload). if is_some o then 1 else 0) (sym skip))
                (let zero_more : n ≡ n + 0 = omega arith in
                  subst
                    (λ (m : ℕ). Stores change (pre ++ w ∷ []) ws m (go x).0 (here (go x).1.server))
                    zero_more later),
            others,
          )
    | inr (w', hit) ↦
        subst (λ (m : Action S ℕ). Leaves pre (w ∷ ws) n x.server (m x))
          (sym (loop_hit r change context kind namespace n w w' ws hit))
          (after_patch w w' pre ws n x hit stored
            (λ y moved. loop-Leaves (n + 1) ws (pre ++ w' ∷ []) y moved) _ _ refl)
  ]

  -- The list, then the loop.
  unfoldable pub sweep : Action S ℕ
  sweep = do
    items ← list_workloads r kind namespace
    patch_items r change context kind namespace 0 items

  -- From one state of the server to another.
  abbrev pub Swept : S → Result Error ℕ → S → Type 0
  Swept s q s' = Stores change [] (here s) 0 q (here s') × Elsewhere s s'

  list_outcome :
      (x : World S) (answer : Result ApiError (List Workload)) (s : S)
      → r.client.list_workloads kind namespace x.server ≡ (answer, s)
      → list_workloads r kind namespace x
        ≡ checked (λ e. wrap (list_context kind) (api_error e)) answer (record x { server = s })
  unfolding list_workloads
  list_outcome x answer s e =
      ap
        (λ (p : Result ApiError (List Workload) × S).
          checked (λ e. wrap (list_context kind) (api_error e)) p.0 (record x { server = p.1 }))
        e

  after_list :
      (x : World S) (answer : Result ApiError (List Workload)) (s : S)
      → r.client.list_workloads kind namespace x.server ≡ (answer, s)
      → Swept x.server (sweep x).0 (sweep x).1.server
  unfolding sweep loop
  after_list x (ok items) s e =
      let y : World S = record x { server = s } in
      let kept : ((k : Kind) (m : String) → server.stored s k m ≡ server.stored x.server k m) =
        λ k m.
          ap (λ (p : Result ApiError (List Workload) × S). server.stored p.1 k m) (sym e)
          ∙ server.list_keeps kind namespace x.server k m in
      let current =
        server.list_current kind namespace x.server items
          (ap (λ (p : Result ApiError (List Workload) × S). p.0) e) in
      let (stores, elsewhere) = loop-Leaves 0 items [] y (kept kind namespace ∙ sym current) in
      subst (λ (p : Result Error ℕ × World S). Swept x.server p.0 p.1.server)
        (sym (
          bind_ok (list_workloads r kind namespace) (patch_items r change context kind namespace 0)
            x items y (list_outcome x (ok items) s e)))
        (
          subst
              (λ (l : List Workload).
                Stores change [] l 0 (loop r change context kind namespace 0 items y).0
                  (here (loop r change context kind namespace 0 items y).1.server))
              current stores,
          λ k m differs. elsewhere k m differs ∙ kept k m,
        )
  after_list x (err a) s e =
      let y : World S = record x { server = s } in
      let kept : ((k : Kind) (m : String) → server.stored s k m ≡ server.stored x.server k m) =
        λ k m.
          ap (λ (p : Result ApiError (List Workload) × S). server.stored p.1 k m) (sym e)
          ∙ server.list_keeps kind namespace x.server k m in
      subst (λ (p : Result Error ℕ × World S). Swept x.server p.0 p.1.server)
        (sym (
          bind_err (list_workloads r kind namespace) (patch_items r change context kind namespace 0)
            x (wrap (list_context kind) (api_error a)) y (list_outcome x (err a) s e)))
        (([], here x.server, refl, kept kind namespace), λ k m differs. kept k m)

  pub sweep-Swept : (x : World S) → Swept x.server (sweep x).0 (sweep x).1.server
  sweep-Swept x = after_list x _ _ refl
