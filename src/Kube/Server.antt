-- ===== src/Kube/Server.antt =====
-- What is documented of the API server's Deployments and StatefulSets: a list answers with the
-- objects that are stored, a patch that succeeds puts the modified object in the place of the one
-- with its name, one that fails changes nothing, and names are unique in a namespace.
use costguard_operator.Base.{
  ◌≡◌, ◌≢◌, refl, sym, subst, String, Bool, true, false, ◌&&◌, List, [], ◌∷◌, ◌++◌, All, arith,
  if◌then◌else◌, ◌==◌, eq_iff, eq_refl,
}
use mathlib.Core.List.{Memᴰ}
use costguard_operator.Kube.{ApiError, Client, Kind, deployment, stateful_set, Workload, ok, err}

abbrev pub same_kind : Kind → Kind → Bool
same_kind deployment deployment = true
same_kind deployment stateful_set = false
same_kind stateful_set deployment = false
same_kind stateful_set stateful_set = true

abbrev pub same_place : Kind → String → Kind → String → Bool
same_place kind namespace k m = same_kind kind k && namespace == m

abbrev pub Lacks : String → List Workload → Type 0
Lacks name ws = All (λ (w : Workload). w.name ≢ name) ws

abbrev pub DistinctNames : List Workload → Type 0
DistinctNames [] = Unit
DistinctNames (w ∷ ws) = Lacks w.name ws × DistinctNames ws

-- The objects with `new` in the place of the one of its name.
unfoldable pub replace : Workload → List Workload → List Workload
replace new [] = []
replace new (w ∷ ws) =
    let rest = replace new ws in if w.name == new.name then new ∷ rest else w ∷ rest

pub record WorkloadServer {Q S : Type 0} (client : Client Q S) : Type 0 where
  pub stored : S → Kind → String → List Workload
  pub names_distinct :
      (s : S) (kind : Kind) (namespace : String) → DistinctNames (stored s kind namespace)
  pub list_current :
      (kind : Kind) (namespace : String) (s : S) (items : List Workload)
      → (client.list_workloads kind namespace s).0 ≡ ok items
      → items ≡ stored s kind namespace
  pub list_keeps :
      (kind : Kind) (namespace : String) (s : S) (k : Kind) (m : String)
      → stored (client.list_workloads kind namespace s).1 k m ≡ stored s k m
  pub patch_applies :
      (kind : Kind) (namespace : String) (w w' : Workload) (s s' : S) (done : Unit {0})
      → Memᴰ w (stored s kind namespace)
      → w'.name ≡ w.name
      → client.patch_workload kind namespace w w' s ≡ (ok done, s')
      → (k : Kind) (m : String)
      → stored s' k m
        ≡ (if same_place kind namespace k m then replace w' (stored s k m) else stored s k m)
  pub patch_refused :
      (kind : Kind) (namespace : String) (w w' : Workload) (s s' : S) (why : ApiError)
      → client.patch_workload kind namespace w w' s ≡ (err why, s')
      → (k : Kind) (m : String) → stored s' k m ≡ stored s k m

pub same_place_refl :
    (kind : Kind) (namespace : String) → same_place kind namespace kind namespace ≡ true
same_place_refl deployment namespace = eq_refl namespace
same_place_refl stateful_set namespace = eq_refl namespace

replace-Lacks : (new : Workload) (ws : List Workload) → Lacks new.name ws → replace new ws ≡ ws
unfolding replace
replace-Lacks new [] h = refl
replace-Lacks new (w ∷ ws) (differs, h) =
    ground (arith, eq_iff w.name new.name, replace-Lacks new ws h, differs)

Lacks-before :
    (w : Workload) (pre ws : List Workload) → DistinctNames (pre ++ w ∷ ws) → Lacks w.name pre
Lacks-before w [] ws h = tt
Lacks-before w (v ∷ pre) ws (lacks, h) =
    (λ e. absurd (Lacks-at w pre ws v.name lacks (sym e)), Lacks-before w pre ws h)
  where
    Lacks-at :
        (w : Workload) (pre ws : List Workload) (name : String)
        → Lacks name (pre ++ w ∷ ws)
        → w.name ≢ name
    Lacks-at w [] ws name h = h.0
    Lacks-at w (v ∷ pre) ws name h = Lacks-at w pre ws name h.1

Lacks-after :
    (w : Workload) (pre ws : List Workload) → DistinctNames (pre ++ w ∷ ws) → Lacks w.name ws
Lacks-after w [] ws h = h.0
Lacks-after w (v ∷ pre) ws h = Lacks-after w pre ws h.1

replace_in :
    (w new : Workload) (pre ws : List Workload)
    → new.name ≡ w.name
    → Lacks w.name pre
    → Lacks w.name ws
    → replace new (pre ++ w ∷ ws) ≡ pre ++ new ∷ ws
unfolding replace
replace_in w new [] ws same before after = ground (
  arith,
  eq_iff w.name new.name,
  replace-Lacks new ws (subst (λ (n : String). Lacks n ws) (sym same) after),
)
replace_in w new (v ∷ pre) ws same (differs, before) after =
    ground (arith, eq_iff v.name new.name, replace_in w new pre ws same before after, differs)

pub replace-middle :
    (w new : Workload) (pre ws : List Workload)
    → new.name ≡ w.name
    → DistinctNames (pre ++ w ∷ ws)
    → replace new (pre ++ w ∷ ws) ≡ pre ++ new ∷ ws
replace-middle w new pre ws same distinct =
    replace_in w new pre ws same (Lacks-before w pre ws distinct) (Lacks-after w pre ws distinct)

pub Mem-middle : (w : Workload) (pre ws : List Workload) → Memᴰ w (pre ++ w ∷ ws)
Mem-middle w [] ws = Memᴰ.head refl
Mem-middle w (v ∷ pre) ws = Memᴰ.tail (Mem-middle w pre ws)
