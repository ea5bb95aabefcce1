-- ===== src/Startup/Scheme.antt =====
-- api/v1alpha1/groupversion_info.go and init of cmd/main.go: the types that the manager's scheme
-- knows. The scheme, its builder and client-go's own registration are a parameter. An object that is
-- registered stands for its type, by the name of the type.
use costguard_operator.Base.{◌≡◌, refl, sym, ap, ◌∙◌, subst, String, List, [], ◌∷◌, All, All-map}
use costguard_operator.Kube.{Error, Result, ok, err}

pub record GroupVersion : Type 0 where
  pub group : String
  pub version : String

-- A function that changes a scheme, and may fail.
abbrev pub Registration : Type 0 → Type 0
Registration Scheme = Scheme → Result Error (Unit {0}) × Scheme

pub record SchemeMethods (Scheme Builder : Type 0) : Type 0 where
  pub new_scheme : Scheme
  pub add_known_types : GroupVersion → List String → Scheme → Scheme
  pub add_to_group_version : GroupVersion → Scheme → Scheme
  pub new_scheme_builder : List (Registration Scheme) → Builder
  pub builder_add_to_scheme : Builder → Registration Scheme
  -- clientgoscheme.AddToScheme
  pub client_go_add_to_scheme : Registration Scheme

abbrev pub scheme_group_version : GroupVersion
scheme_group_version = record { group = "finops.ealebed.github.io"; version = "v1alpha1" }

abbrev pub group_version : GroupVersion
group_version = scheme_group_version

abbrev pub known_types : List String
known_types = "BudgetNamespace" ∷ "BudgetNamespaceList" ∷ []

-- utilruntime.Must after a step: an error panics.
abbrev pub and_must :
    {Scheme : Type 0}
    → Result Error (Unit {0}) × Scheme
    → Registration Scheme
    → Result Error (Unit {0}) × Scheme
and_must (ok done, s) next = next s
and_must (err e, s) next = (err e, s)

module _ {Scheme Builder : Type 0} (methods : SchemeMethods Scheme Builder) where
  -- addKnownTypes
  unfoldable pub add_known_types : Registration Scheme
  add_known_types scheme =
      let with_types = methods.add_known_types scheme_group_version known_types scheme in
      (ok tt, methods.add_to_group_version scheme_group_version with_types)

  abbrev pub scheme_builder : Builder
  scheme_builder = methods.new_scheme_builder (add_known_types ∷ [])

  unfoldable pub add_to_scheme : Registration Scheme
  add_to_scheme = methods.builder_add_to_scheme scheme_builder

  -- init: the result is an error where it panics.
  unfoldable pub init_scheme : Result Error (Unit {0}) × Scheme
  init_scheme = and_must (methods.client_go_add_to_scheme methods.new_scheme) add_to_scheme

-- What is documented: a registered type is known from then on, and a builder of one function runs
-- it.
pub record SchemeLaws {Scheme Builder : Type 0} (methods : SchemeMethods Scheme Builder)
    : Type 1 where
  pub Knows : Scheme → GroupVersion → String → Type 0
  pub known_then :
      (version : GroupVersion) (types : List String) (s : Scheme)
      → All (Knows (methods.add_known_types version types s) version) types
  pub known_still :
      (version v : GroupVersion) (name : String) (s : Scheme)
      → Knows s v name
      → Knows (methods.add_to_group_version version s) v name
  pub builder_runs :
      (register : Registration Scheme)
      → methods.builder_add_to_scheme (methods.new_scheme_builder (register ∷ [])) ≡ register

module _ {Scheme Builder : Type 0} (methods : SchemeMethods Scheme Builder)
    (laws : SchemeLaws methods) where
  -- Where client-go's types can be registered, init does not panic, and the scheme that it leaves
  -- knows both types of the operator.
  pub init_scheme-Knows :
      (s : Scheme)
      → methods.client_go_add_to_scheme methods.new_scheme ≡ (ok tt, s)
      → ((init_scheme methods).0 ≡ ok tt)
        × All (laws.Knows (init_scheme methods).1 group_version) known_types
  unfolding init_scheme add_to_scheme add_known_types
  init_scheme-Knows s e =
      subst
        (λ (p : Result Error (Unit {0}) × Scheme).
          (p.0 ≡ ok tt) × All (laws.Knows p.1 group_version) known_types)
        (sym runs)
        (
          refl,
          All-map _ _ known_types
              (λ name. laws.known_still scheme_group_version scheme_group_version name with_types)
              (laws.known_then scheme_group_version known_types s),
        )
    where
      with_types : Scheme
      with_types = methods.add_known_types scheme_group_version known_types s

      runs :
          and_must (methods.client_go_add_to_scheme methods.new_scheme) (
            methods.builder_add_to_scheme
              (methods.new_scheme_builder (add_known_types methods ∷ [])))
          ≡ (ok tt, methods.add_to_group_version scheme_group_version with_types)
      runs =
          ap
            (λ (p : Result Error (Unit {0}) × Scheme). and_must p (
              methods.builder_add_to_scheme
                (methods.new_scheme_builder (add_known_types methods ∷ []))))
            e
          ∙ ap (λ (f : Registration Scheme). f s) (laws.builder_runs (add_known_types methods))
