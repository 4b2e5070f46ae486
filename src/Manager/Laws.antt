-- ===== src/Manager/Laws.antt =====
-- What the process has done when `main` ends: everything in order, or a first part of it.
use netbox_herald.Base.{
  ℕ, suc, Error, ◌<◌, ◌≡◌, refl, sym, ◌∙◌, arith, String, List, [], ◌∷◌, ◌++◌, take, Exec, gets,
  context, wrapped, ◌>>◌,
}
use netbox_herald.Base.Triple.{Triple, Triple-bind, Triple-given, Triple-weaken, Triple-context}
use netbox_herald.Controller.Kube.{Kube}
use netbox_herald.Controller.Wiring.{Registration}
use netbox_herald.Manager.Options.{
  Flags, ManagerOptions, manager_options, operator_namespace_or_default,
}
use netbox_herald.Manager.Main.{
  Reconciler, herald_config_reconciler, cluster_reconciler, node_reconciler, service_reconciler,
  pod_cidr_reconciler, Runtime, registration, setup_with_manager, main,
}

-- A call of the manager that went well.
pub data Action (S : Type 0) : Type 0 where
  managed : ManagerOptions → Action S
  controls : Registration S → Reconciler → Action S
  live_check : String → Action S
  ready_check : String → Action S
  ran : Action S

module _ {S M : Type 0} (log : M → List (Action S)) where
  -- A call that returns is logged; one that fails is not.
  abbrev pub Logs : Exec M (Unit {0}) → Action S → Type 0
  Logs m a =
      (l : List (Action S))
      → Triple (λ s. log s ≡ l) m (λ _ s. log s ≡ l ++ a ∷ []) (λ s. log s ≡ l)

  pub record IsLogged (runtime : Runtime S M) (environment : String → String) : Type 0 where
    pub new_manager_logs :
        (options : ManagerOptions) → Logs (runtime.new_manager options) (managed options)
    pub complete_logs :
        (r : Registration S) (c : Reconciler) → Logs (runtime.complete r c) (controls r c)
    pub add_healthz_check_logs :
        (name : String) → Logs (runtime.add_healthz_check name) (live_check name)
    pub add_readyz_check_logs :
        (name : String) → Logs (runtime.add_readyz_check name) (ready_check name)
    pub start_logs : Logs runtime.start ran
    pub getenv_lem : (key : String) (s : M) → runtime.getenv key s ≡ environment key

-- all that `main` does, in this order
abbrev pub course : {S : Type 0} → Kube S → Flags → String → List (Action S)
course kube flags namespace =
    let configured = herald_config_reconciler (operator_namespace_or_default namespace) in
    managed (manager_options flags)
    ∷ controls (registration kube configured) configured
    ∷ controls (registration kube cluster_reconciler) cluster_reconciler
    ∷ controls (registration kube node_reconciler) node_reconciler
    ∷ controls (registration kube service_reconciler) service_reconciler
    ∷ controls (registration kube pod_cidr_reconciler) pod_cidr_reconciler
    ∷ live_check "healthz"
    ∷ ready_check "readyz"
    ∷ ran
    ∷ []

module _ {S M : Type 0} (kube : Kube S) (runtime : Runtime S M) (log : M → List (Action S))
    (environment : String → String) (logged : IsLogged log runtime environment)
    (flags : Flags) where
  abbrev all_of_it : List (Action S)
  all_of_it = course kube flags (environment "POD_NAMESPACE")

  -- The process ended early, after a first part of it.
  abbrev pub EndedEarly : M → Type 0
  EndedEarly s = (n : ℕ) × (n < 9) × (log s ≡ take n (all_of_it))

  -- one call of the course, with what is said of its failure
  logged_step :
      (n : ℕ) (a : Action S) (m : Exec M (Unit {0})) (f : Error → Error)
      → Logs log m a
      → n < 9
      → take (suc n) (all_of_it) ≡ take n (all_of_it) ++ a ∷ []
      → Triple
          (λ s. log s ≡ take n (all_of_it))
          (context f m)
          (λ _ s. log s ≡ take (suc n) (all_of_it))
          EndedEarly
  logged_step n a m f t few same =
      Triple-context f
        (Triple-weaken (λ _ s h. h ∙ sym same) (λ s h. (n, few, h)) (t (take n (all_of_it))))

  setup_step :
      (n : ℕ) (r : Reconciler)
      → n < 9
      → take (suc n) (all_of_it) ≡ take n (all_of_it) ++ controls (registration kube r) r ∷ []
      → Triple
          (λ s. log s ≡ take n (all_of_it))
          (setup_with_manager kube runtime r)
          (λ _ s. log s ≡ take (suc n) (all_of_it))
          EndedEarly
  unfolding setup_with_manager
  setup_step n r few same =
      logged_step n (controls (registration kube r) r) (runtime.complete (registration kube r) r) _
        (logged.complete_logs (registration kube r) r) few same

  namespace_step :
      Triple
        (λ s. log s ≡ take 1 (all_of_it))
        (gets (runtime.getenv "POD_NAMESPACE"))
        (λ ns s. (log s ≡ take 1 (all_of_it)) × (ns ≡ environment "POD_NAMESPACE"))
        EndedEarly
  namespace_step = record { run = λ s h. (h, logged.getenv_lem "POD_NAMESPACE" s) }

  -- the rest of `main` once it has the namespace
  abbrev rest_of_main : String → Exec M (Unit {0})
  rest_of_main namespace = do
    setup_with_manager kube runtime
        (herald_config_reconciler (operator_namespace_or_default namespace))
    setup_with_manager kube runtime cluster_reconciler
    setup_with_manager kube runtime node_reconciler
    setup_with_manager kube runtime service_reconciler
    setup_with_manager kube runtime pod_cidr_reconciler
    context (wrapped "Failed to set up health check" []) (runtime.add_healthz_check "healthz")
    context (wrapped "Failed to set up ready check" []) (runtime.add_readyz_check "readyz")
    context (wrapped "Failed to run manager" []) runtime.start

  controllers_step :
      (namespace : String)
      → namespace ≡ environment "POD_NAMESPACE"
      → Triple
          (λ s. log s ≡ take 1 (all_of_it))
          (rest_of_main namespace)
          (λ _ s. log s ≡ all_of_it)
          EndedEarly
  controllers_step namespace is = rw is (
      Triple-bind _ _ (setup_step 1 _ (omega arith) refl) λ _.
        Triple-bind _ _ (setup_step 2 cluster_reconciler (omega arith) refl) λ _.
          Triple-bind _ _ (setup_step 3 node_reconciler (omega arith) refl) λ _.
            Triple-bind _ _ (setup_step 4 service_reconciler (omega arith) refl) λ _.
              Triple-bind _ _ (setup_step 5 pod_cidr_reconciler (omega arith) refl) λ _.
                Triple-bind _ _
                  (logged_step 6 (live_check "healthz") _ _
                    (logged.add_healthz_check_logs "healthz") (omega arith) refl)
                  λ _.
                    Triple-bind _ _
                      (logged_step 7 (ready_check "readyz") _ _
                        (logged.add_readyz_check_logs "readyz") (omega arith) refl)
                      λ _. logged_step 8 ran _ _ logged.start_logs (omega arith) refl)

  -- If each call of the manager does what it is asked for or fails with no effect, and the
  -- environment does not change, then a run of main from the start that returns has made the
  -- manager with the options of the flags, registered the five reconcilers, added the two checks
  -- and run the manager, in this order and nothing else; a run that fails has done the first of
  -- these, less than all.
  pub main-course :
      Triple (λ s. log s ≡ []) (main kube runtime flags) (λ _ s. log s ≡ all_of_it) EndedEarly
  unfolding main
  main-course =
      Triple-bind _ _
        (logged_step 0 (managed (manager_options flags)) _ _
          (logged.new_manager_logs (manager_options flags)) (omega arith) refl)
        λ _. Triple-bind _ _ namespace_step λ ns. Triple-given λ is. controllers_step ns is
