-- ===== src/Importer/Clients.antt =====
-- api/importer/clients.go. The client sets of the Kubernetes libraries are parameters: each gives a client for a namespace.
use ces_importer.Base.{String, ◌≡◌, arith, inl, inr, Result-cases, wrap, Result, ok, err}

-- The types of the clients.
pub record Interfaces : Type 1 where
  pub Pvc : Type 0
  pub Pod : Type 0
  pub Job : Type 0
  pub ConfigMap : Type 0
  pub Secret : Type 0
  pub Dogu : Type 0
  pub Blueprint : Type 0
  pub Component : Type 0
  pub BackupSchedule : Type 0

-- The clients of `kubernetes.Clientset` by namespace.
pub record KubernetesClients (i : Interfaces) : Type 0 where
  pub persistent_volume_claims : String → i.Pvc
  pub pods : String → i.Pod
  pub config_maps : String → i.ConfigMap
  pub secrets : String → i.Secret
  pub jobs : String → i.Job

-- `kubernetes.NewForConfig` and the constructors of the other client sets, for one configuration.
pub record Constructors (i : Interfaces) : Type 0 where
  pub get_k8s_clients_set : Result (KubernetesClients i)
  pub get_eco_system_client : Result (String → i.Dogu)
  pub get_blueprint_client : Result (String → i.Blueprint)
  pub get_components_client : Result (String → i.Component)
  pub get_backup_client : Result (String → i.BackupSchedule)

-- What a dogu control and a blueprint control are made of.
pub record DoguControl (i : Interfaces) : Type 0 where
  pub dogu_cli : i.Dogu
  pub pod_cli : i.Pod

pub record K8sClients (i : Interfaces) : Type 0 where
  pub pvc : i.Pvc
  pub pod : i.Pod
  pub job : i.Job
  pub config_map : i.ConfigMap
  pub secret : i.Secret
  pub dogu : i.Dogu
  pub dogu_control : DoguControl i
  pub blueprint_control : i.Blueprint
  pub component : i.Component
  pub backup_schedule : i.BackupSchedule

-- The next client set, or the error of its constructor.
abbrev and_then : {A B : Type 0} → String → Result A → (A → Result B) → Result B
and_then message (err e) k = err (wrap message e)
and_then message (ok a) k = k a

unfoldable pub create_k8s_client_set :
    {i : Interfaces} → Constructors i → String → Result (K8sClients i)
create_k8s_client_set c namespace =
    and_then "failed to create k8s client set" c.get_k8s_clients_set (λ k8s.
      and_then "failed to create ecosystem client" c.get_eco_system_client (λ dogus.
        and_then "failed to create blueprint client" c.get_blueprint_client (λ blueprints.
          and_then "failed to create component client" c.get_components_client (λ components.
            and_then "failed to create ecosystem backup client" c.get_backup_client (λ schedules.
              ok (record {
                pvc = k8s.persistent_volume_claims namespace;
                pod = k8s.pods namespace;
                job = k8s.jobs namespace;
                config_map = k8s.config_maps namespace;
                secret = k8s.secrets namespace;
                dogu = dogus namespace;
                dogu_control = record { dogu_cli = dogus namespace; pod_cli = k8s.pods namespace };
                blueprint_control = blueprints namespace;
                component = components namespace;
                backup_schedule = schedules namespace;
              }))))))

-- The clients are there exactly if each constructor has given its client set, and they are for the one namespace.
create_k8s_client_set-eq-ok :
    {i : Interfaces} (c : Constructors i) (namespace : String) (clients : K8sClients i)
    → create_k8s_client_set c namespace ≡ ok clients
    → (k8s : KubernetesClients i) × (c.get_k8s_clients_set ≡ ok k8s)
      × (clients.dogu_control.pod_cli ≡ clients.pod)
      × (clients.dogu_control.dogu_cli ≡ clients.dogu)
      × (clients.pod ≡ k8s.pods namespace)
      × (clients.secret ≡ k8s.secrets namespace)
      × (clients.config_map ≡ k8s.config_maps namespace)
unfolding create_k8s_client_set
create_k8s_client_set-eq-ok c namespace clients h = elim (Result-cases c.get_k8s_clients_set) [
  | inr (e, p) ↦ ground (arith, p, h)
  | inl (k8s, p) ↦ (
    k8s,
    p,
    ground (arith, p, h),
    ground (arith, p, h),
    ground (arith, p, h),
    ground (arith, p, h),
    ground (arith, p, h),
  )
]
