-- ===== src/Spec/Pod/Listens.antt =====
-- The Service, the container and the command line of a room agree: puna-orchestrator/src/spec.
use puna.Common.{
  ℕ, ◌≡◌, Bool, true, false, Option, none, some, String, List, [], ◌∷◌, if◌then◌else◌, str_eq, ◌&&◌,
  ◌||◌, not,
}
use puna.Apply.{RoomSpec}
use puna.Spec.Argv.{Arg, save_dir}
use puna.Spec.Sizing.{cpu_request_millicores}
use puna.Spec.Pod.{
  Container, ContainerPort, ServicePort, container_ports, resources, tls_dir, VolumeMount,
}

-- The port of the container that a name stands for.
unfoldable pub resolve : String → List ContainerPort → Option ℕ
resolve name [] = none
resolve name (p ∷ ports) =
    let rest = resolve name ports in if str_eq name p.name then some p.container_port else rest

-- The Service's port is the container's own of the name that it points to.
abbrev pub Resolves : List ContainerPort → ServicePort → Type 0
Resolves ports p = resolve p.target_port ports ≡ some p.port

made : RoomSpec → List Arg → ℕ → ℕ → Container
made spec args request limit = record {
  image = spec.image;
  args = args;
  ports = container_ports spec;
  resources = record {
    cpu_request = cpu_request_millicores spec.slot_count;
    cpu_limit = 2000;
    memory_request = request;
    memory_limit = limit;
  };
  volume_mounts =
      record { name = "data"; mount_path = save_dir; read_only = false }
      ∷ record { name = "tls"; mount_path = tls_dir; read_only = true }
      ∷ [];
}

-- A directory of the container that can be written to.
unfoldable pub is_writable : String → List VolumeMount → Bool
is_writable path [] = false
is_writable path (v ∷ mounts) =
    (str_eq path v.mount_path && not v.read_only) || is_writable path mounts
