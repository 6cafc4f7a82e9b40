-- ===== src/Spec/Pod.antt =====
-- What of a room's pod and its Service the room's own program meets: the container of
-- puna-orchestrator/src/spec/deployment.rs, and the ports of puna-orchestrator/src/spec/service.rs. The
-- labels, the security settings, the probes and the names of objects are constants of the templates
-- and left out; a quantity is the number that it writes.
pub mod Listens
use puna.Common.{
  ℕ, ◌+◌, Bool, true, false, Option, none, some, String, List, [], ◌∷◌, if◌then◌else◌, leb,
}
use puna.Apply.{RoomSpec, ServiceSpec}
use puna.Spec.Argv.{Arg, Shown, serve, save_dir}
use puna.Spec.Sizing.{cpu_request_millicores, memory_request_bytes, memory_limit_bytes, ◌>>=◌}

abbrev pub port_full : String
port_full = "game-full"

abbrev pub port_filtered : String
port_filtered = "game-filtered"

abbrev pub tls_dir : String
tls_dir = "/etc/pahoa/tls"

pub record ContainerPort : Type 0 where
  pub name : String
  pub container_port : ℕ

pub record VolumeMount : Type 0 where
  pub name : String
  pub mount_path : String
  pub read_only : Bool

-- Millicores and bytes.
pub record Resources : Type 0 where
  pub cpu_request : ℕ
  pub cpu_limit : ℕ
  pub memory_request : ℕ
  pub memory_limit : ℕ

pub record Container : Type 0 where
  pub image : String
  pub args : List Arg
  pub ports : List ContainerPort
  pub resources : Resources
  pub volume_mounts : List VolumeMount

-- The ports of the container are 32 bits wide, so the sum stays in range.
unfoldable pub container_ports : RoomSpec → List ContainerPort
container_ports spec =
    record { name = port_full; container_port = spec.base_port }
    ∷ (if spec.wants_filtered
        then record { name = port_filtered; container_port = spec.base_port + 1 } ∷ []
        else [])

unfoldable pub resources : RoomSpec → Option Resources
resources spec = do
  request ← memory_request_bytes spec.slot_count spec.datapackage_bytes
  limit ← memory_limit_bytes spec.slot_count spec.datapackage_bytes
  some (record {
    cpu_request = cpu_request_millicores spec.slot_count;
    cpu_limit = 2000;
    memory_request = request;
    memory_limit = limit;
  })

unfoldable pub container : Shown → RoomSpec → Option Container
container shown spec = do
  args ← serve shown spec
  sizes ← resources spec
  some (record {
    image = spec.image;
    args = args;
    ports = container_ports spec;
    resources = sizes;
    volume_mounts =
        record { name = "data"; mount_path = save_dir; read_only = false }
        ∷ record { name = "tls"; mount_path = tls_dir; read_only = true }
        ∷ [];
  })

pub record ServicePort : Type 0 where
  pub name : String
  pub port : ℕ
  pub target_port : String

-- The sum is of 16 bits.
unfoldable pub published_ports : ServiceSpec → Option (List ℕ)
published_ports spec =
    if spec.wants_filtered
    then (if leb (spec.base_port + 1) 65535
        then some (spec.base_port ∷ (spec.base_port + 1) ∷ [])
        else none)
    else some (spec.base_port ∷ [])

-- `zip` with the names.
unfoldable pub named : List ℕ → List String → List ServicePort
named [] names = []
named (port ∷ ports) [] = []
named (port ∷ ports) (name ∷ names) =
    record { name = name; port = port; target_port = name } ∷ named ports names

unfoldable pub service_ports : ServiceSpec → Option (List ServicePort)
unfolding published_ports named
service_ports spec = do
  ports ← published_ports spec
  some (named ports (port_full ∷ port_filtered ∷ []))
