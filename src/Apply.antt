-- ===== src/Apply.antt =====
-- Carrying a start out against the cluster: puna-orchestrator/src/apply.rs, with the objects and
-- errors of puna-orchestrator/src/cluster/mod.rs. The cluster is an argument that answers each call
-- as it likes, from all the calls made so far; every object of a room is named after the room, so
-- the model names it by the room's id. An async call is a step of a state and exception monad over
-- the log of calls, newest first.
pub mod Ordering
pub mod Outcomes
use puna.Common.{
  ℕ, Bool, true, false, Option, none, some, String, List, [], ◌∷◌, str_eq, same_text, if◌then◌else◌,
  ◌&&◌, ℤ,
}
use puna.Plan.View.{RoomDeployment}

pub data ClusterError : Type 0 where
  already_exists fatal transient : String → ClusterError

abbrev pub is_fatal : ClusterError → Bool
is_fatal (ClusterError.fatal e) = true
is_fatal _ = false

pub data ApplyError : Type 0 where
  cluster : ClusterError → ApplyError
  record_failed : String → ApplyError
  vanished : ℕ → ApplyError

pub record RoomSpec : Type 0 where
  pub room_id : ℕ
  pub spec_hash : String
  pub image : String
  pub base_port : ℕ
  pub wants_filtered : Bool
  pub slot_count : ℤ
  pub datapackage_bytes : Option ℤ
  pub save_interval_secs : ℤ
  pub use_embedded_options : Bool

-- An owner reference: the Deployment's uid. Its name is the room's.
pub record ServiceSpec : Type 0 where
  pub room_id : ℕ
  pub base_port : ℕ
  pub wants_filtered : Bool
  pub owner : String

pub record SecretSpec : Type 0 where
  pub room_id : ℕ
  pub contents : List (String × String)
  pub owner : Option String

pub record IpamRefusal : Type 0 where
  pub reason : String
  pub message : String

pub record RoomService : Type 0 where
  pub room_id : Option ℕ
  pub ingress_ip : Option String
  pub ipam_refusal : Option IpamRefusal
  pub ports : List ℕ
  pub owner_uid : Option String

pub data Started : Type 0 where
  converged : String → String → Started
  recreating awaiting_address awaiting_teardown : Started
  address_refused : IpamRefusal → Started
  address_mismatch : String → Started

pub record StartRequest : Type 0 where
  pub spec : RoomSpec
  pub secret : List (String × String)
  pub lb_ip : String

-- A call of the cluster or of the recorder.
pub data Call : Type 0 where
  apply_secret : SecretSpec → Call
  delete_secret : ℕ → Call
  get_deployment : ℕ → Call
  create_deployment : RoomSpec → Call
  delete_deployment : ℕ → Call
  create_service : ServiceSpec → Call
  get_service : ℕ → Call
  record_uid : ℕ → String → String → Call

pub data Reply (A : Type 0) : Type 0 where
  ok : A → Reply A
  err : ClusterError → Reply A

-- `ClusterApi` and `DeploymentRecorder`: what answers a call, given the calls made before it.
pub record Cluster : Type 0 where
  pub on_apply_secret : List Call → SecretSpec → Reply (Unit {0})
  pub on_delete_secret : List Call → ℕ → Reply (Unit {0})
  pub on_get_deployment : List Call → ℕ → Reply (Option RoomDeployment)
  pub on_create_deployment : List Call → RoomSpec → Reply String
  pub on_delete_deployment : List Call → ℕ → Reply (Unit {0})
  pub on_create_service : List Call → ServiceSpec → Reply (Unit {0})
  pub on_get_service : List Call → ℕ → Reply (Option RoomService)
  pub on_record : List Call → ℕ → String → String → Option String

pub data Result (A : Type 0) : Type 0 where
  done : A → Result A
  failed : ApplyError → Result A

abbrev pub M : Type 0 → Type 0
M A = List Call → Result A × List Call

infixl 5 ◌>>=◌ ◌>>◌
abbrev pub ◌>>=◌ : {A B : Type 0} → M A → (A → M B) → M B
◌>>=◌ m f log = let (r, log') = m log in elim r [ done a ↦ f a log' | failed e ↦ (failed e, log') ]

abbrev pub ◌>>◌ : {A B : Type 0} → M A → M B → M B
m >> k = m >>= λ _. k

abbrev pub pure : {A : Type 0} → A → M A
pure a log = (done a, log)

abbrev pub throw : {A : Type 0} → ApplyError → M A
throw e log = (failed e, log)

-- `?` on a cluster call.
abbrev pub lift : {A : Type 0} → Reply A → Result A
lift (ok a) = done a
lift (err e) = failed (ApplyError.cluster e)

abbrev pub recorded : Option String → Result (Unit {0})
recorded none = done tt
recorded (some e) = failed (ApplyError.record_failed e)

module _ (c : Cluster) where
  abbrev pub apply_secret! : SecretSpec → M (Unit {0})
  apply_secret! s log = (lift (c.on_apply_secret log s), Call.apply_secret s ∷ log)

  abbrev pub get_deployment! : ℕ → M (Option RoomDeployment)
  get_deployment! r log = (lift (c.on_get_deployment log r), Call.get_deployment r ∷ log)

  abbrev pub delete_deployment! : ℕ → M (Unit {0})
  delete_deployment! r log = (lift (c.on_delete_deployment log r), Call.delete_deployment r ∷ log)

  abbrev pub delete_secret! : ℕ → M (Unit {0})
  delete_secret! r log = (lift (c.on_delete_secret log r), Call.delete_secret r ∷ log)

  abbrev pub create_service! : ServiceSpec → M (Unit {0})
  create_service! s log = (lift (c.on_create_service log s), Call.create_service s ∷ log)

  abbrev pub get_service! : ℕ → M (Option RoomService)
  get_service! r log = (lift (c.on_get_service log r), Call.get_service r ∷ log)

  abbrev pub record! : ℕ → String → String → M (Unit {0})
  record! r uid hash log = (recorded (c.on_record log r uid hash), Call.record_uid r uid hash ∷ log)

  -- What follows a `get` after a 409 or after a creation: nothing there is `Vanished`.
  abbrev pub or_vanished : {A : Type 0} → ℕ → Option A → M A
  or_vanished r none = throw (ApplyError.vanished r)
  or_vanished r (some a) = pure a

  -- The answer to `create_deployment`: a 409 is success, and the uid is read back.
  unfoldable pub created : RoomSpec → Reply String → M String
  created spec (ok uid) = pure uid
  created spec (err (ClusterError.already_exists name)) = do
    found ← get_deployment! spec.room_id
    d ← or_vanished spec.room_id found
    pure d.uid
  created spec (err (ClusterError.fatal e)) = throw (ApplyError.cluster (ClusterError.fatal e))
  created spec (err (ClusterError.transient e)) =
      throw (ApplyError.cluster (ClusterError.transient e))

  abbrev pub create_deployment! : RoomSpec → M String
  create_deployment! spec log =
      created spec (c.on_create_deployment log spec) (Call.create_deployment spec ∷ log)

  -- Step 5: the Service that is there, or a new one.
  unfoldable pub ensure_service : RoomSpec → String → Option RoomService → M RoomService
  ensure_service spec uid (some service) = pure service
  ensure_service spec uid none = do
    create_service! (record {
      room_id = spec.room_id;
      base_port = spec.base_port;
      wants_filtered = spec.wants_filtered;
      owner = uid;
    })
    found ← get_service! spec.room_id
    or_vanished spec.room_id found

  -- Step 6: the address is the configured one, another, refused, or not there yet.
  unfoldable pub check_address :
      StartRequest → String → Option String → Option IpamRefusal → M Started
  check_address q uid none (some refusal) = do
    delete_deployment! q.spec.room_id
    pure (Started.address_refused refusal)
  check_address q uid none none = pure Started.awaiting_address
  check_address q uid (some ip) refusal =
      if str_eq ip q.lb_ip
      then pure (Started.converged uid ip)
      else do delete_deployment! q.spec.room_id; pure (Started.address_mismatch ip)

  -- Steps 3 to 6, once there is a Deployment with this uid.
  unfoldable pub adopt : StartRequest → String → M Started
  unfolding ensure_service check_address
  adopt q uid = do
    record! q.spec.room_id uid q.spec.spec_hash
    apply_secret! (record { room_id = q.spec.room_id; contents = q.secret; owner = some uid })
    found ← get_service! q.spec.room_id
    service ← ensure_service q.spec uid found
    check_address q uid service.ingress_ip service.ipam_refusal

  -- Step 2: the match on the Deployment that the name already has.
  unfoldable pub with_existing : StartRequest → Option RoomDeployment → M Started
  with_existing q none = do uid ← create_deployment! q.spec; adopt q uid
  with_existing q (some existing) =
      if existing.deleting
      then pure Started.awaiting_teardown
      else if same_text existing.spec_hash (some q.spec.spec_hash)
      then adopt q existing.uid
      else do delete_deployment! q.spec.room_id; pure Started.recreating

  unfoldable pub ensure_room_running : StartRequest → M Started
  ensure_room_running q = do
    apply_secret! (record { room_id = q.spec.room_id; contents = q.secret; owner = none })
    existing ← get_deployment! q.spec.room_id
    with_existing q existing

  unfoldable pub teardown_room : ℕ → M (Unit {0})
  teardown_room room = do delete_deployment! room; delete_secret! room
