-- ===== src/Scenarios/Starts.antt =====
-- Starts against a small cluster that has nothing yet and gives every room the same address.
use puna.Common.{◌≡◌, refl, Bool, true, false, none, some, String, List, [], ◌∷◌, pos}
use puna.Apply.{
  Cluster, Call, StartRequest, Started, RoomService, Reply, Result, ensure_room_running, adopt,
  ensure_service, check_address, with_existing, created,
}
use puna.Apply.Ordering.{owned_after_record, ensure_room_running-ordered}
use puna.Apply.Outcomes.{Reported, ensure_room_running-Reported}

abbrev service_at : String → RoomService
service_at ip = record {
  room_id = some 1;
  ingress_ip = some ip;
  ipam_refusal = none;
  ports = [];
  owner_uid = none;
}

-- Whether a Service was created already.
abbrev has_service : List Call → Bool
has_service [] = false
has_service (Call.create_service s ∷ log) = true
has_service (_ ∷ log) = has_service log

abbrev pub answering : String → Cluster
answering ip = record {
  on_apply_secret = λ log s. Reply.ok tt;
  on_delete_secret = λ log r. Reply.ok tt;
  on_get_deployment = λ log r. Reply.ok none;
  on_create_deployment = λ log s. Reply.ok "uid-1";
  on_delete_deployment = λ log r. Reply.ok tt;
  on_create_service = λ log s. Reply.ok tt;
  on_get_service = λ log r. elim (has_service log) [
    | true ↦ Reply.ok (some (service_at ip))
    | false ↦ Reply.ok none
  ];
  on_record = λ log r uid hash. none;
}

abbrev pub request : StartRequest
request = record {
  spec = record {
    room_id = 1;
    spec_hash = "a";
    image = "pahoa";
    base_port = 40000;
    wants_filtered = true;
    slot_count = pos 4;
    datapackage_bytes = none;
    save_interval_secs = pos 60;
    use_embedded_options = false;
  };
  secret = [];
  lb_ip = "10.0.0.1";
}

cold_start :
    (ensure_room_running (answering "10.0.0.1") request []).0
    ≡ Result.done (Started.converged "uid-1" "10.0.0.1")
unfolding ensure_room_running with_existing created adopt ensure_service check_address
cold_start = refl

wrong_address :
    (ensure_room_running (answering "10.0.0.2") request []).0
    ≡ Result.done (Started.address_mismatch "10.0.0.2")
unfolding ensure_room_running with_existing created adopt ensure_service check_address
wrong_address = refl

ensure_room_running-ordered_example :
    owned_after_record (ensure_room_running (answering "10.0.0.1") request []).1 ≡ true
ensure_room_running-ordered_example =
    ensure_room_running-ordered (answering "10.0.0.1") request [] refl

ensure_room_running-Reported_example :
    Reported request
      (ensure_room_running (answering "10.0.0.2") request []).0
      (ensure_room_running (answering "10.0.0.2") request []).1
ensure_room_running-Reported_example =
    ensure_room_running-Reported (answering "10.0.0.2") request []
