-- ===== src/Apply/Ordering.antt =====
-- In which order puna-orchestrator/src/apply.rs makes its calls.
use text.Mathlib.TextPositions.{eq_refl}
use puna.Common.{
  ◌≡◌, Bool, true, false, Option, none, some, String, List, [], ◌∷◌, ◌&&◌, ◌||◌, arith, str_eq,
}
use puna.Plan.View.{RoomDeployment}
use puna.Apply.{
  Cluster, Call, StartRequest, Started, RoomSpec, RoomService, IpamRefusal, Result, Reply, M,
  recorded, done, failed, ◌>>=◌, ◌>>◌, apply_secret!, get_service!, get_deployment!,
  create_deployment!, SecretSpec, adopt, ensure_service, check_address, with_existing,
  ensure_room_running, created,
}

-- Whether this uid was written down.
abbrev pub has_record : String → List Call → Bool
has_record uid [] = false
has_record uid (Call.record_uid r u hash ∷ log) = str_eq u uid || has_record uid log
has_record uid (_ ∷ log) = has_record uid log

-- Nothing is owned by a uid that is not written down yet.
abbrev pub owned_after_record : List Call → Bool
owned_after_record [] = true
owned_after_record (Call.create_service s ∷ log) = has_record s.owner log && owned_after_record log
owned_after_record (Call.apply_secret s ∷ log) =
    elim s.owner [ none ↦ true | some uid ↦ has_record uid log ] && owned_after_record log
owned_after_record (_ ∷ log) = owned_after_record log

-- What a computation keeps of the log.
abbrev pub Keeps : {A : Type 0} → (List Call → Type 0) → M A → Type 0
Keeps P m = (log : List Call) → P log → P (m log).1

Keeps-bind :
    {A B : Type 0} (P : List Call → Type 0) (m : M A) (f : A → M B)
    → Keeps P m
    → ((a : A) → Keeps P (f a))
    → Keeps P (m >>= f)
Keeps-bind {A} {B} P m f km kf log h = go (m log).0 (m log).1 (km log h)
  where
    go :
        (r : Result A) (log' : List Call)
        → P log'
        → P
            (elim r as (λ _. Result B × List Call) [
              | done a ↦ f a log'
              | failed e ↦ (failed e, log')
            ]).1
    go (done a) log' k = kf a log' k
    go (failed e) log' k = k

-- The uid is written down, and nothing is owned by one that is not.
abbrev Written : String → List Call → Type 0
Written uid log = (has_record uid log ≡ true) × (owned_after_record log ≡ true)

module _ (c : Cluster) where
  check_address-ordered :
      (q : StartRequest) (uid : String) (ip : Option String) (refusal : Option IpamRefusal)
      → Keeps (Written uid) (check_address c q uid ip refusal)
  unfolding check_address
  check_address-ordered q uid ip refusal log h = ground arith

  ensure_service-ordered :
      (spec : RoomSpec) (uid : String) (found : Option RoomService)
      → Keeps (Written uid) (ensure_service c spec uid found)
  unfolding ensure_service
  ensure_service-ordered spec uid found log h = ground arith

  apply_owned-ordered :
      (q : StartRequest) (uid : String)
      → Keeps (Written uid) (
          apply_secret! c
            (record { room_id = q.spec.room_id; contents = q.secret; owner = some uid }))
  apply_owned-ordered q uid log h = ground arith

  abbrev pub checked : StartRequest → String → RoomService → M Started
  checked q uid service = check_address c q uid service.ingress_ip service.ipam_refusal

  abbrev pub served : StartRequest → String → Option RoomService → M Started
  served q uid found = ensure_service c q.spec uid found >>= checked q uid

  abbrev pub own_objects : StartRequest → String → M Started
  own_objects q uid = do
    apply_secret! c (record { room_id = q.spec.room_id; contents = q.secret; owner = some uid })
    get_service! c q.spec.room_id >>= served q uid

  served-ordered :
      (q : StartRequest) (uid : String) (found : Option RoomService)
      → Keeps (Written uid) (served q uid found)
  served-ordered q uid found =
      Keeps-bind {A = RoomService} {B = Started} (Written uid) (ensure_service c q.spec uid found)
        (checked q uid) (ensure_service-ordered q.spec uid found)
        (λ service. check_address-ordered q uid service.ingress_ip service.ipam_refusal)

  own_objects-ordered : (q : StartRequest) (uid : String) → Keeps (Written uid) (own_objects q uid)
  own_objects-ordered q uid =
      Keeps-bind {A = Unit {0}} {B = Started} (Written uid)
        (apply_secret! c
          (record { room_id = q.spec.room_id; contents = q.secret; owner = some uid }))
        (λ _. get_service! c q.spec.room_id >>= served q uid) (apply_owned-ordered q uid)
        (λ _.
          Keeps-bind {A = Option RoomService} {B = Started} (Written uid)
            (get_service! c q.spec.room_id) (served q uid) (λ log h. h) (served-ordered q uid))

  adopt-ordered :
      (q : StartRequest) (uid : String)
      → Keeps (λ log. owned_after_record log ≡ true) (adopt c q uid)
  unfolding adopt
  adopt-ordered q uid log h = go (c.on_record log q.spec.room_id uid q.spec.spec_hash)
    where
      noted : List Call
      noted = Call.record_uid q.spec.room_id uid q.spec.spec_hash ∷ log

      go :
          (r : Option String)
          → owned_after_record
              (elim (recorded r) as (λ _. Result Started × List Call) [
                | done a ↦ own_objects q uid noted
                | failed e ↦ (failed e, noted)
              ]).1
            ≡ true
      go none = (own_objects-ordered q uid noted (ground (arith, eq_refl uid), h)).1
      go (some x) = h

  created-ordered :
      (spec : RoomSpec) (reply : Reply String)
      → Keeps (λ log. owned_after_record log ≡ true) (created c spec reply)
  unfolding created
  created-ordered spec reply log h = ground arith

  -- However the cluster answers, a start never makes an object owned by a uid that the recorder was
  -- not handed before.
  pub ensure_room_running-ordered :
      (q : StartRequest) (log : List Call)
      → owned_after_record log ≡ true
      → owned_after_record (ensure_room_running c q log).1 ≡ true
  unfolding ensure_room_running with_existing
  ensure_room_running-ordered q =
      Keeps-bind {A = Unit {0}} {B = Started} Ordered (apply_secret! c unowned)
        (λ _. get_deployment! c q.spec.room_id >>= with_existing c q) (λ log h. h)
        (λ _.
          Keeps-bind {A = Option RoomDeployment} {B = Started} Ordered
            (get_deployment! c q.spec.room_id) (with_existing c q) (λ log h. h) by_existing)
    where
      Ordered : List Call → Type 0
      Ordered log = owned_after_record log ≡ true

      unowned : SecretSpec
      unowned = record { room_id = q.spec.room_id; contents = q.secret; owner = none }

      by_existing : (existing : Option RoomDeployment) → Keeps Ordered (with_existing c q existing)
      by_existing none log h =
          Keeps-bind {A = String} {B = Started} Ordered (create_deployment! c q.spec) (adopt c q)
            (λ log' k.
              created-ordered q.spec (c.on_create_deployment log' q.spec)
                (Call.create_deployment q.spec ∷ log') k)
            (λ uid. adopt-ordered q uid) log h
      by_existing (some existing) log h = ground (arith, adopt-ordered q existing.uid log h)
