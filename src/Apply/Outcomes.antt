-- ===== src/Apply/Outcomes.antt =====
-- What a start of puna-orchestrator/src/apply.rs reports, against the calls that it made.
use text.Mathlib.TextPositions.{eq_refl}
use puna.Common.{
  ◌≡◌, refl, Bool, true, false, Option, none, some, String, List, [], ◌∷◌, arith, str_eq, eq_iff,
  same_text, Bool-cases, inl, inr,
}
use puna.Plan.View.{RoomDeployment}
use puna.Apply.Ordering.{has_record, checked, served, own_objects}
use puna.Apply.{
  Cluster, Call, StartRequest, Started, RoomService, SecretSpec, IpamRefusal, Result, M, done,
  failed, recorded, pure, ◌>>=◌, apply_secret!, get_service!, get_deployment!, create_deployment!,
  delete_deployment!, adopt, ensure_service, check_address, with_existing, ensure_room_running,
}

-- The last call was the deletion of the room's Deployment.
abbrev pub ends_in_delete : List Call → Bool
ends_in_delete (Call.delete_deployment r ∷ log) = true
ends_in_delete (_ ∷ log) = false
ends_in_delete [] = false

-- What an answer of a start promises: a converged room has the configured address and a recorded
-- Deployment that was not deleted; an answer that makes the caller give the port or the spec up
-- comes right after the deletion; a wrong address is another than the configured one; and an
-- answer to wait deletes nothing last.
abbrev pub Reported : StartRequest → Result Started → List Call → Type 0
Reported q (failed e) log = Unit {0}
Reported q (done (Started.converged uid ip)) log =
    (ip ≡ q.lb_ip) × (has_record uid log ≡ true) × (ends_in_delete log ≡ false)
Reported q (done Started.recreating) log = ends_in_delete log ≡ true
Reported q (done Started.awaiting_address) log = ends_in_delete log ≡ false
Reported q (done Started.awaiting_teardown) log = ends_in_delete log ≡ false
Reported q (done (Started.address_refused refusal)) log = ends_in_delete log ≡ true
Reported q (done (Started.address_mismatch ip)) log =
    (ends_in_delete log ≡ true) × (str_eq ip q.lb_ip ≡ false)

Reported-bind :
    {A : Type 0} (q : StartRequest) (Mid : List Call → Type 0) (m : M A) (f : A → M Started)
    (log : List Call)
    → Mid (m log).1
    → ((a : A) (log' : List Call) → Mid log' → Reported q (f a log').0 (f a log').1)
    → Reported q ((m >>= f) log).0 ((m >>= f) log).1
Reported-bind {A} q Mid m f log h kf = go (m log).0 (m log).1 h
  where
    go :
        (r : Result A) (log' : List Call)
        → Mid log'
        → Reported q
            (elim r as (λ _. Result Started × List Call) [
              | done a ↦ f a log'
              | failed e ↦ (failed e, log')
            ]).0
            (elim r as (λ _. Result Started × List Call) [
              | done a ↦ f a log'
              | failed e ↦ (failed e, log')
            ]).1
    go (done a) log' k = kf a log' k
    go (failed e) log' k = tt

-- The uid is written down and the last call deleted nothing.
abbrev Standing : String → List Call → Type 0
Standing uid log = (has_record uid log ≡ true) × (ends_in_delete log ≡ false)

module _ (c : Cluster) (q : StartRequest) (uid : String) where
  check_address-Reported :
      (ip : Option String) (refusal : Option IpamRefusal) (log : List Call)
      → Standing uid log
      → Reported q (check_address c q uid ip refusal log).0 (check_address c q uid ip refusal log).1
  unfolding check_address
  check_address-Reported none none log h = ground arith
  check_address-Reported none (some refusal) log h = ground arith
  check_address-Reported (some ip) refusal log h = ground (arith, eq_iff ip q.lb_ip)

  ensure_service-Standing :
      (found : Option RoomService) (log : List Call)
      → Standing uid log
      → Standing uid (ensure_service c q.spec uid found log).1
  unfolding ensure_service
  ensure_service-Standing found log h = ground arith

  own_objects-Reported :
      (log : List Call)
      → has_record uid log ≡ true
      → Reported q (own_objects c q uid log).0 (own_objects c q uid log).1
  own_objects-Reported log h =
      Reported-bind q (Standing uid)
        (apply_secret! c
          (record { room_id = q.spec.room_id; contents = q.secret; owner = some uid }))
        (λ _. get_service! c q.spec.room_id >>= served c q uid) log (h, refl)
        (λ _ log' k.
          Reported-bind q (Standing uid) (get_service! c q.spec.room_id) (served c q uid) log'
            (k.0, refl) by_service)
    where
      by_service :
          (found : Option RoomService) (log' : List Call)
          → Standing uid log'
          → Reported q (served c q uid found log').0 (served c q uid found log').1
      by_service found log' k =
          Reported-bind q (Standing uid) (ensure_service c q.spec uid found) (checked c q uid) log'
            (ensure_service-Standing found log' k)
            (λ service. check_address-Reported service.ingress_ip service.ipam_refusal)

  adopt-Reported : (log : List Call) → Reported q (adopt c q uid log).0 (adopt c q uid log).1
  unfolding adopt
  adopt-Reported log = go (c.on_record log q.spec.room_id uid q.spec.spec_hash)
    where
      noted : List Call
      noted = Call.record_uid q.spec.room_id uid q.spec.spec_hash ∷ log

      answer : Option String → Result Started × List Call
      answer r = elim (recorded r) [
        | done a ↦ own_objects c q uid noted
        | failed e ↦ (failed e, noted)
      ]

      go : (r : Option String) → Reported q (answer r).0 (answer r).1
      go none = own_objects-Reported noted (ground (arith, eq_refl uid))
      go (some x) = tt

-- However the cluster answers, what a start reports agrees with the calls it made: an address is
-- advertised only if it is the configured one and the Deployment's uid was recorded; a refusal, a
-- mismatch and a recreation are reported right after the Deployment's deletion, a mismatch only for
-- another address; and an answer to wait, or a converged room, does not follow a deletion.
pub ensure_room_running-Reported :
    (c : Cluster) (q : StartRequest) (log : List Call)
    → Reported q (ensure_room_running c q log).0 (ensure_room_running c q log).1
unfolding ensure_room_running with_existing
ensure_room_running-Reported c q log =
    Reported-bind q Any (apply_secret! c unowned)
      (λ _. get_deployment! c q.spec.room_id >>= with_existing c q) log tt
      (λ _ log' _.
        Reported-bind q Latest (get_deployment! c q.spec.room_id) (with_existing c q) log' refl
          by_existing)
  where
    Any : List Call → Type 0
    Any _ = Unit {0}

    Latest : List Call → Type 0
    Latest l = ends_in_delete l ≡ false

    Deleted : List Call → Type 0
    Deleted l = ends_in_delete l ≡ true

    unowned : SecretSpec
    unowned = record { room_id = q.spec.room_id; contents = q.secret; owner = none }

    by_existing :
        (existing : Option RoomDeployment) (log' : List Call)
        → Latest log'
        → Reported q (with_existing c q existing log').0 (with_existing c q existing log').1
    by_existing none log' k =
        Reported-bind q Any (create_deployment! c q.spec) (adopt c q) log' tt
          (λ uid l _. adopt-Reported c q uid l)
    by_existing (some existing) log' k = elim (Bool-cases existing.deleting) [
      | inl e ↦ rw (e, with_existing) k
      | inr e ↦ elim (Bool-cases (same_text existing.spec_hash (some q.spec.spec_hash))) [
        | inl f ↦ rw (e, f, with_existing) (adopt-Reported c q existing.uid log')
        | inr f ↦
            rw (e, f, with_existing)
              (Reported-bind q Deleted (delete_deployment! c q.spec.room_id)
                (λ _. pure Started.recreating) log' refl (λ _ l h. h))
      ]
    ]
