-- ===== src/Plan/Pass/Exact.antt =====
-- Which actions a pass of puna-orchestrator/src/plan.rs holds: each is its room's decision, no room
-- has two, and no step without a cap is put off.
use mathlib.Core.List.{Nodup, Sublistᴰ}
use mathlib.Core.List.Nodup
use puna.Common.{
  ◌&&◌, ℕ, suc, ◌≡◌, refl, sym, ◌∙◌, ap, subst, Bool, true, false, ◌||◌, not, Option, none, some,
  List, [], ◌∷◌, map, arith, All, All-imply, All-mem, All-keep, keep, drop, Memᴰ, mem-keep, mem-map,
  contains, contains-append, ℤ, Bool-cases, inl, inr, sort_by_key, All-and,
}
use puna.Plan.View.{RoomView, ClusterSnapshot, deployment}
use puna.Plan.Decide.{Step, step_for}
use puna.Plan.Pass.Places.{Distinct, enumerate-Distinct, contains-sort_by_key, contains-drop}
use puna.Plan.Pass.Budget.{keep-Outside-keep}
use puna.Plan.Pass.{
  Planned, Action, TickKind, indices, enumerate, planned, by_age, by_idle, deferred, kept, plan,
  to_action, is_recreate, is_reap, is_not_ready, allowed, admit, age_key, idle_key,
}

-- A step that no cap applies to.
abbrev pub is_uncapped : Step → Bool
is_uncapped s = not (is_recreate s || is_reap s)

abbrev pub is_short : TickKind → Bool
is_short TickKind.converge = true
is_short TickKind.reconcile = false

module _ (cluster : ClusterSnapshot) (now : ℕ) (idle_timeout : ℤ) (kind : TickKind) where
  -- The step is what the room's own state calls for, and the kind of pass allows it.
  abbrev pub Decides : List RoomView → RoomView × Step → Type 0
  Decides rooms e =
      Memᴰ e.0 rooms
      × (step_for e.0 (deployment cluster e.0.id) now idle_timeout ≡ some e.1)
      × (allowed kind e.1 ≡ true)

  admit-Decides :
      (room : RoomView) (rooms : List RoomView) (decision : Option Step)
      (rest : List (RoomView × Step))
      → step_for room (deployment cluster room.id) now idle_timeout ≡ decision
      → All (Decides (room ∷ rooms)) rest
      → All (Decides (room ∷ rooms)) (admit kind room decision rest)
  admit-Decides room rooms none rest e h = h
  admit-Decides room rooms (some s) rest e h = elim (Bool-cases (allowed kind s)) [
    | inl a ↦ rw a ((Memᴰ.head refl, e, a), h)
    | inr a ↦ rw a h
  ]

  planned-Decides :
      (rooms : List RoomView) → All (Decides rooms) (planned rooms cluster now idle_timeout kind)
  unfolding planned
  planned-Decides [] = tt
  planned-Decides (room ∷ rooms) = admit-Decides room rooms _ _ refl (
      All-imply _ _ (λ e h. (Memᴰ.tail h.0, h.1, h.2)) (planned rooms cluster now idle_timeout kind)
        (planned-Decides rooms))

  mem-planned :
      (rooms : List RoomView) (room : RoomView) (s : Step)
      → Memᴰ room rooms
      → step_for room (deployment cluster room.id) now idle_timeout ≡ some s
      → allowed kind s ≡ true
      → Memᴰ (room, s) (planned rooms cluster now idle_timeout kind)
  unfolding planned
  mem-planned [] room s m e a = elim m [ ]
  mem-planned (first ∷ rooms) room s (Memᴰ.head q) e a =
      subst (λ d. Memᴰ (room, s) (admit kind first d (planned rooms cluster now idle_timeout kind)))
        (sym (subst (λ r. step_for r (deployment cluster r.id) now idle_timeout ≡ some s) q e))
        (rw a (Memᴰ.head (λ i. (q i, s))))
  mem-planned (first ∷ rooms) room s (Memᴰ.tail m) e a =
      passed (step_for first (deployment cluster first.id) now idle_timeout)
        (mem-planned rooms room s m e a)
    where
      passed :
          (d : Option Step)
          → Memᴰ (room, s) (planned rooms cluster now idle_timeout kind)
          → Memᴰ (room, s) (admit kind first d (planned rooms cluster now idle_timeout kind))
      passed none n = n
      passed (some t) n = elim (Bool-cases (allowed kind t)) [
        | inl a ↦ rw a (Memᴰ.tail n)
        | inr a ↦ rw a n
      ]

All-enumerate {ℓ} :
    (P : RoomView × Step → Type ℓ) (i : ℕ) (xs : List (RoomView × Step))
    → All P xs
    → All (λ p. P (p.room, p.step)) (enumerate i xs)
unfolding enumerate
All-enumerate P i [] h = tt
All-enumerate P i ((room, s) ∷ xs) h = (h.0, All-enumerate P (suc i) xs h.1)

All-map {ℓ κ μ} :
    {A : Type ℓ} {B : Type κ} (P : B → Type μ) (f : A → B) (xs : List A)
    → All (λ a. P (f a)) xs
    → All P (map f xs)
All-map P f [] h = tt
All-map P f (x ∷ xs) h = (h.0, All-map P f xs h.1)

-- The same with the filter's own test of the step.
plan-allowed :
    (rooms : List RoomView) (cluster : ClusterSnapshot) (now max_recreates : ℕ) (idle_timeout : ℤ)
    (kind : TickKind) (a : Action)
    → Memᴰ a (plan rooms cluster now max_recreates idle_timeout kind)
    → (room : RoomView) × Memᴰ room rooms
      × (a.room ≡ room.id)
      × (a.lock_key ≡ room.lock_key)
      × (step_for room (deployment cluster room.id) now idle_timeout ≡ some a.step)
      × (allowed kind a.step ≡ true)
unfolding plan
plan-allowed rooms cluster now max_recreates idle_timeout kind a m =
    All-mem Good a (plan rooms cluster now max_recreates idle_timeout kind) m (
      All-map Good to_action (kept max_recreates entries) (
        All-keep _ (λ p. not (contains (deferred max_recreates entries) p.index)) entries
          (All-imply _ _ (λ p h. (p.room, h.0, refl, refl, h.1, h.2)) entries
            (All-enumerate (Decides cluster now idle_timeout kind rooms) 0 _
              (planned-Decides cluster now idle_timeout kind rooms)))))
  where
    entries : List Planned
    entries = enumerate 0 (planned rooms cluster now idle_timeout kind)

    Good : Action → Type 0
    Good b =
        (room : RoomView) × Memᴰ room rooms
        × (b.room ≡ room.id)
        × (b.lock_key ≡ room.lock_key)
        × (step_for room (deployment cluster room.id) now idle_timeout ≡ some b.step)
        × (allowed kind b.step ≡ true)

-- Every action of a pass is addressed to a room of the pass, under that room's lock key, and is the
-- step that the room's view and Deployment call for; a short pass holds no recreation, no reap and
-- no count of a sweep.
pub plan_sound :
    (rooms : List RoomView) (cluster : ClusterSnapshot) (now max_recreates : ℕ) (idle_timeout : ℤ)
    (kind : TickKind) (a : Action)
    → Memᴰ a (plan rooms cluster now max_recreates idle_timeout kind)
    → (room : RoomView) × Memᴰ room rooms
      × (a.room ≡ room.id)
      × (a.lock_key ≡ room.lock_key)
      × (step_for room (deployment cluster room.id) now idle_timeout ≡ some a.step)
      × ((is_short kind && is_recreate a.step) ≡ false)
      × ((is_short kind && is_reap a.step) ≡ false)
      × ((is_short kind && is_not_ready a.step) ≡ false)
plan_sound rooms cluster now max_recreates idle_timeout kind a m =
    let (room, at, id, key, decided, allows) =
      plan-allowed rooms cluster now max_recreates idle_timeout kind a m in
    (room, at, id, key, decided, ground arith, ground arith, ground arith)

mem-enumerate :
    (i : ℕ) (xs : List (RoomView × Step)) (room : RoomView) (s : Step)
    → Memᴰ (room, s) xs
    → (j : ℕ) × Memᴰ (record { index = j; room = room; step = s }) (enumerate i xs)
unfolding enumerate
mem-enumerate i [] room s m = elim m [ ]
mem-enumerate i ((r, t) ∷ xs) room s (Memᴰ.head e) =
    (i, Memᴰ.head (λ k. record { index = i; room = (e k).0; step = (e k).1 }))
mem-enumerate i ((r, t) ∷ xs) room s (Memᴰ.tail m) =
    let (j, n) = mem-enumerate (suc i) xs room s m in (j, Memᴰ.tail n)

abbrev uncapped : Planned → Bool
uncapped p = is_uncapped p.step

-- No entry with an uncapped step is deferred.
uncapped-survives :
    (max_recreates : ℕ) (xs : List Planned)
    → Distinct xs
    → All (λ p. contains (deferred max_recreates xs) p.index ≡ false) (keep uncapped xs)
unfolding deferred by_age by_idle
uncapped-survives max_recreates xs d =
    All-imply _ _ (λ p h. ground (arith, contains-append old late p.index, h.0, h.1))
      (keep uncapped xs)
      (All-and _ _ (keep uncapped xs)
        (All-imply _ _ (λ p h. outside is_recreate age_key max_recreates p h) (keep uncapped xs)
          (keep-Outside-keep uncapped (λ p. is_recreate p.step) (λ p h. ground arith) xs d))
        (All-imply _ _ (λ p h. outside is_reap idle_key 1 p h) (keep uncapped xs)
          (keep-Outside-keep uncapped (λ p. is_reap p.step) (λ p h. ground arith) xs d)))
  where
    old : List ℕ
    old = indices (drop max_recreates (sort_by_key age_key (keep (λ p. is_recreate p.step) xs)))

    late : List ℕ
    late = indices (drop 1 (sort_by_key idle_key (keep (λ p. is_reap p.step) xs)))

    outside :
        (t : Step → Bool) (key : Planned → Option ℕ × ℕ) (n : ℕ) (p : Planned)
        → contains (indices (keep (λ e. t e.step) xs)) p.index ≡ false
        → contains (indices (drop n (sort_by_key key (keep (λ e. t e.step) xs)))) p.index ≡ false
    outside t key n p h =
        contains-drop n p.index (sort_by_key key (keep (λ e. t e.step) xs))
          (contains-sort_by_key key p.index (keep (λ e. t e.step) xs) ∙ h)

-- A decision that no cap applies to is always acted on, save that a short pass does not count a
-- sweep.
pub plan-complete :
    (rooms : List RoomView) (cluster : ClusterSnapshot) (now max_recreates : ℕ) (idle_timeout : ℤ)
    (kind : TickKind) (room : RoomView) (s : Step)
    → Memᴰ room rooms
    → step_for room (deployment cluster room.id) now idle_timeout ≡ some s
    → (is_short kind && is_not_ready s) ≡ false
    → is_uncapped s ≡ true
    → Memᴰ
        (record { room = room.id; lock_key = room.lock_key; step = s })
        (plan rooms cluster now max_recreates idle_timeout kind)
unfolding plan
plan-complete rooms cluster now max_recreates idle_timeout kind room s m e a u =
    let decided = planned rooms cluster now idle_timeout kind in
    let entries = enumerate 0 decided in
    let (j, n) =
      mem-enumerate 0 decided room s
        (mem-planned cluster now idle_timeout kind rooms room s m e (ground arith)) in
    let entry : Planned = record { index = j; room = room; step = s } in
    let stays =
      All-mem _ entry (keep uncapped entries) (mem-keep uncapped entry entries n u)
        (uncapped-survives max_recreates entries (enumerate-Distinct 0 decided)) in
    mem-map to_action entry (kept max_recreates entries) (
      mem-keep (λ p. not (contains (deferred max_recreates entries) p.index)) entry entries n
        (rw stays))

keep-Sublistᴰ {ℓ κ} :
    {A : Type ℓ} {B : Type κ} (f : A → B) (p : A → Bool) (xs : List A)
    → Sublistᴰ (map f (keep p xs)) (map f xs)
keep-Sublistᴰ f p [] = Sublistᴰ.slnil
keep-Sublistᴰ f p (x ∷ xs) = elim (Bool-cases (p x)) [
  | inl e ↦ rw e (Sublistᴰ.cons-cons refl (keep-Sublistᴰ f p xs))
  | inr e ↦ rw e (Sublistᴰ.cons (keep-Sublistᴰ f p xs))
]

admit-Sublistᴰ :
    (kind : TickKind) (room : RoomView) (d : Option Step) (rest : List (RoomView × Step))
    (ids : List ℕ)
    → Sublistᴰ (map (λ e. e.0.id) rest) ids
    → Sublistᴰ (map (λ e. e.0.id) (admit kind room d rest)) (room.id ∷ ids)
admit-Sublistᴰ kind room none rest ids h = Sublistᴰ.cons h
admit-Sublistᴰ kind room (some s) rest ids h = elim (Bool-cases (allowed kind s)) [
  | inl a ↦ rw a (Sublistᴰ.cons-cons refl h)
  | inr a ↦ rw a (Sublistᴰ.cons h)
]

planned-Sublistᴰ :
    (cluster : ClusterSnapshot) (now : ℕ) (idle_timeout : ℤ) (kind : TickKind)
    (rooms : List RoomView)
    → Sublistᴰ
        (map (λ e. e.0.id) (planned rooms cluster now idle_timeout kind))
        (map (λ r. r.id) rooms)
unfolding planned
planned-Sublistᴰ cluster now idle_timeout kind [] = Sublistᴰ.slnil
planned-Sublistᴰ cluster now idle_timeout kind (room ∷ rooms) =
    admit-Sublistᴰ kind room _ _ _ (planned-Sublistᴰ cluster now idle_timeout kind rooms)

map-enumerate :
    (i : ℕ) (xs : List (RoomView × Step))
    → map (λ p. p.room.id) (enumerate i xs) ≡ map (λ e. e.0.id) xs
unfolding enumerate
map-enumerate i [] = refl
map-enumerate i ((room, s) ∷ xs) = ap (◌∷◌ room.id) (map-enumerate (suc i) xs)

map-map {ℓ κ μ} :
    {A : Type ℓ} {B : Type κ} {C : Type μ} (g : B → C) (f : A → B) (xs : List A)
    → map g (map f xs) ≡ map (λ x. g (f x)) xs
map-map g f [] = refl
map-map g f (x ∷ xs) = ap (◌∷◌ (g (f x))) (map-map g f xs)

-- If the rooms of a pass have distinct ids, no room gets two actions.
pub plan-Nodup :
    (rooms : List RoomView) (cluster : ClusterSnapshot) (now max_recreates : ℕ) (idle_timeout : ℤ)
    (kind : TickKind)
    → Nodup (map (λ (r : RoomView). r.id) rooms)
    → Nodup (map (λ (a : Action). a.room) (plan rooms cluster now max_recreates idle_timeout kind))
unfolding plan
plan-Nodup rooms cluster now max_recreates idle_timeout kind h =
    let decided = planned rooms cluster now idle_timeout kind in
    let entries = enumerate 0 decided in
    subst Nodup (sym (map-map (λ (a : Action). a.room) to_action (kept max_recreates entries))) (
      Nodup.sublist
        ∣ keep-Sublistᴰ (λ (p : Planned). p.room.id)
          (λ p. not (contains (deferred max_recreates entries) p.index)) entries ∣₁
        (subst Nodup (sym (map-enumerate 0 decided))
          (Nodup.sublist ∣ planned-Sublistᴰ cluster now idle_timeout kind rooms ∣₁ h)))
