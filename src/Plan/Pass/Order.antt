-- ===== src/Plan/Pass/Order.antt =====
-- In which order the capped steps of puna-orchestrator/src/plan.rs are taken.
use puna.Common.{
  ℕ, ◌≡◌, true, List, arith, Memᴰ, mem-keep, keep-mem, drop, contains, contains-append, ℤ, key_le,
}
use puna.Plan.View.{RoomView, ClusterSnapshot}
use puna.Plan.Pass.Places.{enumerate-Distinct}
use puna.Plan.Pass.Budget.{oldest_first}
use puna.Plan.Pass.Caps.{recreates, reaps, recreates-reaps, reaps-recreates}
use puna.Plan.Pass.{
  Planned, TickKind, indices, enumerate, planned, by_age, by_idle, deferred, kept, is_recreate,
  is_reap, age_key, idle_key,
}

module _ (rooms : List RoomView) (cluster : ClusterSnapshot) (now max_recreates : ℕ)
    (idle_timeout : ℤ) (kind : TickKind) (p q : Planned) where
  -- Where a recreation is put off, each one that the pass takes belongs to a room whose redeploy was
  -- asked for earlier, or at the same time with a smaller id; a room that drifted with no request
  -- comes before every request.
  pub plan-oldest_request :
      Memᴰ p (kept max_recreates (enumerate 0 (planned rooms cluster now idle_timeout kind)))
      → Memᴰ q (enumerate 0 (planned rooms cluster now idle_timeout kind))
      → is_recreate p.step ≡ true
      → is_recreate q.step ≡ true
      → contains
          (deferred max_recreates (enumerate 0 (planned rooms cluster now idle_timeout kind)))
          q.index
        ≡ true
      → key_le (p.room.redeploy_requested_at, p.room.id) (q.room.redeploy_requested_at, q.room.id)
        ≡ true
  unfolding kept by_age by_idle
  plan-oldest_request mp mq rp rq dq =
      let decided = planned rooms cluster now idle_timeout kind in
      let entries = enumerate 0 decided in
      let (np, sp) = keep-mem _ p entries mp in
      oldest_first recreates reaps recreates-reaps age_key idle_key max_recreates 1
        (deferred max_recreates entries) entries (enumerate-Distinct 0 decided)
        (λ i. contains-append _ _ i) p q (mem-keep recreates p entries np rp)
        (mem-keep recreates q entries mq rq) (ground (arith, sp)) dq

  -- Where a reap is put off, the one that the pass takes belongs to a room that has been quiet for
  -- longer, or equally long with a smaller id.
  pub plan-longest_idle :
      Memᴰ p (kept max_recreates (enumerate 0 (planned rooms cluster now idle_timeout kind)))
      → Memᴰ q (enumerate 0 (planned rooms cluster now idle_timeout kind))
      → is_reap p.step ≡ true
      → is_reap q.step ≡ true
      → contains
          (deferred max_recreates (enumerate 0 (planned rooms cluster now idle_timeout kind)))
          q.index
        ≡ true
      → key_le (p.room.idle_since, p.room.id) (q.room.idle_since, q.room.id) ≡ true
  unfolding kept by_age by_idle
  plan-longest_idle mp mq rp rq dq =
      let decided = planned rooms cluster now idle_timeout kind in
      let entries = enumerate 0 decided in
      let (np, sp) = keep-mem _ p entries mp in
      oldest_first reaps recreates reaps-recreates idle_key age_key 1 max_recreates
        (deferred max_recreates entries) entries (enumerate-Distinct 0 decided)
        (λ i. ground (arith, contains-append (old entries) (late entries) i)) p q
        (mem-keep reaps p entries np rp) (mem-keep reaps q entries mq rq) (ground (arith, sp)) dq
    where
      old : List Planned → List ℕ
      old entries = indices (drop max_recreates (by_age entries))

      late : List Planned → List ℕ
      late entries = indices (drop 1 (by_idle entries))
