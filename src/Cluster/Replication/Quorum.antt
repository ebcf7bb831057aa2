-- ===== src/Cluster/Replication/Quorum.antt =====
-- When the wait for a quorum ends, and what it then promises.
use flamedb.Base.{
  ℕ, zero, suc, ◌+◌, ◌*◌, ◌/◌, ◌≤◌, ◌<◌, ◌≡◌, refl, arith, some, List, [], ◌∷◌, some_inj, ◌↔◌,
}
use flamedb.Cluster.Replication.{Signal, ack, timer, done, await_quorum, replicate_quorum}
use flamedb.Query.Types.{Result, ok, err}

-- The acknowledgements before the first signal of another kind.
abbrev pub acks : List Signal → ℕ
acks [] = 0
acks (ack ∷ signals) = suc (acks signals)
acks (timer ∷ signals) = 0
acks (done ∷ signals) = 0

await_quorum-acks :
    (needed : ℕ) (signals : List Signal)
    → (await_quorum needed signals ≡ some (ok tt)) ↔ (needed ≤ acks signals)
unfolding await_quorum
await_quorum-acks zero signals = (λ h. omega arith, λ h. refl)
await_quorum-acks (suc needed) [] = (λ h. absurd (cc), λ h. absurd (omega arith))
await_quorum-acks (suc needed) (ack ∷ signals) =
    let (to, from) = await_quorum-acks needed signals in
    (λ h. omega (arith, to h), λ h. from (omega (arith, h)))
await_quorum-acks (suc needed) (timer ∷ signals) =
    (λ h. absurd (cc (some_inj h)), λ h. absurd (omega arith))
await_quorum-acks (suc needed) (done ∷ signals) =
    (λ h. absurd (cc (some_inj h)), λ h. absurd (omega arith))

-- With a replication factor above one, a quorum write succeeds exactly where half the factor's
-- replicas exist, the write was queued and as many acknowledge it before the timeout and the end of
-- the cluster; these and the node itself are a majority of the factor.
pub replicate_quorum_lem :
    (replicas factor : ℕ) (async enqueue : Result (Unit {0})) (signals : List Signal)
    → 1 < factor
    → ((replicate_quorum replicas factor async enqueue signals ≡ some (ok tt))
        ↔ ((factor / 2 ≤ replicas) × (enqueue ≡ ok tt) × (factor / 2 ≤ acks signals)))
      × (factor < 2 * (factor / 2 + 1))
unfolding replicate_quorum
replicate_quorum_lem replicas factor async (ok tt) signals h =
    (ground (arith, await_quorum-acks (factor / 2) signals), omega arith)
replicate_quorum_lem replicas factor async (err e) signals h = (ground arith, omega arith)
