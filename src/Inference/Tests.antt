-- ===== src/Inference/Tests.antt =====
-- Runs of the queue, and its theorems at concrete histories.
use woolwire.Base.{Bytes, [], arith, bytes_dec, codes, count, refl, true, ℕ_discrete, ◌∷◌, ◌≡◌, ◌≢◌}
use woolwire.Base.Maps.{lookup, put, delete}
use woolwire.Inference.Limits.{default_limits, normalize_limits}
use woolwire.Inference.Queue.{
  FairQueue, new_fair_queue, submit, started, refused, member_queue_full, duplicate_request,
  claim_abort, finish, cancel, cancel_member, key_dec, queue_of, stats,
}
use woolwire.Inference.Queue.Invariant.{Inv}
use woolwire.Inference.Queue.Loop.{IsSaturated}
use woolwire.Inference.Queue.Bounds.{IsBounded}
use woolwire.Inference.Queue.History.{
  Reach, start, serves, submits, finishes, cancels, fresh, then_serves, Reach-Inv,
  Reach-IsSaturated,
}
use woolwire.Inference.Queue.Capacity.{Run-IsBounded}
use woolwire.Inference.Queue.Turns.{rounds, rounds-serves}
use woolwire.Inference.Queue.Members.{Stopped, cancel_scoped, cancel_member-Stopped}

abbrev ann : Bytes
ann = codes "ann"

abbrev bob : Bytes
bob = codes "bob"

abbrev cid : Bytes
cid = codes "cid"

-- One slot: the first request runs, the next two wait.
abbrev busy : FairQueue
busy =
    (submit (submit (submit (new_fair_queue default_limits) ann (codes "r1")).0 bob (codes "r2")).0
      cid (codes "r3")).0

program : Unit {0}
unfolding default_limits normalize_limits new_fair_queue submit lookup put delete bytes_dec key_dec
    claim_abort finish cancel cancel_member count rounds stats ℕ_discrete
program = tt

busy-Reach : Reach default_limits busy
busy-Reach =
    serves (serves (serves start (submits _ ann (codes "r1"))) (submits _ bob (codes "r2")))
      (submits _ cid (codes "r3"))

busy-stats : stats busy ≡ (1, 2)
unfolding program
busy-stats = refl

busy_admissions :
    ((submit busy bob (codes "r4")).1 ≡ refused member_queue_full)
    × ((submit busy bob (codes "r2")).1 ≡ refused duplicate_request)
    × ((submit (new_fair_queue default_limits) ann (codes "r1")).1 ≡ started 0)
unfolding program
busy_admissions = (refl, refl, refl)

-- The end of the first run hands the slot to the second request.
busy-finish : (((finish busy 0).items 1).dispatched ≡ true) × (stats (finish busy 0) ≡ (1, 1))
unfolding program
busy-finish = (refl, refl)

Reach-Inv_example : Inv (finish busy 0)
Reach-Inv_example = Reach-Inv default_limits (finish busy 0) (serves busy-Reach (finishes busy 0))

Reach-IsSaturated_example : IsSaturated (cancel busy (codes "r2") bob).0
Reach-IsSaturated_example =
    Reach-IsSaturated default_limits (cancel busy (codes "r2") bob).0
      (serves busy-Reach (cancels busy (codes "r2") bob))

Run-IsBounded_example : IsBounded busy
Run-IsBounded_example = Run-IsBounded default_limits busy (
    then_serves
      (then_serves (then_serves fresh (submits _ ann (codes "r1"))) (submits _ bob (codes "r2")))
      (submits _ cid (codes "r3")))

rounds-serves_example :
    (((rounds 2 busy).items 2).dispatched ≡ true) × (queue_of (rounds 2 busy) cid ≡ [])
unfolding program
rounds-serves_example =
    rounds-serves (bob ∷ []) cid [] busy 2 [] (Reach-Inv default_limits busy busy-Reach) refl refl

ann-ne-bob : ann ≢ bob
ann-ne-bob e = ground arith

cancel_scoped_example :
    ((cancel busy (codes "r1") bob).0.items 0).cancelled ≡ (busy.items 0).cancelled
unfolding program
cancel_scoped_example =
    cancel_scoped busy (codes "r1") bob 0 (Reach-Inv default_limits busy busy-Reach) ann-ne-bob

cancel_member-Stopped_example : Stopped bob (cancel_member busy bob).0
cancel_member-Stopped_example =
    cancel_member-Stopped busy bob (Reach-Inv default_limits busy busy-Reach)
