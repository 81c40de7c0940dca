-- ===== src/Contributions/Tests.antt =====
-- Receipts and the ranking at concrete inputs.
use mathlib.Core.List.{Mem, mem-cons_self, mem-cons, not-mem-nil}
use mathlib.Core.List.Perm
use mathlib.Core.Logic.Or
use mathlib.Core.Logic.{◌∨₁◌}
use woolwire.Base.{
  All, Bool, Bytes, List, [], arith, bytes_dec, codes, false, map, ok, pos, refl, subst, sym, true,
  ℕ_discrete, ℤ, ℤ_discrete, ◌*◌, ◌++◌, ◌>>=◌, ◌∷◌, ◌≡◌, ◌≤◌,
}
use woolwire.Base.Maps.{lookup, put}
use woolwire.Identity.{field_bytes, format_int}
use woolwire.Identity.Toy.{toy, authority, private_key, toy-KeyPair}
use woolwire.Contributions.Receipt.{Receipt, payload, sign_host, sign_requester, verify_both}
use woolwire.Contributions.Receipt.Signed.{receipt_payload-injective, verify_both-sign}
use woolwire.Contributions.Leaderboard.{
  empty_board, is_set, pair_day_dec, max_per_pair_day, score_of, counts, credit, count_receipt,
  count_receipts, calculate_leaderboard,
}
use woolwire.Contributions.Leaderboard.Caps.{
  IsFair, ranked-IsFair, entries_where, of_host, score_of-capped,
}
use woolwire.Contributions.Leaderboard.Order.{
  calculate_leaderboard_shown, calculate_leaderboard-perm,
}
use woolwire.Contributions.Leaderboard.Replay.{calculate_leaderboard_replay}

abbrev served : Receipt
served = record {
  request_id = codes "r1";
  room_id = codes "den";
  host_member_id = codes "ann";
  requester_member_id = codes "bob";
  timestamp = pos 5000000;
  completed = true;
  host_signature = [];
  requester_signature = [];
  replicated_status = [];
  sig_version = 1;
}

abbrev own : Receipt
own = record served { request_id = codes "r2"; requester_member_id = codes "ann" }

abbrev now : ℤ
now = pos 5000100

abbrev hidden : List (Bytes × Bool)
hidden = (codes "eve", true) ∷ []

verify_both-sign_run :
    (sign_host toy now served private_key >>= λ s.
    sign_requester toy s private_key >>= λ t. verify_both toy t authority authority)
    ≡ ok tt
verify_both-sign_run =
    verify_both-sign toy private_key authority private_key authority now served toy-KeyPair
      toy-KeyPair refl refl

receipt_payload-injective_run :
    record served { host_signature = 1 ∷ []; requester_signature = []; replicated_status = [] }
    ≡ record served { host_signature = 1 ∷ [] }
unfolding field_bytes format_int payload
receipt_payload-injective_run =
    receipt_payload-injective served (record served { host_signature = 1 ∷ [] }) (omega arith)
      (omega arith) (omega arith) (omega arith) refl

one_point :
    score_of (count_receipts [] hidden now empty_board (served ∷ own ∷ served ∷ [])) (codes "ann")
    ≡ 1
unfolding count_receipts count_receipt counts credit lookup put bytes_dec ℕ_discrete pair_day_dec
    ℤ_discrete
one_point = refl

ranked-IsFair_example : IsFair hidden (count_receipts [] hidden now empty_board (served ∷ own ∷ []))
ranked-IsFair_example = ranked-IsFair hidden [] now (served ∷ own ∷ [])

score_of-capped_run :
    score_of (count_receipts [] hidden now empty_board (served ∷ [])) (codes "ann")
    ≤ max_per_pair_day
      * entries_where pair_day_dec
          (of_host (codes "ann"))
          (count_receipts [] hidden now empty_board (served ∷ [])).pair_day_counts
score_of-capped_run = score_of-capped hidden [] now (served ∷ []) (codes "ann")

calculate_leaderboard_shown_run :
    All
      (λ x. is_set (lookup bytes_dec x.host_member_id hidden) ≡ false)
      (calculate_leaderboard [] hidden now (λ m. m) (served ∷ own ∷ []))
calculate_leaderboard_shown_run =
    calculate_leaderboard_shown [] hidden now (λ m. m) (served ∷ own ∷ []) (λ m. Perm.rfl)

calculate_leaderboard-perm_example :
    calculate_leaderboard [] hidden now (λ m. m) (served ∷ own ∷ [])
    ≡ calculate_leaderboard [] hidden now (λ m. m) (served ∷ own ∷ [])
calculate_leaderboard-perm_example =
    calculate_leaderboard-perm [] hidden now (λ m. m) (λ m. m) (served ∷ own ∷ []) (λ m. Perm.rfl)
      (λ m. Perm.rfl)

calculate_leaderboard_replay_run :
    calculate_leaderboard [] hidden now (λ m. m) ((served ∷ []) ++ (served ∷ []))
    ≡ calculate_leaderboard [] hidden now (λ m. m) (served ∷ [])
calculate_leaderboard_replay_run =
    calculate_leaderboard_replay [] hidden now (λ m. m) (served ∷ []) (served ∷ [])
      (λ s m. known s (mem-cons.0 m))
  where
    known :
        (s : Receipt)
        → (s ≡ served) ∨₁ Mem s []
        → Mem s.request_id (map (λ r. r.request_id) (served ∷ []))
    known s o =
        Or.elim squash₁ o
          (λ e.
            subst (λ r. Mem r.request_id (map (λ r. r.request_id) (served ∷ []))) (sym e)
              mem-cons_self)
          (λ z. absurd (not-mem-nil z))
