-- ===== src/Contributions/Leaderboard/Replay.antt =====
-- receipt.go: a receipt that comes again adds nothing.
use woolwire.Base.{
  All, Bool, Bytes, List, [], arith, bytes_dec, ite, map, refl, true, ℕ, ℤ, ◌++◌, ◌∷◌, ◌≡◌,
}
use woolwire.Base.Maps.{lookup, lookup-put}
use mathlib.Core.List.{Mem}
use woolwire.Base.Perms.{All-intro, All-mem, All-map}
use woolwire.Contributions.Receipt.{Receipt}
use woolwire.Contributions.Leaderboard.{
  Board, empty_board, is_set, credit, count_receipt, count_receipts, calculate_leaderboard,
}

module _ (member_names : List (Bytes × Bytes)) (opt_out : List (Bytes × Bool)) (now : ℤ) where
  abbrev IsSeen : Board → Receipt → Type 0
  IsSeen b r = is_set (lookup bytes_dec r.request_id b.seen_requests) ≡ true

  seen-count_receipt :
      (b : Board) (r : Receipt) (i : Bytes)
      → is_set (lookup bytes_dec i (count_receipt member_names opt_out now b r).seen_requests)
        ≡ ite (bytes_dec r.request_id i) true (is_set (lookup bytes_dec i b.seen_requests))
  unfolding count_receipt credit
  seen-count_receipt b r i =
      ground (arith, lookup-put bytes_dec r.request_id i true b.seen_requests)

  count_receipt_seen :
      (b : Board) (r : Receipt) → IsSeen b r → count_receipt member_names opt_out now b r ≡ b
  unfolding count_receipt
  count_receipt_seen b r s = rw s refl

  count_receipts_seen :
      (rs : List Receipt) (b : Board)
      → All (IsSeen b) rs
      → count_receipts member_names opt_out now b rs ≡ b
  unfolding count_receipts
  count_receipts_seen [] b a = refl
  count_receipts_seen (r ∷ rs) b a = rw (count_receipt_seen b r a.0) (count_receipts_seen rs b a.1)

  IsSeen-count_receipts :
      (rs : List Receipt) (b : Board) (r : Receipt)
      → IsSeen b r
      → IsSeen (count_receipts member_names opt_out now b rs) r
  unfolding count_receipts
  IsSeen-count_receipts [] b r s = s
  IsSeen-count_receipts (q ∷ rs) b r s =
      IsSeen-count_receipts rs (count_receipt member_names opt_out now b q) r
        (ground (arith, seen-count_receipt b q r.request_id))

  count_receipts-IsSeen :
      (rs : List Receipt) (b : Board)
      → All (IsSeen (count_receipts member_names opt_out now b rs)) rs
  unfolding count_receipts
  count_receipts-IsSeen [] b = tt
  count_receipts-IsSeen (r ∷ rs) b = (
    IsSeen-count_receipts rs (count_receipt member_names opt_out now b r) r
        (ground (arith, seen-count_receipt b r r.request_id)),
    count_receipts-IsSeen rs (count_receipt member_names opt_out now b r),
  )

  count_receipts-append :
      (rs ss : List Receipt) (b : Board)
      → count_receipts member_names opt_out now b (rs ++ ss)
        ≡ count_receipts member_names opt_out now (count_receipts member_names opt_out now b rs) ss
  unfolding count_receipts
  count_receipts-append [] ss b = refl
  count_receipts-append (r ∷ rs) ss b =
      count_receipts-append rs ss (count_receipt member_names opt_out now b r)

  -- Further receipts change nothing in the ranking if each of them carries the request id of an
  -- earlier one.
  pub calculate_leaderboard_replay :
      (order : List (Bytes × ℕ) → List (Bytes × ℕ)) (rs ss : List Receipt)
      → ((s : Receipt) → Mem s ss → Mem s.request_id (map (λ r. r.request_id) rs))
      → calculate_leaderboard member_names opt_out now order (rs ++ ss)
        ≡ calculate_leaderboard member_names opt_out now order rs
  unfolding calculate_leaderboard
  calculate_leaderboard_replay order rs ss known =
      let b : Board = count_receipts member_names opt_out now empty_board rs in
      rw
        (
          count_receipts-append rs ss empty_board,
          count_receipts_seen ss b (
              All-intro (IsSeen b) ss (λ s m.
                by_id b s.request_id rs (count_receipts-IsSeen rs empty_board) (known s m))),
        )
        refl
    where
      by_id :
          (b : Board) (i : Bytes) (l : List Receipt)
          → All (IsSeen b) l
          → Mem i (map (λ r. r.request_id) l)
          → is_set (lookup bytes_dec i b.seen_requests) ≡ true
      by_id b i l a m =
          All-mem (λ i. is_set (lookup bytes_dec i b.seen_requests) ≡ true) (λ i. hlevel) i
            (map (λ r. r.request_id) l)
            (All-map (λ i. is_set (lookup bytes_dec i b.seen_requests) ≡ true) (λ r. r.request_id) l
              a)
            m
