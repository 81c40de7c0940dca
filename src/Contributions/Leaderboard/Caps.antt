-- ===== src/Contributions/Leaderboard/Caps.antt =====
-- receipt.go: what a score is made of.
use woolwire.Base.{
  All, Bool, Bytes, List, [], arith, bytes_dec, false, if_cases, if◌then◌else◌, ite, leb, not, refl,
  suc, true, ℕ, ℤ, ◌*◌, ◌+◌, ◌∷◌, ◌≡◌, ◌≢◌, ◌≤◌,
}
use woolwire.Base.Maps.{lookup, put, lookup-put, Distinct, put-Distinct, put-All}
use woolwire.Contributions.Receipt.{Receipt}
use woolwire.Contributions.Leaderboard.{
  PairDay, pair_day, pair_day_dec, Board, empty_board, max_per_pair_day, score_of, day_count,
  count_of, is_set, credit, counts, count_receipt, count_receipts,
}

-- The counts under some of the keys, in all.
module _ {K : Type 0} (dec : Discrete K) (p : K → Bool) where
  abbrev pub total_where : List (K × ℕ) → ℕ
  total_where [] = 0
  total_where ((k, n) ∷ m) = if p k then n + total_where m else total_where m

  abbrev pub entries_where : List (K × ℕ) → ℕ
  entries_where [] = 0
  entries_where ((k, n) ∷ m) = if p k then suc (entries_where m) else entries_where m

  total_where-put :
      (k : K) (w : ℕ) (m : List (K × ℕ))
      → total_where (put dec k w m) + (if p k then count_of (lookup dec k m) else 0)
        ≡ total_where m + (if p k then w else 0)
  unfolding lookup put
  total_where-put k w [] = ground arith
  total_where-put k w ((j, n) ∷ m) = ground (arith, total_where-put k w m)

  total_where-increment :
      (k : K) (m : List (K × ℕ))
      → total_where (put dec k (suc (count_of (lookup dec k m))) m)
        ≡ (if p k then suc (total_where m) else total_where m)
  total_where-increment k m = ground (arith, total_where-put k (suc (count_of (lookup dec k m))) m)

  total_where_le :
      (m : List (K × ℕ))
      → All (λ e. e.1 ≤ max_per_pair_day) m
      → total_where m ≤ max_per_pair_day * entries_where m
  total_where_le [] a = omega arith
  total_where_le ((k, n) ∷ m) a = ground (arith, total_where_le m a.1, a.0)

-- Whether the key is one of the host's.
abbrev pub of_host : Bytes → PairDay → Bool
of_host h k = ite (bytes_dec k.0 h) true false

-- What one entry of the counts stands for: at most 20 requests that the host, who takes part in the
-- ranking, served to another member on one day.
module _ (opt_out : List (Bytes × Bool)) where
  abbrev pub IsEarned : PairDay × ℕ → Type 0
  IsEarned (k, n) =
      (n ≤ max_per_pair_day) × (k.0 ≢ k.1) × (is_set (lookup bytes_dec k.0 opt_out) ≡ false)

  pub record IsFair (b : Board) : Type 0 where
    pub earned : All IsEarned b.pair_day_counts
    pub distinct : Distinct pair_day_dec b.pair_day_counts
    pub sums : (h : Bytes) → score_of b h ≡ total_where pair_day_dec (of_host h) b.pair_day_counts

  module _ (member_names : List (Bytes × Bytes)) (now : ℤ) where
    pub counts-fair :
        (r : Receipt)
        → counts member_names opt_out now r ≡ true
        → (r.host_member_id ≢ r.requester_member_id)
          × (is_set (lookup bytes_dec r.host_member_id opt_out) ≡ false)
    unfolding counts
    counts-fair r h = (λ e. ground arith, ground arith)

    credit-IsFair :
        (b : Board) (r : Receipt)
        → IsFair b
        → counts member_names opt_out now r ≡ true
        → leb max_per_pair_day (day_count b (pair_day r)) ≡ false
        → IsFair (credit r b)
    unfolding credit
    credit-IsFair b r f c l = record {
      earned =
          put-All pair_day_dec IsEarned (pair_day r) (suc (day_count b (pair_day r)))
            b.pair_day_counts (ground arith, (counts-fair r c).0, (counts-fair r c).1) f.earned;
      distinct =
          put-Distinct pair_day_dec (pair_day r) (suc (day_count b (pair_day r))) b.pair_day_counts
            f.distinct;
      sums = λ h. ground (
        arith,
        f.sums h,
        lookup-put bytes_dec r.host_member_id h (suc (score_of b r.host_member_id)) b.host_scores,
        total_where-increment pair_day_dec (of_host h) (pair_day r) b.pair_day_counts,
      );
    }

    count_receipt-IsFair :
        (b : Board) (r : Receipt) → IsFair b → IsFair (count_receipt member_names opt_out now b r)
    unfolding count_receipt
    count_receipt-IsFair b r f =
        let seen : IsFair
            (record b { seen_requests = put bytes_dec r.request_id true b.seen_requests }) =
          record { earned = f.earned; distinct = f.distinct; sums = f.sums } in
        if_cases {A = Board} IsFair (is_set (lookup bytes_dec r.request_id b.seen_requests))
          (λ z. f)
          (λ z.
            if_cases {A = Board} IsFair (not (counts member_names opt_out now r)) (λ z. seen)
              (λ c.
                if_cases {A = Board} IsFair (leb max_per_pair_day (day_count b (pair_day r)))
                  (λ z. seen)
                  (λ l.
                    credit-IsFair
                      (record b { seen_requests = put bytes_dec r.request_id true b.seen_requests })
                      r seen (ground arith) l)))

    count_receipts-IsFair :
        (rs : List Receipt) (b : Board)
        → IsFair b
        → IsFair (count_receipts member_names opt_out now b rs)
    unfolding count_receipts
    count_receipts-IsFair [] b f = f
    count_receipts-IsFair (r ∷ rs) b f =
        count_receipts-IsFair rs (count_receipt member_names opt_out now b r)
          (count_receipt-IsFair b r f)

    -- After any sequence of receipts, a host's score is the sum of its counts over requesters and
    -- days, each of these counts is at most 20, stands for a requester other than the host, and
    -- belongs to a host that has not opted out, and no requester and day is counted twice for a
    -- host.
    pub ranked-IsFair :
        (rs : List Receipt) → IsFair (count_receipts member_names opt_out now empty_board rs)
    unfolding lookup
    ranked-IsFair rs =
        count_receipts-IsFair rs empty_board
          (record { earned = tt; distinct = tt; sums = λ h. refl })

    earned-capped : (m : List (PairDay × ℕ)) → All IsEarned m → All (λ e. e.1 ≤ max_per_pair_day) m
    earned-capped [] a = tt
    earned-capped (e ∷ m) a = (a.0.0, earned-capped m a.1)

    -- After any sequence of receipts, a host's score is at most 20 times the number of pairs of a
    -- requester and a day on which the host was credited for it.
    pub score_of-capped :
        (rs : List Receipt) (h : Bytes)
        → score_of (count_receipts member_names opt_out now empty_board rs) h
          ≤ max_per_pair_day
            * entries_where pair_day_dec
                (of_host h)
                (count_receipts member_names opt_out now empty_board rs).pair_day_counts
    score_of-capped rs h =
        let b : Board = count_receipts member_names opt_out now empty_board rs in
        let f : IsFair b = ranked-IsFair rs in
        rw (f.sums h) (
          total_where_le pair_day_dec (of_host h) b.pair_day_counts
            (earned-capped b.pair_day_counts f.earned))
