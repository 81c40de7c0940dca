-- ===== src/Contributions/Leaderboard/Order.antt =====
-- receipt.go: the ranking's order does not depend on the order of the map that it is read from.
use mathlib.Core.HLevel.{hedberg}
use mathlib.Core.List.{Mem, Perm}
use mathlib.Core.List.Perm
use woolwire.Base.{
  All, Bool, Bytes, List, Option, [], ap, arith, bytes_dec, false, if_cases, leb, lt_bytes_irrefl,
  lt_bytes_total, lt_bytes_trans, map, not, some, suc, sym, true, ℕ, ℕ_discrete, ℤ, ◌∙◌, ◌∷◌, ◌≡◌,
}
use woolwire.Base.Maps.{lookup, put, Distinct, put-Distinct, put-All, lookup-All}
use woolwire.Base.Perms.{All-intro, All-mem, All-map, All-perm, map-perm}
use woolwire.Base.Sort.{sort_from-perm, sort_from_keeps}
use woolwire.Contributions.Receipt.{Receipt}
use woolwire.Contributions.Leaderboard.{
  Board, empty_board, is_set, pair_day, max_per_pair_day, day_count, score_of, count_of, credit,
  counts, count_receipt, count_receipts, LeaderboardEntry, entry_of, entry_less,
  calculate_leaderboard,
}
use woolwire.Contributions.Leaderboard.Caps.{counts-fair}

entries-set : IsSet (List LeaderboardEntry)
entries-set = hedberg (hlevel (ℕ_discrete))

count-set : IsSet (Option ℕ)
count-set = hedberg (hlevel (ℕ_discrete))

entry-set : IsSet LeaderboardEntry
entry-set = hedberg (hlevel (ℕ_discrete))

module _ (member_names : List (Bytes × Bytes)) (opt_out : List (Bytes × Bool)) (now : ℤ) where
  less : LeaderboardEntry → LeaderboardEntry → Bool
  less = entry_less member_names opt_out now

  less_irrefl : (x : LeaderboardEntry) → less x x ≡ false
  unfolding less entry_less
  less_irrefl x = ground (arith, lt_bytes_irrefl x.host_member_id)

  less_trans : (x y z : LeaderboardEntry) → less x y ≡ true → less y z ≡ true → less x z ≡ true
  unfolding less entry_less
  less_trans x y z h k =
      ground (arith, lt_bytes_trans x.host_member_id y.host_member_id z.host_member_id)

  less_total :
      (x y : LeaderboardEntry)
      → less x y ≡ false
      → less y x ≡ false
      → x.host_member_id ≡ y.host_member_id
  unfolding less entry_less
  less_total x y h k = ground (arith, lt_bytes_total x.host_member_id y.host_member_id)

  -- The host of a score is not hidden, and no host has two scores.
  record IsOpen (b : Board) : Type 0 where
    shown : All (λ e. is_set (lookup bytes_dec e.0 opt_out) ≡ false) b.host_scores
    distinct : Distinct bytes_dec b.host_scores

  count_receipt-IsOpen :
      (b : Board) (r : Receipt) → IsOpen b → IsOpen (count_receipt member_names opt_out now b r)
  unfolding count_receipt credit
  count_receipt-IsOpen b r f =
      let seen : Board = record b {
        seen_requests = put bytes_dec r.request_id true b.seen_requests;
      } in
      let f' : IsOpen seen = record { shown = f.shown; distinct = f.distinct } in
      if_cases {A = Board} IsOpen (is_set (lookup bytes_dec r.request_id b.seen_requests)) (λ z. f)
        (λ z.
          if_cases {A = Board} IsOpen (not (counts member_names opt_out now r)) (λ z. f')
            (λ c.
              if_cases {A = Board} IsOpen (leb max_per_pair_day (day_count b (pair_day r)))
                (λ z. f')
                (λ l. record {
                  shown =
                      put-All bytes_dec (λ e. is_set (lookup bytes_dec e.0 opt_out) ≡ false)
                        r.host_member_id (suc (score_of b r.host_member_id)) b.host_scores
                        (counts-fair opt_out member_names now r (ground arith)).1 f.shown;
                  distinct =
                      put-Distinct bytes_dec r.host_member_id (suc (score_of b r.host_member_id))
                        b.host_scores f.distinct;
                })))

  count_receipts-IsOpen :
      (rs : List Receipt) (b : Board)
      → IsOpen b
      → IsOpen (count_receipts member_names opt_out now b rs)
  unfolding count_receipts
  count_receipts-IsOpen [] b f = f
  count_receipts-IsOpen (r ∷ rs) b f =
      count_receipts-IsOpen rs (count_receipt member_names opt_out now b r)
        (count_receipt-IsOpen b r f)

  -- No host that has opted out stands in the ranking, in whatever order the scores are read from
  -- their map.
  pub calculate_leaderboard_shown :
      (order : List (Bytes × ℕ) → List (Bytes × ℕ)) (rs : List Receipt)
      → ((m : List (Bytes × ℕ)) → Perm (order m) m)
      → All
          (λ x. is_set (lookup bytes_dec x.host_member_id opt_out) ≡ false)
          (calculate_leaderboard member_names opt_out now order rs)
  unfolding calculate_leaderboard less
  calculate_leaderboard_shown order rs p =
      let b : Board = count_receipts member_names opt_out now empty_board rs in
      let f : IsOpen b =
        count_receipts-IsOpen rs empty_board (record { shown = tt; distinct = tt }) in
      let Shown : LeaderboardEntry → Type 0 =
        λ x. is_set (lookup bytes_dec x.host_member_id opt_out) ≡ false in
      sort_from_keeps less Shown []
        (map (entry_of member_names opt_out now b) (order b.host_scores)) tt
        (All-map Shown (entry_of member_names opt_out now b) (order b.host_scores) (
          All-perm (λ e. is_set (lookup bytes_dec e.0 opt_out) ≡ false) (λ e. hlevel)
            (Perm.symm (p b.host_scores)) f.shown))

  -- An entry is what its host makes of the board.
  abbrev IsRow : Board → LeaderboardEntry → Type 0
  IsRow b x =
      x ≡ entry_of member_names opt_out now b (x.host_member_id, score_of b x.host_member_id)

  rows :
      (b : Board) (order : List (Bytes × ℕ) → List (Bytes × ℕ))
      → Perm (order b.host_scores) b.host_scores
      → Distinct bytes_dec b.host_scores
      → (x : LeaderboardEntry)
      → Mem x (map (entry_of member_names opt_out now b) (order b.host_scores))
      → IsRow b x
  rows b order p d x m =
      All-mem (IsRow b) (λ x. entry-set _ _) x
        (map (entry_of member_names opt_out now b) (order b.host_scores))
        (All-map (IsRow b) (entry_of member_names opt_out now b) (order b.host_scores) (
          All-intro (λ e. IsRow b (entry_of member_names opt_out now b e)) (order b.host_scores)
            (λ e k.
              ap (λ n. entry_of member_names opt_out now b (e.0, count_of n)) (sym (stored e k)))))
        m
    where
      stored :
          (e : Bytes × ℕ)
          → Mem e (order b.host_scores)
          → lookup bytes_dec e.0 b.host_scores ≡ some e.1
      stored e k =
          All-mem (λ e. lookup bytes_dec e.0 b.host_scores ≡ some e.1) (λ e. count-set _ _) e
            b.host_scores (lookup-All bytes_dec b.host_scores d) ((Perm.mem_iff p).0 k)

  -- The ranking is the same in whatever order the scores are read from their map.
  pub calculate_leaderboard-perm :
      (o p : List (Bytes × ℕ) → List (Bytes × ℕ)) (rs : List Receipt)
      → ((m : List (Bytes × ℕ)) → Perm (o m) m)
      → ((m : List (Bytes × ℕ)) → Perm (p m) m)
      → calculate_leaderboard member_names opt_out now o rs
        ≡ calculate_leaderboard member_names opt_out now p rs
  unfolding calculate_leaderboard less
  calculate_leaderboard-perm o p rs ho hp =
      let b : Board = count_receipts member_names opt_out now empty_board rs in
      let f : IsOpen b =
        count_receipts-IsOpen rs empty_board (record { shown = tt; distinct = tt }) in
      sort_from-perm less less_irrefl less_trans _ _ entries-set
        (λ x y mx my h k.
          same b x y (rows b o (ho b.host_scores) f.distinct x mx)
            (rows b o (ho b.host_scores) f.distinct y my) (less_total x y h k))
        (map-perm (entry_of member_names opt_out now b)
          (Perm.trans (ho b.host_scores) (Perm.symm (hp b.host_scores))))
    where
      same :
          (b : Board) (x y : LeaderboardEntry)
          → IsRow b x
          → IsRow b y
          → x.host_member_id ≡ y.host_member_id
          → x ≡ y
      same b x y p q e =
          p ∙ ap (λ h. entry_of member_names opt_out now b (h, score_of b h)) e ∙ sym q
