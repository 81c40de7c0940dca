-- ===== src/Contributions/Leaderboard.antt =====
-- receipt.go, `CalculateLeaderboard`: the ranking of one pass over the receipts. Days are counted
-- from 1970, one number for each date that the source formats. The order in which the scores are
-- read from their map is an argument.
pub mod Caps
pub mod Order
pub mod Replay
use mathlib.Core.List.{Perm}
use woolwire.Base.{
  Bool, Bytes, List, Option, [], add_ℤ, ap, bytes_dec, codes, false, if◌then◌else◌, ite, leb,
  length, lt_bytes, ltb, ltb_ℤ, map, negsuc, none, not, pos, some, sub_ℤ, suc, true, ℕ, ℤ,
  ℤ_discrete, ◌*◌, ◌++◌, ◌/◌, ◌==◌, ◌||◌, ◌∷◌, ◌≡◌,
}
use woolwire.Base.Maps.{lookup, put}
use woolwire.Contributions.Receipt.{Receipt}
use woolwire.Base.Sort.{sort_from}

pub record LeaderboardEntry : Type 0 where
  pub host_member_id : Bytes
  pub display_name : Bytes
  pub score : ℕ
  pub distinct_members_helped : ℕ

abbrev pub window_seconds : ℕ
window_seconds = 30 * 24 * 3600

abbrev pub max_per_pair_day : ℕ
max_per_pair_day = 20

-- The date of a time, as the number of its day.
abbrev pub utc_day : ℤ → ℤ
utc_day (pos s) = pos (s / 86400)
utc_day (negsuc s) = negsuc (s / 86400)

-- a `pairDayKey`: the host, the requester and the day
abbrev pub PairDay : Type 0
PairDay = Bytes × Bytes × ℤ

pair_day_dec' :
    {a b c d : Bytes} {i j : ℤ}
    → Dec (a ≡ c)
    → Dec (b ≡ d)
    → Dec (i ≡ j)
    → Dec (◌≡◌ {A = PairDay} (a, b, i) (c, d, j))
pair_day_dec' (yes p) (yes q) (yes r) = yes (λ k. (p k, q k, r k))
pair_day_dec' (yes p) (yes q) (no r) = no (λ e. r (ap (λ k. k.2) e))
pair_day_dec' (yes p) (no q) r = no (λ e. q (ap (λ k. k.1) e))
pair_day_dec' (no p) q r = no (λ e. p (ap (λ k. k.0) e))

unfoldable pub pair_day_dec : Discrete PairDay
unfolding pair_day_dec'
pair_day_dec (a, b, i) (c, d, j) = pair_day_dec' (bytes_dec a c) (bytes_dec b d) (ℤ_discrete i j)

-- A read of a `map[…]int`.
abbrev pub count_of : Option ℕ → ℕ
count_of none = 0
count_of (some n) = n

-- A read of a `map[string]bool`.
abbrev pub is_set : Option Bool → Bool
is_set none = false
is_set (some b) = b

abbrev pub set_of : Option (List (Bytes × Bool)) → List (Bytes × Bool)
set_of none = []
set_of (some m) = m

-- The maps of the pass.
pub record Board : Type 0 where
  pub seen_requests : List (Bytes × Bool)
  pub pair_day_counts : List (PairDay × ℕ)
  pub host_scores : List (Bytes × ℕ)
  pub host_helped_requesters : List (Bytes × List (Bytes × Bool))

abbrev pub empty_board : Board
empty_board = record {
  seen_requests = [];
  pair_day_counts = [];
  host_scores = [];
  host_helped_requesters = [];
}

abbrev pub pair_day : Receipt → PairDay
pair_day r = (r.host_member_id, r.requester_member_id, utc_day r.timestamp)

abbrev pub score_of : Board → Bytes → ℕ
score_of b h = count_of (lookup bytes_dec h b.host_scores)

abbrev pub day_count : Board → PairDay → ℕ
day_count b k = count_of (lookup pair_day_dec k b.pair_day_counts)

abbrev pub helped_by : Board → Bytes → List (Bytes × Bool)
helped_by b h = set_of (lookup bytes_dec h b.host_helped_requesters)

-- The point for one receipt.
unfoldable pub credit : Receipt → Board → Board
credit r b = record b {
  pair_day_counts =
      put pair_day_dec (pair_day r) (suc (day_count b (pair_day r))) b.pair_day_counts;
  host_scores = put bytes_dec r.host_member_id (suc (score_of b r.host_member_id)) b.host_scores;
  host_helped_requesters =
      put bytes_dec r.host_member_id
        (put bytes_dec r.requester_member_id true (helped_by b r.host_member_id))
        b.host_helped_requesters;
}

module _ (member_names : List (Bytes × Bytes)) (opt_out : List (Bytes × Bool)) (now : ℤ) where
  -- The filters on a receipt that was not seen before, in their order.
  unfoldable pub counts : Receipt → Bool
  counts r =
      if not r.completed
      then false
      else ite (bytes_dec r.host_member_id r.requester_member_id) false (
          if ltb_ℤ r.timestamp (sub_ℤ now window_seconds) || ltb_ℤ (add_ℤ now 300) r.timestamp
          then false
          else not (is_set (lookup bytes_dec r.host_member_id opt_out)))

  unfoldable pub count_receipt : Board → Receipt → Board
  unfolding counts credit
  count_receipt b r =
      if is_set (lookup bytes_dec r.request_id b.seen_requests)
      then b
      else (let seen = record b {
        seen_requests = put bytes_dec r.request_id true b.seen_requests;
      } in
          if not (counts r)
          then seen
          else if leb max_per_pair_day (day_count b (pair_day r))
          then seen
          else credit r seen)

  unfoldable pub count_receipts : Board → List Receipt → Board
  unfolding count_receipt
  count_receipts b [] = b
  count_receipts b (r ∷ rs) = count_receipts (count_receipt b r) rs

  abbrev pub display_name_of : Bytes → Option Bytes → Bytes
  display_name_of h none = codes "Member " ++ h
  display_name_of h (some name) = if length name == 0 then codes "Member " ++ h else name

  abbrev pub entry_of : Board → Bytes × ℕ → LeaderboardEntry
  entry_of b (h, score) = record {
    host_member_id = h;
    display_name = display_name_of h (lookup bytes_dec h member_names);
    score = score;
    distinct_members_helped = length (helped_by b h);
  }

  -- More points first, then more members helped, then the smaller identifier.
  unfoldable pub entry_less : LeaderboardEntry → LeaderboardEntry → Bool
  entry_less x y =
      if not (x.score == y.score)
      then ltb y.score x.score
      else if not (x.distinct_members_helped == y.distinct_members_helped)
      then ltb y.distinct_members_helped x.distinct_members_helped
      else lt_bytes x.host_member_id y.host_member_id

  unfoldable pub calculate_leaderboard :
      (List (Bytes × ℕ) → List (Bytes × ℕ)) → List Receipt → List LeaderboardEntry
  unfolding count_receipts entry_less
  calculate_leaderboard order rs =
      let b = count_receipts empty_board rs in
      sort_from entry_less [] (map (entry_of b) (order b.host_scores))
