-- ===== src/Localapi/ChatBranch/Termination.antt =====
-- chatbranch.go: the walk to the root ends, whatever the parents are, and follows the parents.
use woolwire.Base.{
  Bool, Bytes, List, Option, Option-cases, [], arith, bytes_dec, false, if_cases, if◌then◌else◌,
  inl, inr, length, none, refl, some, suc, true, zero, ℕ, ◌+◌, ◌<◌, ◌==◌, ◌∷◌, ◌≡◌, ◌≤◌,
}
use woolwire.Base.Maps.{lookup, put, lookup-put}
use woolwire.Localapi.ChatBranch.{MessageRecord, find_message, ancestors}

abbrev unseen : List (Bytes × Bool) → MessageRecord → Bool
unseen seen m = elim (lookup bytes_dec m.id seen) [ none ↦ true | some _ ↦ false ]

abbrev left : List (Bytes × Bool) → List MessageRecord → ℕ
left seen [] = 0
left seen (m ∷ ms) = if unseen seen m then suc (left seen ms) else left seen ms

left_le :
    (id : Bytes) (seen : List (Bytes × Bool)) (msgs : List MessageRecord)
    → left (put bytes_dec id true seen) msgs ≤ left seen msgs
left_le id seen [] = omega arith
left_le id seen (m ∷ ms) =
    ground (arith, left_le id seen ms, lookup-put bytes_dec id m.id true seen)

find_message-id :
    (id : Bytes) (msgs : List MessageRecord) (m : MessageRecord)
    → find_message id msgs ≡ some m
    → m.id ≡ id
find_message-id id [] m e = cc
find_message-id id (x ∷ ms) m e = elim (Option-cases (find_message id ms)) [
  | inl z ↦ ground arith
  | inr (l, z) ↦ ground (arith, find_message-id id ms m)
]

-- To see a message that was not seen leaves fewer.
left_lt :
    (id : Bytes) (seen : List (Bytes × Bool)) (msgs : List MessageRecord) (m : MessageRecord)
    → find_message id msgs ≡ some m
    → lookup bytes_dec id seen ≡ none
    → left (put bytes_dec id true seen) msgs < left seen msgs
left_lt id seen [] m e n = cc
left_lt id seen (x ∷ ms) m e n = elim (Option-cases (find_message id ms)) [
  | inl z ↦ ground (arith, left_le id seen ms, lookup-put bytes_dec id x.id true seen)
  | inr (l, z) ↦ ground (arith, left_lt id seen ms l z n, lookup-put bytes_dec id x.id true seen)
]

ancestors_enough :
    (f g : ℕ) (msgs : List MessageRecord) (seen : List (Bytes × Bool)) (id : Bytes)
    → left seen msgs < f
    → left seen msgs < g
    → ancestors f msgs seen id ≡ ancestors g msgs seen id
unfolding ancestors
ancestors_enough zero g msgs seen id h k = absurd (omega arith)
ancestors_enough (suc f) zero msgs seen id h k = absurd (omega arith)
ancestors_enough (suc f) (suc g) msgs seen id h k = elim (Option-cases (find_message id msgs)) [
  | inl z ↦ ground arith
  | inr (m, z) ↦ elim (Option-cases (lookup bytes_dec id seen)) [
    | inl n ↦
        let fewer = left_lt id seen msgs m z n in
        ground (
          arith,
          ancestors_enough f g msgs (put bytes_dec id true seen) m.parent_id (omega arith)
              (omega arith),
        )
    | inr (b, n) ↦ ground arith
  ]
]

left_le-length :
    (seen : List (Bytes × Bool)) (msgs : List MessageRecord) → left seen msgs ≤ length msgs
left_le-length seen [] = omega arith
left_le-length seen (m ∷ ms) = ground (arith, left_le-length seen ms)

-- The walk from a message to the root ends by itself within one round for each message and one
-- more, whatever the parents are, a cycle included: more rounds change nothing.
pub ancestors_total :
    (k : ℕ) (msgs : List MessageRecord) (id : Bytes)
    → ancestors (suc (length msgs) + k) msgs [] id ≡ ancestors (suc (length msgs)) msgs [] id
ancestors_total k msgs id =
    let bound = left_le-length [] msgs in
    ancestors_enough (suc (length msgs) + k) (suc (length msgs)) msgs [] id (omega arith)
      (omega arith)

-- Each message is the parent of the one before it.
abbrev pub IsAncestry : Bytes → List MessageRecord → Type 0
IsAncestry id [] = Unit {0}
IsAncestry id (m ∷ ms) = (m.id ≡ id) × IsAncestry m.parent_id ms

pub ancestors-IsAncestry :
    (f : ℕ) (msgs : List MessageRecord) (seen : List (Bytes × Bool)) (id : Bytes)
    → IsAncestry id (ancestors f msgs seen id)
unfolding ancestors
ancestors-IsAncestry zero msgs seen id = tt
ancestors-IsAncestry (suc f) msgs seen id =
    let rest =
      λ (m : MessageRecord). ancestors-IsAncestry f msgs (put bytes_dec id true seen) m.parent_id in
    if_cases {A = List MessageRecord} (IsAncestry id) (length id == 0) (λ z. tt)
      (λ z. found (find_message id msgs) refl (lookup bytes_dec id seen) rest)
  where
    step : Option Bool → MessageRecord → List MessageRecord
    step o m = elim o [
      | some _ ↦ []
      | none ↦ m ∷ ancestors f msgs (put bytes_dec id true seen) m.parent_id
    ]

    found :
        (o : Option MessageRecord)
        → find_message id msgs ≡ o
        → (s : Option Bool)
        → ((m : MessageRecord)
            → IsAncestry m.parent_id (ancestors f msgs (put bytes_dec id true seen) m.parent_id))
        → IsAncestry id (elim o [ none ↦ [] | some m ↦ step s m ])
    found none e s rest = tt
    found (some m) e (some b) rest = tt
    found (some m) e none rest = (find_message-id id msgs m e, rest m)
