-- ===== src/Localapi/ChatBranch.antt =====
-- chatbranch.go: a conversation is a tree of messages, and one path through it is shown. The order
-- in which the map of the children is iterated is an argument.
pub mod Termination
pub mod Ancestry
mod Tests
use mathlib.Core.List.{reverse}
use woolwire.Base.{
  Bool, Bytes, List, Option, [], any, bytes_dec, false, if◌then◌else◌, ite, length, ltb, ltb_ℤ, map,
  none, not, some, suc, true, zero, ℕ, ℤ, ◌&&◌, ◌++◌, ◌==◌, ◌∷◌,
}
use woolwire.Base.Maps.{lookup, put, delete}
use woolwire.Base.Sort.{sort_from}

-- A stored message (internal/store/store.go).
pub record MessageRecord : Type 0 where
  pub id : Bytes
  pub conversation_id : Bytes
  pub role : Bytes
  pub content : Bytes
  pub host_member_id : Bytes
  pub model_id : Bytes
  pub created_at : ℤ
  pub parent_id : Bytes
  pub active : Bool

pub record BranchView : Type 0 where
  pub message : MessageRecord
  pub variant_index : ℕ
  pub variant_count : ℕ
  pub sibling_ids : List Bytes

abbrev pub Children : Type 0
Children = List (Bytes × List MessageRecord)

abbrev pub group_of : Option (List MessageRecord) → List MessageRecord
group_of none = []
group_of (some group) = group

abbrev pub children_of : Children → Bytes → List MessageRecord
children_of by_parent id = group_of (lookup bytes_dec id by_parent)

unfoldable pub group_messages : Children → List MessageRecord → Children
group_messages by_parent [] = by_parent
group_messages by_parent (m ∷ ms) =
    group_messages
      (put bytes_dec m.parent_id (children_of by_parent m.parent_id ++ m ∷ []) by_parent) ms

abbrev pub older : MessageRecord → MessageRecord → Bool
older a b = ltb_ℤ a.created_at b.created_at

abbrev pub sort_group : Bytes × List MessageRecord → Bytes × List MessageRecord
sort_group (parent, group) = (parent, sort_from older [] group)

unfoldable pub children_by_parent : List MessageRecord → Children
unfolding group_messages sort_from
children_by_parent msgs = map sort_group (group_messages [] msgs)

abbrev pub find_active : List MessageRecord → Option MessageRecord
find_active [] = none
find_active (m ∷ ms) = if m.active then some m else find_active ms

abbrev pub last_of : List MessageRecord → Option MessageRecord
last_of [] = none
last_of (m ∷ []) = some m
last_of (m ∷ n ∷ ms) = last_of (n ∷ ms)

-- The active message of a group, or the newest if none is.
unfoldable pub pick_active : List MessageRecord → Option MessageRecord
pick_active group = elim (find_active group) [ some m ↦ some m | none ↦ last_of group ]

abbrev pub is_known : List MessageRecord → Bytes → Bool
is_known msgs id = any (λ m. ite (bytes_dec m.id id) true false) msgs

-- A group whose parent is missing moves to the roots.
unfoldable pub adopt : List MessageRecord → List (Bytes × List MessageRecord) → Children → Children
adopt msgs [] by_parent = by_parent
adopt msgs ((parent, group) ∷ rest) by_parent = adopt msgs rest (
    if not (length parent == 0) && not (is_known msgs parent)
    then delete bytes_dec parent (put bytes_dec [] (children_of by_parent [] ++ group) by_parent)
    else by_parent)

abbrev pub sort_roots : Children → Children
sort_roots by_parent =
    if ltb 1 (length (children_of by_parent []))
    then put bytes_dec [] (sort_from older [] (children_of by_parent [])) by_parent
    else by_parent

-- The place of the last sibling with the identifier, from 1.
unfoldable pub index_of : Bytes → ℕ → ℕ → List MessageRecord → ℕ
index_of id i index [] = index
index_of id i index (sib ∷ sibs) =
    index_of id (suc i) (ite (bytes_dec sib.id id) (suc i) index) sibs

abbrev pub view_of : List MessageRecord → MessageRecord → BranchView
view_of group m = record {
  message = m;
  variant_index = index_of m.id 0 0 group;
  variant_count = length group;
  sibling_ids = map (λ sib. sib.id) group;
}

-- The loop from the root. `visited` guards against a cycle of parents; each round visits a message
-- that was not visited, so the number of the messages is enough fuel.
unfoldable pub walk : ℕ → Children → List (Bytes × Bool) → Bytes → List BranchView
unfolding pick_active index_of
walk zero by_parent visited parent = []
walk (suc f) by_parent visited parent = elim (pick_active (children_of by_parent parent)) [
  | none ↦ []
  | some current ↦ elim (lookup bytes_dec current.id visited) [
    | some _ ↦ []
    | none ↦
        view_of (children_of by_parent parent) current
        ∷ walk f by_parent (put bytes_dec current.id true visited) current.id
  ]
]

unfoldable pub active_branch : (Children → Children) → List MessageRecord → List BranchView
unfolding children_by_parent adopt sort_from walk
active_branch order msgs =
    let by_parent = children_by_parent msgs in
    walk (suc (length msgs)) (sort_roots (adopt msgs (order by_parent) by_parent)) [] []

-- `byID[id]`: the last message that was stored under the identifier.
abbrev pub find_message : Bytes → List MessageRecord → Option MessageRecord
find_message id [] = none
find_message id (m ∷ ms) = elim (find_message id ms) [
  | some later ↦ some later
  | none ↦ ite (bytes_dec m.id id) (some m) none
]

-- The loop from a message to the root, nearest first. `seen` guards against a cycle of parents.
unfoldable pub ancestors : ℕ → List MessageRecord → List (Bytes × Bool) → Bytes → List MessageRecord
ancestors zero msgs seen id = []
ancestors (suc f) msgs seen id = if length id == 0 then [] else elim (find_message id msgs) [
  | none ↦ []
  | some m ↦ elim (lookup bytes_dec id seen) [
    | some _ ↦ []
    | none ↦ m ∷ ancestors f msgs (put bytes_dec id true seen) m.parent_id
  ]
]

unfoldable pub branch_through : List MessageRecord → Bytes → List BranchView
unfolding children_by_parent ancestors index_of
branch_through msgs message_id =
    map (λ m. view_of (children_of (children_by_parent msgs) m.parent_id) m)
      (reverse (ancestors (suc (length msgs)) msgs [] message_id))
