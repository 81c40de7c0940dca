-- ===== src/Localapi/ChatBranch/Ancestry.antt =====
-- chatbranch.go: the branch through a message is its line of parents.
use mathlib.Core.List.{reverse, reverse-reverse}
use woolwire.Base.{Bytes, List, [], ap, length, map, refl, subst, suc, sym, ◌∙◌, ◌∷◌, ◌≡◌}
use woolwire.Localapi.ChatBranch.{
  MessageRecord, BranchView, ancestors, branch_through, view_of, children_of, children_by_parent,
}
use woolwire.Localapi.ChatBranch.Termination.{IsAncestry, ancestors-IsAncestry}

-- The messages of a branch, the first one first.
abbrev pub messages_of : List BranchView → List MessageRecord
messages_of views = map (λ v. v.message) views

messages_of-views :
    (group : MessageRecord → List MessageRecord) (ms : List MessageRecord)
    → messages_of (map (λ m. view_of (group m) m) ms) ≡ ms
messages_of-views group [] = refl
messages_of-views group (m ∷ ms) = ap (λ z. m ∷ z) (messages_of-views group ms)

-- Read backwards, the branch through a message begins with that message, if it is not empty, and
-- each further message is the parent of the one before it.
pub branch_through-IsAncestry :
    (msgs : List MessageRecord) (message_id : Bytes)
    → IsAncestry message_id (reverse (messages_of (branch_through msgs message_id)))
unfolding branch_through
branch_through-IsAncestry msgs message_id =
    let line = ancestors (suc (length msgs)) msgs [] message_id in
    subst (IsAncestry message_id)
      (sym (
        ap (λ z. reverse z)
          (messages_of-views (λ m. children_of (children_by_parent msgs) m.parent_id)
            (reverse line))
        ∙ reverse-reverse line))
      (ancestors-IsAncestry (suc (length msgs)) msgs [] message_id)
