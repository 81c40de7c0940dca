-- ===== src/Localapi/ChatBranch/Tests.antt =====
-- Conversations at concrete inputs.
use mathlib.Core.List.{reverse}
use woolwire.Base.{
  Bytes, List, [], bytes_dec, codes, length, map, pos, refl, suc, true, ℕ_discrete, ℤ, ◌+◌, ◌∷◌,
  ◌≡◌,
}
use woolwire.Base.Maps.{lookup, put}
use woolwire.Base.Sort.{sort_from, insert_sorted}
use woolwire.Localapi.ChatBranch.{
  MessageRecord, ancestors, branch_through, active_branch, group_messages, children_by_parent,
  pick_active, adopt, index_of, walk,
}
use woolwire.Localapi.ChatBranch.Termination.{IsAncestry, ancestors_total}
use woolwire.Localapi.ChatBranch.Ancestry.{messages_of, branch_through-IsAncestry}

abbrev message : Bytes → Bytes → ℤ → MessageRecord
message id parent time = record {
  id = id;
  conversation_id = codes "c1";
  role = codes "user";
  content = [];
  host_member_id = [];
  model_id = [];
  created_at = time;
  parent_id = parent;
  active = true;
}

abbrev conversation : List MessageRecord
conversation =
    message (codes "q") [] (pos 1)
    ∷ message (codes "a1") (codes "q") (pos 2)
    ∷ message (codes "a2") (codes "q") (pos 3)
    ∷ []

-- Two messages that are each other's parent.
abbrev cycle : List MessageRecord
cycle = message (codes "x") (codes "y") (pos 1) ∷ message (codes "y") (codes "x") (pos 2) ∷ []

program : Unit {0}
unfolding ancestors branch_through active_branch group_messages children_by_parent pick_active adopt
    index_of walk lookup put bytes_dec ℕ_discrete sort_from insert_sorted
program = tt

second_answer :
    map (λ m. m.id) (messages_of (branch_through conversation (codes "a2")))
    ≡ codes "q" ∷ codes "a2" ∷ []
unfolding program
second_answer = refl

first_answer :
    map (λ m. m.id) (messages_of (active_branch (λ b. b) conversation))
    ≡ codes "q" ∷ codes "a1" ∷ []
unfolding program
first_answer = refl

branch_through-IsAncestry_run :
    IsAncestry (codes "a2") (reverse (messages_of (branch_through conversation (codes "a2"))))
branch_through-IsAncestry_run = branch_through-IsAncestry conversation (codes "a2")

ancestors_total_example :
    ancestors (suc (length cycle) + 5) cycle [] (codes "x")
    ≡ ancestors (suc (length cycle)) cycle [] (codes "x")
ancestors_total_example = ancestors_total 5 cycle (codes "x")
