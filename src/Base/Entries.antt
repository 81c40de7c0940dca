-- ===== src/Base/Entries.antt =====
-- Two maps with the same reads hold the same entries, in some order.
use mathlib.Core.Path.{◌≡◌, sym, ◌∙◌, ap}
use mathlib.Core.Logic.{ite, if_pos, if_neg}
use mathlib.Core.List.{List, [], ◌∷◌, Perm}
use mathlib.Core.List.Perm
use mathlib.Core.Option.{none, some}
use native.Mathlib.Omega.{arith}
use woolwire.Base.Maps.{lookup, delete, lookup-delete, Distinct, delete-Distinct, delete_absent}

module _ {K V : Type 0} (dec : Discrete K) where
  delete-perm :
      (k : K) (v : V) (m : List (K × V))
      → Distinct dec m
      → lookup dec k m ≡ some v
      → Perm ((k, v) ∷ delete dec k m) m
  unfolding lookup delete
  delete-perm k v [] d h = cc
  delete-perm k v ((i, w) ∷ m) d h = elim (dec i k) [
    | yes e ↦
        let same : w ≡ v = ground arith in
        let gone : delete dec k m ≡ m =
          delete_absent dec k m (ap (λ z. lookup dec z m) (sym e) ∙ d.0) in
        rw (if_pos (dec i k) e, gone)
          (Perm.cons' {a = (k, v)} {b = (i, w)} (λ j. (sym e j, sym same j)) Perm.rfl)
    | no ne ↦ rw (if_neg (dec i k) ne) (
        Perm.trans (Perm.swap (i, w) (k, v) (delete dec k m))
          (Perm.cons (i, w) (delete-perm k v m d.1 (ground arith))))
  ]

  head-lookup : (k : K) (v : V) (m : List (K × V)) → lookup dec k ((k, v) ∷ m) ≡ some v
  unfolding lookup
  head-lookup k v m = ground arith

  nil-lookup : (k : K) (v : V) → ¬ (lookup dec k [] ≡ some v)
  unfolding lookup
  nil-lookup k v e = cc

  tail-lookup :
      (k j : K) (v : V) (m : List (K × V))
      → lookup dec k m ≡ none
      → lookup dec j m ≡ ite (dec k j) none (lookup dec j ((k, v) ∷ m))
  unfolding lookup
  tail-lookup k j v m h = elim (dec k j) [
    | yes e ↦ rw (if_pos (dec k j) e) (ap (λ z. lookup dec z m) (sym e) ∙ h)
    | no ne ↦ ground arith
  ]

  pub entries-perm :
      (m n : List (K × V))
      → Distinct dec m
      → Distinct dec n
      → ((k : K) → lookup dec k m ≡ lookup dec k n)
      → Perm m n
  entries-perm [] [] c d h = Perm.rfl
  entries-perm [] ((k, v) ∷ n) c d h = absurd (nil-lookup k v (h k ∙ head-lookup k v n))
  entries-perm ((k, v) ∷ m) n c d h =
      let found : lookup dec k n ≡ some v = sym (h k) ∙ head-lookup k v m in
      Perm.trans
        (Perm.cons (k, v)
          (entries-perm m (delete dec k n) c.1 (delete-Distinct dec k n d) (λ j.
            tail-lookup k j v m c.0
            ∙ ap (λ z. ite (dec k j) none z) (h j)
            ∙ sym (lookup-delete dec k j n))))
        (delete-perm k v n d found)
