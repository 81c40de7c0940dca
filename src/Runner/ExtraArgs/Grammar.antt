-- ===== src/Runner/ExtraArgs/Grammar.antt =====
-- controller.go: what ValidateExtraArgs lets through, as a grammar.
use woolwire.Base.{
  All, Bool, Bool-cases, Bytes, List, Result, [], ap, arith, err, false, if◌then◌else◌, inl, inr,
  length, ltb, map, ok, refl, sym, true, ◌==◌, ◌↔◌, ◌∙◌, ◌∷◌, ◌≡◌, ◌≢◌, ◌≤◌, ◌⊎◌,
}
use woolwire.Community.Sanitize.{trim_space, strip_prefix}
use woolwire.Runner.ExtraArgs.{
  supported_extra_flags, boolean_extra_flags, optional_value_extra_flags, is_among, has_dashes,
  has_equals, flag_of, Error, Need, alone, with_next, judge_flag, check_flag, end_flag, go_on,
  too_many, requires_value, is_value, check_args, max_extra_args, validate_extra_args,
}

-- A flag that the engine may be given.
abbrev pub Allowed : Bytes → Type 0
Allowed a = (has_dashes a ≡ true) × (is_among supported_extra_flags (flag_of a) ≡ true)

-- One that is complete in itself: a toggle without a value, or a flag with its value inline, or one
-- whose value may be missing.
abbrev pub IsSwitch : Bytes → Type 0
IsSwitch a =
    Allowed a
    × (((is_among boolean_extra_flags (flag_of a) ≡ true) × (has_equals a ≡ false))
        ⊎ ((is_among boolean_extra_flags (flag_of a) ≡ false)
            × ((is_among optional_value_extra_flags (flag_of a) ≡ true) ⊎ (has_equals a ≡ true))))

-- One that takes the next argument as its value.
abbrev pub IsKey : Bytes → Type 0
IsKey a =
    Allowed a
    × (is_among boolean_extra_flags (flag_of a) ≡ false)
    × (is_among optional_value_extra_flags (flag_of a) ≡ false)
    × (has_equals a ≡ false)

-- One that can be a value: it is not empty and no flag.
abbrev pub IsOperand : Bytes → Type 0
IsOperand v = (v ≢ []) × (has_dashes v ≡ false)

pub data Spelled : List Bytes → Type 0 where
  done : Spelled []
  switch : {a : Bytes} {rest : List Bytes} → IsSwitch a → Spelled rest → Spelled (a ∷ rest)
  pair :
      {a v : Bytes} {rest : List Bytes}
      → IsKey a
      → IsOperand v
      → Spelled rest
      → Spelled (a ∷ v ∷ rest)

has_dashes_nonempty : (a : Bytes) → has_dashes a ≡ true → (length a == 0) ≡ false
unfolding has_dashes strip_prefix
has_dashes_nonempty [] h = cc
has_dashes_nonempty (c ∷ cs) h = ground arith

judge_flag_alone :
    (m d s b o q : Bool)
    → (d ≡ true → m ≡ false)
    → (judge_flag m d s b o q ≡ ok alone) ↔ (
        ((d ≡ true) × (s ≡ true))
        × (((b ≡ true) × (q ≡ false)) ⊎ ((b ≡ false) × ((o ≡ true) ⊎ (q ≡ true)))))
unfolding judge_flag
judge_flag_alone m d s b o q h = ground arith

judge_flag_with_next :
    (m d s b o q : Bool)
    → (d ≡ true → m ≡ false)
    → (judge_flag m d s b o q ≡ ok with_next)
      ↔ (((d ≡ true) × (s ≡ true)) × (b ≡ false) × (o ≡ false) × (q ≡ false))
unfolding judge_flag
judge_flag_with_next m d s b o q h = ground arith

check_flag_alone : (a : Bytes) → (check_flag a ≡ ok alone) ↔ IsSwitch a
unfolding check_flag
check_flag_alone a = judge_flag_alone _ _ _ _ _ _ (has_dashes_nonempty a)

check_flag_with_next : (a : Bytes) → (check_flag a ≡ ok with_next) ↔ IsKey a
unfolding check_flag
check_flag_with_next a = judge_flag_with_next _ _ _ _ _ _ (has_dashes_nonempty a)

is_value_iff : (v : Bytes) → (is_value v ≡ true) ↔ IsOperand v
unfolding is_value
is_value_iff [] = (λ h. cc, λ h. absurd (h.0 refl))
is_value_iff (c ∷ cs) = (λ h. ((λ e. cc), ground (arith, h)), λ h. ground (arith, h.1))

Spelled-check_args : (args : List Bytes) → Spelled args → check_args args ≡ ok tt
unfolding check_args
Spelled-check_args [] s = refl
Spelled-check_args (a ∷ []) (switch h s) = ap end_flag ((check_flag_alone a).1 h)
Spelled-check_args (a ∷ v ∷ rest) (switch h s) =
    ap (go_on v (check_args (v ∷ rest)) (check_args rest)) ((check_flag_alone a).1 h)
    ∙ Spelled-check_args (v ∷ rest) s
Spelled-check_args (a ∷ v ∷ rest) (pair h k s) =
    ap (go_on v (check_args (v ∷ rest)) (check_args rest)) ((check_flag_with_next a).1 h)
    ∙ rw ((is_value_iff v).1 k) (Spelled-check_args rest s)

end_flag-ok : (r : Result Error Need) → end_flag r ≡ ok tt → r ≡ ok alone
unfolding end_flag
end_flag-ok (ok alone) h = refl
end_flag-ok (ok with_next) h = cc
end_flag-ok (err e) h = cc

go_on-ok :
    (v : Bytes) (next behind : Result Error (Unit {0})) (r : Result Error Need)
    → go_on v next behind r ≡ ok tt
    → ((r ≡ ok alone) × (next ≡ ok tt))
      ⊎ ((r ≡ ok with_next) × ((is_value v ≡ true) × (behind ≡ ok tt)))
unfolding go_on
go_on-ok v next behind (ok alone) h = inl (refl, h)
go_on-ok v next behind (ok with_next) h = elim (Bool-cases (is_value v)) [
  | inl k ↦ inr (refl, (k, sym (rw k refl) ∙ h))
  | inr k ↦ absurd (refused_value (sym (rw k refl) ∙ h))
]
  where
    refused_value : err requires_value ≢ ok tt
    refused_value e = cc
go_on-ok v next behind (err e) h = cc

check_args-Spelled : (args : List Bytes) → check_args args ≡ ok tt → Spelled args
unfolding check_args
check_args-Spelled [] h = done
check_args-Spelled (a ∷ []) h = switch ((check_flag_alone a).0 (end_flag-ok (check_flag a) h)) done
check_args-Spelled (a ∷ v ∷ rest) h =
    elim (go_on-ok v (check_args (v ∷ rest)) (check_args rest) (check_flag a) h) [
      | inl (p, q) ↦ switch ((check_flag_alone a).0 p) (check_args-Spelled (v ∷ rest) q)
      | inr (p, (k, q)) ↦
          pair ((check_flag_with_next a).0 p) ((is_value_iff v).0 k) (check_args-Spelled rest q)
    ]

-- ValidateExtraArgs accepts exactly the lists of at most 32 arguments that, trimmed, are spelled
-- by the grammar of the switches: toggles without a value, flags with an inline value, optional
-- flags, and flags followed by a value that is not empty and does not start with two dashes.
pub validate_extra_args_iff :
    (args : List Bytes)
    → (validate_extra_args args ≡ ok tt) ↔ ((length args ≤ 32) × Spelled (map trim_space args))
unfolding validate_extra_args
validate_extra_args_iff args = (
  λ h. bounded (check_args (map trim_space args)) (check_args-Spelled (map trim_space args)) h,
  λ h. ground (arith, h.0, Spelled-check_args (map trim_space args) h.1),
)
  where
    bounded :
        (r : Result Error (Unit {0}))
        → (r ≡ ok tt → Spelled (map trim_space args))
        → (if ltb max_extra_args (length args) then err too_many else r) ≡ ok tt
        → (length args ≤ 32) × Spelled (map trim_space args)
    bounded r f e = (ground arith, f (ground arith))

Spelled-Allowed :
    (args : List Bytes) → Spelled args → All (λ a. has_dashes a ≡ true → Allowed a) args
unfolding is_value
Spelled-Allowed [] s = tt
Spelled-Allowed (a ∷ []) (switch h s) = (λ d. h.0, tt)
Spelled-Allowed (a ∷ v ∷ rest) (switch h s) = (λ d. h.0, Spelled-Allowed (v ∷ rest) s)
Spelled-Allowed (a ∷ v ∷ rest) (pair h k s) =
    (λ d. h.0, ((λ d. ground (arith, k, d)), Spelled-Allowed rest s))

-- In a list of arguments that ValidateExtraArgs accepts, every argument that starts with two
-- dashes, trimmed, has a name on the list of supported flags before its equals sign.
pub validate_extra_args-Allowed :
    (args : List Bytes)
    → validate_extra_args args ≡ ok tt
    → All (λ a. has_dashes a ≡ true → Allowed a) (map trim_space args)
validate_extra_args-Allowed args h =
    Spelled-Allowed (map trim_space args) (((validate_extra_args_iff args).0 h).1)
