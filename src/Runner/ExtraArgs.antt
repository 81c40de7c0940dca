-- ===== src/Runner/ExtraArgs.antt =====
-- controller.go: the tuning switches of the engine that a user can add.
pub mod Grammar
use woolwire.Base.{
  Bool, Bytes, List, Result, [], any, codes, err, false, if◌then◌else◌, is_text, length, lt_bytes,
  ltb, map, none, not, ok, some, true, ℕ, ◌&&◌, ◌==◌, ◌||◌, ◌∷◌,
}
use woolwire.Community.Sanitize.{trim_space, strip_prefix}
use woolwire.Base.Sort.{sort_from}

-- The keys of the map `supportedExtraFlags`.
abbrev pub supported_extra_flags : List Bytes
supported_extra_flags =
    codes "--batch-size"
    ∷ codes "--ubatch-size"
    ∷ codes "--threads-batch"
    ∷ codes "--cache-type-k"
    ∷ codes "--cache-type-v"
    ∷ codes "--rope-scaling"
    ∷ codes "--rope-freq-base"
    ∷ codes "--rope-freq-scale"
    ∷ codes "--defrag-thold"
    ∷ codes "--keep"
    ∷ codes "--prio"
    ∷ codes "--poll"
    ∷ codes "--flash-attn"
    ∷ codes "--no-mmap"
    ∷ codes "--mlock"
    ∷ codes "--no-kv-offload"
    ∷ codes "--no-op-offload"
    ∷ []

abbrev pub boolean_extra_flags : List Bytes
boolean_extra_flags =
    codes "--no-mmap" ∷ codes "--mlock" ∷ codes "--no-kv-offload" ∷ codes "--no-op-offload" ∷ []

abbrev pub optional_value_extra_flags : List Bytes
optional_value_extra_flags = codes "--flash-attn" ∷ []

-- Whether a flag is a key of one of these maps.
unfoldable pub is_among : List Bytes → Bytes → Bool
is_among flags flag = any (is_text flag) flags

unfoldable pub has_dashes : Bytes → Bool
unfolding strip_prefix
has_dashes a = elim (strip_prefix (codes "--") a) [ some rest ↦ true | none ↦ false ]

-- `strings.Contains(a, "=")`
unfoldable pub has_equals : Bytes → Bool
has_equals a = any (λ c. c == b'=') a

-- What stands before the first `=`.
unfoldable pub flag_of : Bytes → Bytes
flag_of [] = []
flag_of (c ∷ cs) = if c == b'=' then [] else c ∷ flag_of cs

pub data Error : Type 0 where
  too_many not_a_flag not_allowed takes_no_value requires_value : Error

-- What the flag at hand wants of the arguments: nothing is left of it, or the next one is its value.
pub data Need : Type 0 where
  alone : Need
  with_next : Need

-- The tests of a flag, in their order.
unfoldable pub judge_flag :
    (is_empty dashes supported boolean optional equals : Bool) → Result Error Need
judge_flag is_empty dashes supported boolean optional equals =
    if is_empty || not dashes
    then err not_a_flag
    else if not supported
    then err not_allowed
    else if boolean
    then if equals then err takes_no_value else ok alone
    else if optional
    then ok alone
    else if not equals
    then ok with_next
    else ok alone

unfoldable pub check_flag : Bytes → Result Error Need
unfolding judge_flag is_among has_dashes has_equals flag_of
check_flag a =
    judge_flag (length a == 0) (has_dashes a) (is_among supported_extra_flags (flag_of a))
      (is_among boolean_extra_flags (flag_of a)) (is_among optional_value_extra_flags (flag_of a))
      (has_equals a)

-- An argument that can be the value of the flag before it.
unfoldable pub is_value : Bytes → Bool
unfolding has_dashes
is_value v = not (length v == 0) && not (has_dashes v)

-- What a flag at the end of the arguments comes to, and one before the argument `v`.
unfoldable pub end_flag : Result Error Need → Result Error (Unit {0})
end_flag (err e) = err e
end_flag (ok alone) = ok tt
end_flag (ok with_next) = err requires_value

unfoldable pub go_on :
    Bytes
    → Result Error (Unit {0})
    → Result Error (Unit {0})
    → Result Error Need
    → Result Error (Unit {0})
unfolding is_value
go_on v next behind (err e) = err e
go_on v next behind (ok alone) = next
go_on v next behind (ok with_next) = if is_value v then behind else err requires_value

-- The loop, with the trimmed arguments.
unfoldable pub check_args : List Bytes → Result Error (Unit {0})
unfolding check_flag end_flag go_on
check_args [] = ok tt
check_args (a ∷ []) = end_flag (check_flag a)
check_args (a ∷ v ∷ rest) = go_on v (check_args (v ∷ rest)) (check_args rest) (check_flag a)

abbrev pub max_extra_args : ℕ
max_extra_args = 32

unfoldable pub validate_extra_args : List Bytes → Result Error (Unit {0})
unfolding check_args trim_space
validate_extra_args args =
    if ltb max_extra_args (length args) then err too_many else check_args (map trim_space args)

-- What a client is told of a flag.
pub data Value : Type 0 where
  value_none value_required value_optional : Value

pub record ExtraFlag : Type 0 where
  pub flag : Bytes
  pub value : Value

unfoldable pub describe_flag : Bytes → ExtraFlag
unfolding is_among
describe_flag flag = record {
  flag = flag;
  value =
      if is_among boolean_extra_flags flag
      then value_none
      else if is_among optional_value_extra_flags flag
      then value_optional
      else value_required;
}

abbrev pub flag_less : ExtraFlag → ExtraFlag → Bool
flag_less x y = lt_bytes x.flag y.flag

-- `SupportedExtraFlags`, with the order in which the map yields its keys.
unfoldable pub list_extra_flags : List Bytes → List ExtraFlag
unfolding sort_from describe_flag lt_bytes
list_extra_flags order = sort_from flag_less [] (map describe_flag order)
