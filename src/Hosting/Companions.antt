-- ===== src/Hosting/Companions.antt =====
-- internal/hosting/companions.go: the files beside a model that belong to it. The patterns
-- `(?i)(^|[-_.])mmproj([-_.]|$)` and `(?i)^mtp[-_.]` hold ASCII letters without other forms; upper
-- case and the comparison that ignores case are those of ASCII.
pub mod Order
pub mod Choice
mod Tests
use mathlib.Core.List.{reverse}
use woolwire.Base.{
  Bool, Bytes, List, Option, [], codes, false, if◌then◌else◌, is_text, keep, leb, length, lt_bytes,
  ltb, map, none, not, some, suc, true, ℕ, ◌&&◌, ◌++◌, ◌+◌, ◌-◌, ◌==◌, ◌||◌, ◌∷◌,
}
use woolwire.Base.Sort.{sort_from}
use woolwire.Community.Sanitize.{strip_prefix}
use woolwire.Modelpath.{split}

pub data CompanionKind : Type 0 where
  no_companion companion_projector companion_draft : CompanionKind

abbrev pub is_kind : CompanionKind → CompanionKind → Bool
is_kind companion_projector companion_projector = true
is_kind companion_draft companion_draft = true
is_kind _ _ = false

abbrev pub upper : Bytes → Bytes
upper s = map (λ c. if leb b'a' c && leb c b'z' then c - 32 else c) s

-- `strings.Contains`
unfoldable pub contains : Bytes → Bytes → Bool
unfolding strip_prefix
contains word [] = length word == 0
contains word (c ∷ cs) = elim (strip_prefix word (c ∷ cs)) [
  | some rest ↦ true
  | none ↦ contains word cs
]

unfoldable pub ends_with : Bytes → Bytes → Bool
unfolding strip_prefix
ends_with word s = elim (strip_prefix (reverse word) (reverse s)) [
  | some rest ↦ true
  | none ↦ false
]

-- A projector's or a draft's precisions, the preferred one first.
abbrev pub precision_order : CompanionKind → List Bytes
precision_order companion_draft = codes "-Q8_0" ∷ codes "-F16" ∷ codes "-BF16" ∷ codes "-F32" ∷ []
precision_order _ = codes "-F16" ∷ codes "-BF16" ∷ codes "-Q8_0" ∷ codes "-F32" ∷ []

unfoldable pub rank_in : Bytes → List Bytes → ℕ
unfolding contains ends_with
rank_in name [] = 0
rank_in name (suffix ∷ more) =
    let rest = rank_in name more in
    if contains (suffix ++ codes ".GGUF") name || ends_with suffix name then 0 else suc rest

unfoldable pub precision_rank : Bytes → CompanionKind → ℕ
unfolding rank_in
precision_rank name kind = rank_in (upper name) (precision_order kind)

pub record CompanionCandidate : Type 0 where
  pub path : Bytes
  pub size : ℕ
  pub kind : CompanionKind

unfoldable pub matches_quantization : Bytes → CompanionCandidate → Bool
unfolding contains
matches_quantization quantization c =
    contains (codes "-" ++ quantization ++ codes ".") (upper c.path)

-- The order of the candidates of one kind.
unfoldable pub precedes : Bytes → CompanionKind → CompanionCandidate → CompanionCandidate → Bool
unfolding matches_quantization precision_rank lt_bytes
precedes quantization kind x y =
    let by_path = lt_bytes x.path y.path in
    let by_size = if x.size == y.size then by_path else ltb x.size y.size in
    let by_rank =
      if precision_rank x.path kind == precision_rank y.path kind
      then by_size
      else ltb (precision_rank x.path kind) (precision_rank y.path kind) in
    if length quantization == 0
    then by_rank
    else if matches_quantization quantization x && not (matches_quantization quantization y)
    then true
    else if matches_quantization quantization y && not (matches_quantization quantization x)
    then false
    else by_rank

abbrev pub first_of : List CompanionCandidate → List CompanionCandidate
first_of [] = []
first_of (c ∷ cs) = c ∷ []

unfoldable pub choose_kind :
    List CompanionCandidate → Bytes → CompanionKind → List CompanionCandidate
unfolding sort_from precedes
choose_kind candidates quantization kind =
    first_of
      (sort_from (precedes quantization kind) [] (keep (λ c. is_kind c.kind kind) candidates))

unfoldable pub choose_companions : List CompanionCandidate → Bytes → List CompanionCandidate
unfolding choose_kind
choose_companions candidates quantization =
    choose_kind candidates quantization companion_projector
    ++ choose_kind candidates quantization companion_draft

abbrev pub lower : Bytes → Bytes
lower s = map (λ c. if leb b'A' c && leb c b'Z' then c + 32 else c) s

-- `[-_.]`
abbrev pub is_separator : ℕ → Bool
is_separator c = c == b'-' || c == b'_' || c == b'.'

abbrev pub at_separator : Option Bytes → Bool
at_separator none = false
at_separator (some []) = false
at_separator (some (c ∷ cs)) = is_separator c

abbrev pub at_end : Option Bytes → Bool
at_end (some []) = true
at_end _ = false

-- `projectorPattern`, on small letters, with whether a word can start here.
unfoldable pub has_projector : Bool → Bytes → Bool
unfolding strip_prefix
has_projector may_start [] = false
has_projector may_start (c ∷ cs) =
    let found = strip_prefix (codes "mmproj") (c ∷ cs) in
    let later = has_projector (is_separator c) cs in
    may_start && (at_separator found || at_end found) || later

-- `path.Base` and `path.Base(path.Dir(…))` of a relative path without empty elements
abbrev pub base_of : Bytes → List Bytes → Bytes
base_of last [] = last
base_of last (e ∷ es) = base_of e es

abbrev pub dir_base_of : Bytes → List Bytes → Bytes
dir_base_of dir [] = dir
dir_base_of dir (e ∷ []) = dir
dir_base_of dir (e ∷ f ∷ es) = dir_base_of e (f ∷ es)

abbrev pub trim_gguf_suffix : Bytes → Bytes
trim_gguf_suffix s = elim (strip_prefix (codes "fugg.") (reverse s)) [
  | some rest ↦ reverse rest
  | none ↦ s
]

unfoldable pub classify_companion : Bytes → CompanionKind
unfolding has_projector split strip_prefix
classify_companion rel_path =
    let name = lower (trim_gguf_suffix (base_of [] (split rel_path))) in
    if has_projector true name
    then companion_projector
    else if at_separator (strip_prefix (codes "mtp") name)
        || is_text (lower (dir_base_of (codes ".") (split rel_path))) (codes "mtp")
    then companion_draft
    else no_companion
