-- ===== src/Runner/OutputTail.antt =====
-- controller.go: the end of the engine's output, and the lines of it that explain a failure. The
-- pattern `(?i)\b(…)\b` is matched on bytes: its word boundaries are those of ASCII, and its letters
-- fold as in Unicode, where the long s and the Kelvin sign are forms of s and k.
pub mod Kept
use woolwire.Base.{
  Bool, Bytes, List, [], any, codes, drop, false, if◌then◌else◌, is_text, keep, leb, length, ltb,
  none, not, some, ℕ, ◌&&◌, ◌++◌, ◌-◌, ◌==◌, ◌||◌, ◌∷◌,
}
use woolwire.Community.Sanitize.{trim_space, strip_prefix, strip_any}

abbrev pub engine_tail_bytes : ℕ
engine_tail_bytes = 8192

-- `outputTail.Write`
unfoldable pub write : Bytes → Bytes → Bytes
write buf p =
    if ltb engine_tail_bytes (length (buf ++ p))
    then drop (length (buf ++ p) - engine_tail_bytes) (buf ++ p)
    else buf ++ p

abbrev pub put_first : ℕ → List Bytes → List Bytes
put_first c [] = (c ∷ []) ∷ []
put_first c (e ∷ es) = (c ∷ e) ∷ es

-- `strings.Split(s, "\n")`
unfoldable pub split_lines : Bytes → List Bytes
split_lines [] = [] ∷ []
split_lines (c ∷ cs) = if c == 10 then [] ∷ split_lines cs else put_first c (split_lines cs)

-- The trimmed lines that are not empty.
unfoldable pub trimmed_lines : List Bytes → List Bytes
unfolding trim_space
trimmed_lines [] = []
trimmed_lines (raw ∷ raws) =
    if length (trim_space raw) == 0 then trimmed_lines raws else trim_space raw ∷ trimmed_lines raws

-- `pick`: the first `n` different lines. The test of `n` is the source's, after each line.
unfoldable pub pick : ℕ → List Bytes → List Bytes → List Bytes
pick n kept [] = kept
pick n kept (line ∷ lines) =
    let skipped = pick n kept lines in
    let taken = pick n (kept ++ line ∷ []) lines in
    if any (is_text line) kept
    then skipped
    else if length (kept ++ line ∷ []) == n
    then kept ++ line ∷ []
    else taken

-- The forms of a small letter under `(?i)`.
abbrev pub forms : ℕ → List Bytes
forms c =
    if c == b's'
    then (b's' ∷ []) ∷ (b'S' ∷ []) ∷ (0xc5 ∷ 0xbf ∷ []) ∷ []
    else if c == b'k'
    then (b'k' ∷ []) ∷ (b'K' ∷ []) ∷ (0xe2 ∷ 0x84 ∷ 0xaa ∷ []) ∷ []
    else if leb b'a' c && leb c b'z'
    then (c ∷ []) ∷ ((c - 32) ∷ []) ∷ []
    else (c ∷ []) ∷ []

abbrev pub is_word : ℕ → Bool
is_word c =
    leb b'0' c && leb c b'9' || leb b'a' c && leb c b'z' || leb b'A' c && leb c b'Z' || c == b'_'

abbrev pub starts_word : Bytes → Bool
starts_word [] = false
starts_word (c ∷ cs) = is_word c

-- The word at the front of a text, and a boundary behind it: its last letter is one of ASCII.
unfoldable pub matches_word : Bytes → Bytes → Bool
unfolding strip_any strip_prefix
matches_word [] s = not (starts_word s)
matches_word (c ∷ cs) s = elim (strip_any (forms c) s) [
  | some rest ↦ matches_word cs rest
  | none ↦ false
]

abbrev pub causes_words : List Bytes
causes_words =
    codes "error"
    ∷ codes "failed"
    ∷ codes "cannot"
    ∷ codes "unable"
    ∷ codes "unsupported"
    ∷ codes "unknown"
    ∷ codes "out of memory"
    ∷ codes "no such"
    ∷ []

-- `causePattern.MatchString`, with whether a word character stands before the text.
unfoldable pub has_cause : Bool → Bytes → Bool
unfolding matches_word
has_cause inside [] = false
has_cause inside (c ∷ cs) =
    not inside && any (λ w. matches_word w (c ∷ cs)) causes_words || has_cause (is_word c) cs

-- `strings.Join(…, "; ")`
unfoldable pub join_lines : List Bytes → Bytes
join_lines [] = []
join_lines (e ∷ []) = e
join_lines (e ∷ f ∷ es) = e ++ codes "; " ++ join_lines (f ∷ es)

-- The lines that `summarize` picks from.
unfoldable pub choose_lines : ℕ → List Bytes → List Bytes → List Bytes
unfolding pick
choose_lines n lines [] =
    pick n [] (if ltb n (length lines) then drop (length lines - n) lines else lines)
choose_lines n lines (cause ∷ causes) = pick n [] (cause ∷ causes)

unfoldable pub summarize : Bytes → ℕ → Bytes
unfolding trimmed_lines split_lines choose_lines has_cause join_lines
summarize buf n =
    let lines = trimmed_lines (split_lines buf) in
    join_lines (choose_lines n lines (keep (has_cause false) lines))
