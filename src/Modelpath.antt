-- ===== src/Modelpath.antt =====
-- internal/modelpath/modelpath.go: references to weight files, checked before any file is touched.
-- `path.Join` of elements that are neither empty nor dots puts slashes between them.
pub mod Safety
mod Tests
use woolwire.Base.{
  Bool, Bytes, List, Result, [], any, bytes_dec, codes, fail_if, false, if◌then◌else◌, ite, length,
  ltb, ok, true, ℕ, ◌++◌, ◌==◌, ◌>>=◌, ◌>>◌, ◌||◌, ◌∷◌,
}
use woolwire.Community.Sanitize.{trim_space}

abbrev pub max_depth : ℕ
max_depth = 12

pub data Error : Type 0 where
  empty escapes too_deep : Error

abbrev pub put_head : ℕ → List Bytes → List Bytes
put_head c [] = (c ∷ []) ∷ []
put_head c (e ∷ es) = (c ∷ e) ∷ es

-- `strings.Split(ref, "/")`
unfoldable pub split : Bytes → List Bytes
split [] = [] ∷ []
split (c ∷ cs) = if c == b'/' then [] ∷ split cs else put_head c (split cs)

unfoldable pub join : List Bytes → Bytes
join [] = []
join (e ∷ []) = e
join (e ∷ f ∷ es) = e ++ b'/' ∷ join (f ∷ es)

-- `strings.ContainsAny` of a backslash and NUL
unfoldable pub has_forbidden : Bytes → Bool
has_forbidden [] = false
has_forbidden (c ∷ cs) = c == b'\\' || c == 0 || has_forbidden cs

abbrev pub is_abs : Bytes → Bool
is_abs [] = false
is_abs (c ∷ cs) = c == b'/'

-- An empty element, or a dot or two.
unfoldable pub is_dots : Bytes → Bool
is_dots e =
    length e == 0
    || ite (bytes_dec e (codes ".")) true false
    || ite (bytes_dec e (codes "..")) true false

unfoldable pub clean : Bytes → Result Error Bytes
unfolding trim_space split join has_forbidden is_dots
clean ref = do
  fail_if (length (trim_space ref) == 0) empty
  fail_if (has_forbidden ref) escapes
  fail_if (is_abs ref) escapes
  fail_if (ltb max_depth (length (split ref))) too_deep
  fail_if (any is_dots (split ref)) escapes
  ok (join (split ref))
