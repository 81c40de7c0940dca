-- ===== src/Modelpath/Safety.antt =====
-- modelpath.go: a reference that passes stays below the models directory.
use woolwire.Base.{All, Bytes, [], codes, length, take, ◌≢◌, ◌≤◌}
use woolwire.Modelpath.{split}

-- Neither empty nor dots.
abbrev pub IsPlain : Bytes → Type 0
IsPlain e = (e ≢ []) × (e ≢ codes ".") × (e ≢ codes "..")

-- Neither a backslash nor a NUL.
abbrev pub IsPrintable : Bytes → Type 0
IsPrintable = All (λ c. (c ≢ b'\\') × (c ≢ 0))

-- Below the directory: no element is empty or dots, there are at most twelve, and neither a
-- backslash nor a NUL nor a leading slash stands in the reference.
abbrev pub IsSafe : Bytes → Type 0
IsSafe ref =
    All IsPlain (split ref) × (length (split ref) ≤ 12) × IsPrintable ref × (take 1 ref ≢ codes "/")
