-- ===== src/Text/Trim.antt =====
-- `str::trim`: the bytes of Unicode's white space are taken off both ends.
use skaldberg.Base.{
  ℕ, zero, suc, ◌+◌, Option, none, some, List, [], ◌∷◌, ◌++◌, ◌==◌, if◌then◌else◌, map, length,
}
use mathlib.Core.List.{reverse}
use skaldberg.Text.{Text}

-- `n` bytes in a row, from `b` on, each behind the same ones
following : Text → ℕ → ℕ → List Text
following before b zero = []
following before b (suc n) = (before ++ (b ∷ [])) ∷ following before (b + 1) n

-- The characters with the property White_Space, in UTF-8
white_space : List Text
unfolding following
white_space =
    following [] 9 5
    ++ (following [] 32 1
        ++ (following (194 ∷ []) 133 1
            ++ (following (194 ∷ []) 160 1
                ++ (following (225 ∷ 154 ∷ []) 128 1
                    ++ (following (226 ∷ 128 ∷ []) 128 11
                        ++ (following (226 ∷ 128 ∷ []) 168 2
                            ++ (following (226 ∷ 128 ∷ []) 175 1
                                ++ (following (226 ∷ 129 ∷ []) 159 1
                                    ++ following (227 ∷ 128 ∷ []) 128 1))))))))

-- `strip_prefix`, and that of the first which fits
strip_prefix : Text → Text → Option Text
strip_prefix [] s = some s
strip_prefix (p ∷ ps) [] = none
strip_prefix (p ∷ ps) (c ∷ cs) = let rest = strip_prefix ps cs in if p == c then rest else none

strip_any : List Text → Text → Option Text
unfolding strip_prefix
strip_any [] s = none
strip_any (p ∷ ps) s = elim (strip_prefix p s) [ some rest ↦ some rest | none ↦ strip_any ps s ]

-- Every round takes a byte at least, so as many rounds as there are bytes are enough.
strip_all : ℕ → List Text → Text → Text
unfolding strip_any
strip_all zero ps s = s
strip_all (suc fuel) ps s = elim (strip_any ps s) [ none ↦ s | some rest ↦ strip_all fuel ps rest ]

trim_start : Text → Text
unfolding strip_all white_space
trim_start s = strip_all (length s) white_space s

trim_end : Text → Text
unfolding strip_all white_space
trim_end s = reverse (strip_all (length s) (map reverse white_space) (reverse s))

unfoldable pub trim : Text → Text
unfolding trim_start trim_end
trim s = trim_end (trim_start s)
