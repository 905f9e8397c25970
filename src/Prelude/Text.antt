-- ===== src/Prelude/Text.antt =====
-- Texts put together from parts, as an f-string does.
use Prim.Native.String.{◌++◌ as append}
use qiankun.Prelude.{String, List, [], ◌∷◌}

abbrev pub fstring : List String → String
fstring [] = ""
fstring (s ∷ ss) = append s (fstring ss)

-- `separator.join(parts)`
abbrev pub join : String → List String → String
join separator [] = ""
join separator (s ∷ []) = s
join separator (s ∷ t ∷ ss) = append s (append separator (join separator (t ∷ ss)))
