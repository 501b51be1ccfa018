-- ===== src/Common/Text.antt =====
-- Operations on texts: `starts_with`, the concatenation in `format!`, and `replace(" ", "T")`.
use Prim.Native.String.{String, ◌++◌ as append}
use Prim.Native.Char.{code}
use ground_core.Common.Tests.{◌==◌, Bool, true, false, ◌&&◌, if◌then◌else◌}

abbrev pub text_append : String → String → String
text_append s t = append s t

unfoldable pub starts_with : String → String → Bool
starts_with s String.[] = true
starts_with String.[] (String.◌∷◌ d t) = false
starts_with (String.◌∷◌ c s) (String.◌∷◌ d t) =
    let rest = starts_with s t in (code c == code d) && rest

unfoldable pub spaces_to_t : String → String
spaces_to_t String.[] = String.[]
spaces_to_t (String.◌∷◌ c s) =
    let rest = spaces_to_t s in if code c == 32 then append "T" rest else String.◌∷◌ c rest
