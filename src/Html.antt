-- ===== src/Html.antt =====
-- Text for pages: `html.escape`, and the joining of pieces.
pub mod Safe
use Prim.Native.Char.{Char, code}
use Prim.Native.String.{◌++◌}
use llmbus.Shared.{String, List, [], ◌∷◌, eqb, if◌then◌else◌}

-- `"".join(pieces)`
abbrev pub join : List String → String
join [] = ""
join (piece ∷ pieces) = piece ++ join pieces

unfoldable pub escape_char : Char → String
escape_char c =
    if eqb (code c) b'&'
    then "&amp;"
    else if eqb (code c) b'<'
    then "&lt;"
    else if eqb (code c) b'>'
    then "&gt;"
    else if eqb (code c) b'"'
    then "&quot;"
    else if eqb (code c) b'\''
    then "&#x27;"
    else String.◌∷◌ c ""

-- `_esc`, which is `html.escape`
unfoldable pub esc : String → String
unfolding escape_char
esc String.[] = ""
esc (String.◌∷◌ c s) = escape_char c ++ esc s
