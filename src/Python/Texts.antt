-- ===== src/Python/Texts.antt =====
-- Python's `str` where the program takes texts apart: the parts that are a plain loop over characters
-- are functions, and the rest of the standard library is a parameter.
use Prim.Native.Char.{Char, code}
use Prim.Native.String.{String, ◌++◌}
use llmbus.Shared.{
  ℕ, zero, suc, Bool, true, false, ◌&&◌, Option, List, [], ◌∷◌, eqb, ltb, if◌then◌else◌,
}
use llmbus.Shared.Int.{ℤ}
use llmbus.Python.Exc.{Ended}

-- the values `parse_qs` finds for a name: one at least
pub record FormValues : Type 0 where
  pub first : String
  pub more : List String

-- What the program takes from the standard library, over a type of floats.
pub record Texts (F : Type 0) : Type 1 where
  pub strip : String → String
  pub lower : String → String
  -- `int(text)` and `float(text)`, none for a `ValueError`
  pub int_of : String → Option ℤ
  pub float_of : String → Option F
  pub is_finite : F → Bool
  -- `urllib.parse.quote(text, safe='')`
  pub quote : String → String
  -- `base64.b64decode(text, validate=True).decode()`
  pub b64decode : String → Ended String
  -- `parse_qs(text, keep_blank_values=True)`
  pub parse_qs : String → List (String × FormValues)
  -- `bytes`, its length, and `decode("utf-8", errors="replace")`
  pub Bytes : Type 0
  pub byte_count : Bytes → ℕ
  pub decode_replace : Bytes → String
  -- `repr` of an `int` and of a `float`
  pub repr_int : ℤ → String
  pub repr_float : F → String

-- what `text.partition(sep)` gives for a `sep` of one character: before, whether it is there, after
abbrev pub Parts : Type 0
Parts = String × Bool × String

abbrev before_more : Char → Parts → Parts
before_more c (head, found, rest) = (String.◌∷◌ c head, found, rest)

unfoldable pub partition : ℕ → String → Parts
partition sep String.[] = ("", false, "")
partition sep (String.◌∷◌ c s) =
    let rest = partition sep s in if eqb (code c) sep then ("", true, s) else before_more c rest

abbrev onto_first : Char → List String → List String
onto_first c [] = String.◌∷◌ c "" ∷ []
onto_first c (part ∷ parts) = String.◌∷◌ c part ∷ parts

-- `text.split(sep)` for a `sep` of one character
unfoldable pub split : ℕ → String → List String
split sep String.[] = "" ∷ []
split sep (String.◌∷◌ c s) =
    let rest = split sep s in if eqb (code c) sep then "" ∷ rest else onto_first c rest

-- `text.isascii()`
unfoldable pub is_ascii : String → Bool
is_ascii String.[] = true
is_ascii (String.◌∷◌ c s) = ltb (code c) 128 && is_ascii s

-- `sep.join(texts)`
abbrev pub join_with : String → List String → String
join_with sep [] = ""
join_with sep (s ∷ []) = s
join_with sep (s ∷ t ∷ texts) = s ++ (sep ++ join_with sep (t ∷ texts))

-- the first characters of a text
unfoldable pub first_chars : ℕ → String → String
first_chars n String.[] = ""
first_chars zero (String.◌∷◌ c s) = ""
first_chars (suc n) (String.◌∷◌ c s) = String.◌∷◌ c (first_chars n s)
