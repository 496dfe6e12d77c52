-- ===== src/Html/Safe.antt =====
-- Escaped text cannot open or close anything in a page.
use Prim.Native.Char.{Char, code}
use Prim.Native.String.{◌++◌}
use Prim.Native.String.append
use llmbus.Shared.{String, ◌≡◌, refl, ap, ◌∙◌, Bool, true, false, ◌||◌, eqb, arith, if◌then◌else◌}
use llmbus.Html.{escape_char, esc}

-- The characters that end a text or the value of an attribute.
abbrev pub is_markup : Char → Bool
is_markup c = eqb (code c) b'<' || eqb (code c) b'>' || eqb (code c) b'"' || eqb (code c) b'\''

abbrev pub has_markup : String → Bool
has_markup String.[] = false
has_markup (String.◌∷◌ c s) = is_markup c || has_markup s

has_markup-append : (s t : String) → has_markup s ≡ false → has_markup (s ++ t) ≡ has_markup t
has_markup-append String.[] t h = ap has_markup (append.nil t)
has_markup-append (String.◌∷◌ c s) t h =
    ap has_markup (append.cons c s t) ∙ ground (arith, h, has_markup-append s t)

has_markup-if :
    (b : Bool) (s t : String)
    → has_markup s ≡ false
    → (b ≡ false → has_markup t ≡ false)
    → has_markup (if b then s else t) ≡ false
has_markup-if true s t h k = h
has_markup-if false s t h k = k refl

has_markup-escape_char : (c : Char) → has_markup (escape_char c) ≡ false
unfolding escape_char
has_markup-escape_char c = has_markup-if (eqb (code c) b'&') "&amp;" _ refl λ h1.
    has_markup-if (eqb (code c) b'<') "&lt;" _ refl λ h2.
      has_markup-if (eqb (code c) b'>') "&gt;" _ refl λ h3.
        has_markup-if (eqb (code c) b'"') "&quot;" _ refl
          λ h4. has_markup-if (eqb (code c) b'\'') "&#x27;" _ refl λ h5. rw (h2, h3, h4, h5) refl

-- No escaped text has a `<`, a `>` or a quotation mark.
pub has_markup-esc : (s : String) → has_markup (esc s) ≡ false
unfolding esc
has_markup-esc String.[] = refl
has_markup-esc (String.◌∷◌ c s) =
    has_markup-append (escape_char c) (esc s) (has_markup-escape_char c) ∙ has_markup-esc s
