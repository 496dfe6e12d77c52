-- ===== src/Webauth.antt =====
-- Authentication of the policy page, src/llmbus/webauth.py.
pub mod Credentials
use Prim.Native.String.{◌++◌}
use llmbus.Shared.{
  String, Bool, true, false, not, ◌||◌, ◌&&◌, Option, none, some, [], ◌∷◌, contains, ◌==◌,
  if◌then◌else◌,
}
use llmbus.Python.Exc.{Exc, raising, Ended, answered, failed}
use llmbus.Python.Texts.{Texts, Parts, partition, is_ascii}

-- `hmac.compare_digest` of two texts: it raises for one that is not ASCII.
unfoldable pub compare_digest : String → String → Ended Bool
unfolding is_ascii
compare_digest a b =
    if is_ascii a && is_ascii b
    then answered (a == b)
    else failed (raising "TypeError" "comparing strings with non-ASCII characters is not supported")

module _ {F : Type 0} (T : Texts F) where
  -- the decoded credentials: only the part after the first colon counts
  password_ok : String → Parts → Ended Bool
  password_ok secret (user, separator, password) =
      if separator then compare_digest password secret else answered false

  -- the `except` clause takes `binascii.Error` and `UnicodeDecodeError`
  decoded_ok : String → Ended String → Ended Bool
  unfolding password_ok
  decoded_ok secret (answered decoded) = password_ok secret (partition b':' decoded)
  decoded_ok secret (failed e) =
      if contains e.type_name ("Error" ∷ "UnicodeDecodeError" ∷ [])
      then answered false
      else failed e

  scheme_ok : String → Parts → Ended Bool
  unfolding decoded_ok
  scheme_ok secret (scheme, separator, remainder) =
      if not separator || not (T.lower scheme == "basic")
      then answered false
      else if T.strip remainder == ""
      then answered false
      else decoded_ok secret (T.b64decode (T.strip remainder))

  unfoldable pub basic_auth_ok : Option String → Option String → Ended Bool
  unfolding scheme_ok
  basic_auth_ok header none = answered false
  basic_auth_ok none (some secret) = answered false
  basic_auth_ok (some header) (some secret) = scheme_ok secret (partition b' ' header)

unfoldable pub origin_allowed : Option String → Option String → Bool
origin_allowed none host = true
origin_allowed (some origin) none = false
origin_allowed (some origin) (some host) =
    origin == ("http://" ++ host) || origin == ("https://" ++ host)
