-- ===== src/Server.antt =====
-- The HTTP handler of src/llmbus/server.py, on requests whose headers are parsed: what it answers,
-- and what it does to the store.
pub mod Admission
pub mod Refusals
pub mod Writes
pub mod InForce
pub mod Views
use Prim.Native.String.{◌++◌}
use llmbus.Shared.{
  ℕ, String, Bool, true, false, not, Option, none, some, List, [], ◌∷◌, lookup, contains, ltb, eqb,
  ◌==◌, if◌then◌else◌,
}
use llmbus.Shared.Int.{ℤ, pos, negsuc}
use llmbus.Python.Exc.{Exc, raising, Ended, answered, failed}
use llmbus.Python.Texts.{Texts, FormValues}
use llmbus.Python.Platform.{Platform}
use llmbus.Schema.Checks.{value_error}
use llmbus.Providers.{capabilities}
use llmbus.Store.{Store, set_model_policy, list_model_policies}
use llmbus.PolicyPage.{render_policy_page}
use llmbus.Webauth.{basic_auth_ok, origin_allowed}

-- What goes back: a page, an error page, the challenge for credentials, or nothing, where an
-- exception left the handler.
pub data Response : Type 0 where
  page error : (status : ℕ) → String → Response
  challenge : Response
  dropped : Exc → Response

-- A check of a request either stops it with a response or lets it pass.
pub data Checked (A : Type 0) : Type 0 where
  stop : Response → Checked A
  pass : A → Checked A

infixl 5 ◌>>=◌ ◌>>◌
abbrev pub ◌>>=◌ : {A B : Type 0} → Checked A → (A → Checked B) → Checked B
stop r >>= f = stop r
pass a >>= f = f a

abbrev pub ◌>>◌ : {A B : Type 0} → Checked A → Checked B → Checked B
m >> n = m >>= λ _. n

abbrev pub require : Bool → Response → Checked (Unit {0})
require true r = pass tt
require false r = stop r

abbrev pub max_form_bytes : ℕ
max_form_bytes = 4096

abbrev pub policy_path : String
policy_path = "/policy"

abbrev pub not_found : Response
not_found = error 404 "no such page"

abbrev pub forbidden : Response
forbidden = error 403 "cross-origin write refused"

abbrev pub too_large : Response
too_large = error 413 "form too large"

abbrev pub truncated : Response
truncated = error 400 "truncated request body"

module _ (P : Platform) (T : Texts P.Float) where
  pub record Request : Type 0 where
    pub path : String
    pub authorization : Option String
    pub origin : Option String
    pub host : Option String
    pub content_length : Option String
    -- what `rfile.read(n)` gives
    pub read : ℕ → T.Bytes

  -- `parse_content_length`
  length_of : Option ℤ → String → Ended ℕ
  length_of none raw =
      failed (value_error ("invalid literal for int() with base 10: " ++ P.repr raw))
  length_of (some (pos n)) raw = answered n
  length_of (some (negsuc n)) raw =
      failed (value_error ("negative Content-Length " ++ T.repr_int (negsuc n)))

  unfoldable pub parse_content_length : Option String → Ended ℕ
  unfolding length_of
  parse_content_length none = answered 0
  parse_content_length (some raw) = length_of (T.int_of raw) raw

  -- `fields.get(name, [""])[0].strip()`
  abbrev first_value : Option FormValues → String
  first_value none = ""
  first_value (some values) = values.first

  abbrev pub form_value : String → List (String × FormValues) → String
  form_value name fields = T.strip (first_value (lookup name fields))

  abbrev missing : String → Exc
  missing name = value_error ("missing required field " ++ P.repr name)

  -- `if model not in CAPABILITIES`
  registered : {C : Type 0} → String → String → String → Option C → Ended (String × String × String)
  registered project kind model none =
      failed (value_error ("model " ++ (P.repr model ++ " is not registered with the bus")))
  registered project kind model (some served) = answered (project, kind, model)

  form_of : String → String → String → Ended (String × String × String)
  unfolding registered
  form_of project kind model =
      if project == ""
      then failed (missing "project")
      else if kind == ""
      then failed (missing "kind")
      else if model == ""
      then failed (missing "model")
      else registered project kind model (lookup model capabilities)

  unfoldable pub parse_policy_form : String → Ended (String × String × String)
  unfolding form_of
  parse_policy_form body =
      let fields = T.parse_qs body in
      form_of (form_value "project" fields) (form_value "kind" fields) (form_value "model" fields)

  verdict : Ended Bool → Checked (Unit {0})
  verdict (answered true) = pass tt
  verdict (answered false) = stop challenge
  verdict (failed e) = stop (dropped e)

  -- `_guard`
  unfoldable pub guard : Option String → Option String → Checked (Unit {0})
  unfolding verdict
  guard none authorization = stop (error 503 "policy page disabled: COSTS_AUTH_SECRET is not set")
  guard (some secret) authorization = verdict (basic_auth_ok T authorization (some secret))

  sized : Ended ℕ → Checked ℕ
  sized (answered n) = pass n
  sized (failed e) = stop (error 400 "malformed Content-Length")

  -- a body of the declared length
  read_body : Request → ℕ → Checked T.Bytes
  read_body request length = do
    require (not (ltb max_form_bytes length)) too_large
    require (eqb (T.byte_count (request.read length)) length) truncated
    pass (request.read length)

  -- `do_POST` up to the body
  unfoldable pub post_body : Option String → Request → Checked T.Bytes
  unfolding guard sized read_body
  post_body secret request = do
    require (request.path == policy_path) not_found
    guard secret request.authorization
    require (origin_allowed request.origin request.host) forbidden
    length ← sized (parse_content_length request.content_length)
    read_body request length

  module _ (view : Store P → Option String → String) (stamp : P.Datetime) where
    post_form : Ended (String × String × String) → Store P → Response × Store P
    post_form (failed e) s = (page 400 (view s (some e.message)), s)
    post_form (answered (project, kind, model)) s =
        let t = set_model_policy P project kind model stamp s in
        (page 200 (view t (some (project ++ ("/" ++ (kind ++ (" now runs on " ++ model)))))), t)

    post_checked : Checked T.Bytes → Store P → Response × Store P
    unfolding post_form
    post_checked (stop r) s = (r, s)
    post_checked (pass body) s = post_form (parse_policy_form (T.decode_replace body)) s

    -- `do_POST`, with the rendering of the policy page and the moment of the write
    unfoldable pub do_post : Option String → Request → Store P → Response × Store P
    unfolding post_checked post_body
    do_post secret request s = post_checked (post_body secret request) s

    get_policy : Checked (Unit {0}) → Store P → Response
    get_policy (stop r) s = r
    get_policy (pass _) s = page 200 (view s none)

    -- `do_GET`, with the rendering of the ledger; it only reads the store
    unfoldable pub do_get : (Store P → String) → Option String → Request → Store P → Response
    unfolding get_policy
    do_get ledger secret request s =
        if contains request.path ("/" ∷ "/index.html" ∷ [])
        then page 200 (ledger s)
        else if request.path == policy_path
        then get_policy (guard secret request.authorization) s
        else not_found

  -- `render_policy_view` over the rows as they are now
  unfoldable pub render_policy_view :
      String → (ℕ → String) → P.Datetime → Store P → Option String → String
  render_policy_view style decimal generated_at s notice =
      render_policy_page P style decimal (list_model_policies P s) generated_at notice
