-- ===== src/Server/Admission.antt =====
-- What a POST has to bring: the credentials, the framing and the form.

use llmbus.Shared.{
  ℕ, ◌≤◌, String, ◌≡◌, refl, ap, ◌∙◌, Bool, true, false, Option, none, some, lookup, ◌==◌, eq_iff,
  arith, if◌then◌else◌,
}
use llmbus.Python.Exc.{Exc, Ended, answered, failed}
use llmbus.Python.Texts.{Texts}
use llmbus.Python.Platform.{Platform}
use llmbus.Providers.{Capability, capabilities}
use llmbus.Webauth.{origin_allowed}
use llmbus.Webauth.Credentials.{Carries, basic_auth_ok-Carries}
use llmbus.Server.{
  Response, Request, Checked, stop, pass, ◌>>=◌, require, verdict, guard, sized,
  parse_content_length, max_form_bytes, policy_path, post_body, read_body, registered, form_of,
  form_value, parse_policy_form,
}

module _ {A : Type 0} where
  require-pass :
      (b : Bool) (r : Response) (m : Checked A) {a : A}
      → (require b r >>= λ _. m) ≡ pass a
      → (b ≡ true) × (m ≡ pass a)
  require-pass true r m h = (refl, h)
  require-pass false r m h = cc

  bind-pass :
      {B : Type 0} (m : Checked B) (f : B → Checked A) {a : A}
      → (m >>= f) ≡ pass a
      → (b : B) × (m ≡ pass b) × (f b ≡ pass a)
  bind-pass (stop r) f h = cc
  bind-pass (pass b) f h = (b, refl, h)

  filled-answered :
      (b : Bool) (e : Exc) (m : Ended A) {a : A}
      → (if b then failed e else m) ≡ answered a
      → (b ≡ false) × (m ≡ answered a)
  filled-answered true e m h = cc
  filled-answered false e m h = (refl, h)

module _ (P : Platform) (T : Texts P.Float) where
  -- A request that may write: to the policy page, with the credentials, from no other origin, with a
  -- body of at most 4096 bytes that is as long as it says.
  pub record IsAdmitted (secret : Option String) (request : Request P T) (body : T.Bytes)
      : Type 0 where
    pub header : String
    pub password : String
    pub length : ℕ
    pub path : request.path ≡ policy_path
    pub protected : secret ≡ some password
    pub carried : request.authorization ≡ some header
    pub credentials : Carries T password header
    pub origin : origin_allowed request.origin request.host ≡ true
    pub declared : parse_content_length P T request.content_length ≡ answered length
    pub bounded : length ≤ max_form_bytes
    pub whole : T.byte_count body ≡ length
    pub source : body ≡ request.read length

  verdict-pass : (o : Ended Bool) → verdict P T o ≡ pass tt → o ≡ answered true
  unfolding verdict
  verdict-pass (answered true) h = refl
  verdict-pass (answered false) h = cc
  verdict-pass (failed e) h = cc

  guard-pass :
      (secret authorization : Option String)
      → guard P T secret authorization ≡ pass tt
      → (h : String) × (s : String) × (authorization ≡ some h) × (secret ≡ some s) × Carries T s h
  unfolding guard
  guard-pass none authorization h = cc
  guard-pass (some secret) authorization h =
      basic_auth_ok-Carries T authorization (some secret) (verdict-pass _ h)

  sized-pass : (o : Ended ℕ) (n : ℕ) → sized P T o ≡ pass n → o ≡ answered n
  unfolding sized
  sized-pass (answered m) n h = cc
  sized-pass (failed e) n h = cc

  read_body-pass :
      (request : Request P T) (length : ℕ) (body : T.Bytes)
      → read_body P T request length ≡ pass body
      → (length ≤ max_form_bytes) × (T.byte_count body ≡ length) × (body ≡ request.read length)
  unfolding read_body
  read_body-pass request length body h = ground arith

  pub post_body-IsAdmitted :
      (secret : Option String) (request : Request P T) (body : T.Bytes)
      → post_body P T secret request ≡ pass body
      → IsAdmitted secret request body
  unfolding post_body
  post_body-IsAdmitted secret request body h =
      let (path, h1) = require-pass _ _ _ h in
      let (u, e2, h2) = bind-pass _ _ h1 in
      let (header, password, carried, protected, credentials) =
        guard-pass secret request.authorization e2 in
      let (origin, h3) = require-pass _ _ _ h2 in
      let (length, e4, h4) = bind-pass _ _ h3 in
      let (bounded, whole, source) = read_body-pass request length body h4 in
      record {
        header = header;
        password = password;
        length = length;
        path = (eq_iff request.path policy_path).0 path;
        protected = protected;
        carried = carried;
        credentials = credentials;
        origin = origin;
        declared = sized-pass _ length e4;
        bounded = bounded;
        whole = whole;
        source = source;
      }

  -- A form whose three fields are filled in, for a model of the registry.
  pub record IsForm (body project kind model : String) : Type 0 where
    pub project_field : project ≡ form_value P T "project" (T.parse_qs body)
    pub kind_field : kind ≡ form_value P T "kind" (T.parse_qs body)
    pub model_field : model ≡ form_value P T "model" (T.parse_qs body)
    pub has_project : (project == "") ≡ false
    pub has_kind : (kind == "") ≡ false
    pub has_model : (model == "") ≡ false
    pub capability : Capability
    pub is_registered : lookup model capabilities ≡ some capability

  registered-answered :
      {C : Type 0} (project kind model : String) (o : Option C) {form : String × String × String}
      → registered P T project kind model o ≡ answered form
      → (form ≡ (project, kind, model)) × ((c : C) × (o ≡ some c))
  unfolding registered
  registered-answered project kind model none h = cc
  registered-answered project kind model (some c) {form} h = (cc, (c, refl))

  pub parse_policy_form-IsForm :
      (body project kind model : String)
      → parse_policy_form P T body ≡ answered (project, kind, model)
      → IsForm body project kind model
  unfolding parse_policy_form form_of
  parse_policy_form-IsForm body project kind model h =
      let fields = T.parse_qs body in
      let (has_project, h1) = filled-answered (form_value P T "project" fields == "") _ _ h in
      let (has_kind, h2) = filled-answered (form_value P T "kind" fields == "") _ _ h1 in
      let (has_model, h3) = filled-answered (form_value P T "model" fields == "") _ _ h2 in
      let (same, (capability, is_registered)) = registered-answered _ _ _ _ h3 in
      let e1 = ap (λ form. form.0) same in
      let e2 = ap (λ form. form.1) same in
      let e3 = ap (λ form. form.2) same in
      record {
        project_field = e1;
        kind_field = e2;
        model_field = e3;
        has_project = rw e1 has_project;
        has_kind = rw e2 has_kind;
        has_model = rw e3 has_model;
        capability = capability;
        is_registered = ap (λ m. lookup m capabilities) e3 ∙ is_registered;
      }
