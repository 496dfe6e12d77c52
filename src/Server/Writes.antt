-- ===== src/Server/Writes.antt =====
-- What a POST does to the store.
use Prim.Native.String.{◌++◌}
use mathlib.Core.Path.{subst}
use llmbus.Shared.{String, ◌≡◌, refl, Option, some, inl, inr, ◌⊎◌}
use llmbus.Python.Exc.{Ended, answered, failed}
use llmbus.Python.Texts.{Texts}
use llmbus.Python.Platform.{Platform}
use llmbus.Store.{Store, set_model_policy}
use llmbus.Server.{
  Response, Request, Checked, stop, pass, post_body, parse_policy_form, post_form, post_checked,
  do_post, page,
}
use llmbus.Server.Admission.{IsAdmitted, IsForm, post_body-IsAdmitted, parse_policy_form-IsForm}
use llmbus.Server.Refusals.{IsRefusal, Refuses, post_body-Refuses}

module _ (P : Platform) (T : Texts P.Float) where
  module _ (view : Store P → Option String → String) (stamp : P.Datetime) where
    -- A write of the store from `s` to `t` that answers `r`.
    pub record IsWrite (secret : Option String) (request : Request P T) (s : Store P) (r : Response)
        (t : Store P) : Type 0 where
      pub body : T.Bytes
      pub project : String
      pub kind : String
      pub model : String
      pub admitted : IsAdmitted P T secret request body
      pub form : IsForm P T (T.decode_replace body) project kind model
      pub written : t ≡ set_model_policy P project kind model stamp s
      pub response :
          r ≡ page 200 (view t (some (project ++ ("/" ++ (kind ++ (" now runs on " ++ model))))))

    abbrev pub WritesOrRefuses : Option String → Request P T → Store P → Response × Store P → Type 0
    WritesOrRefuses secret request s (r, t) = IsWrite secret request s r t ⊎ ((t ≡ s) × IsRefusal r)

    post_form_writes :
        (secret : Option String) (request : Request P T) (body : T.Bytes) (s : Store P)
        (o : Ended (String × String × String))
        → IsAdmitted P T secret request body
        → parse_policy_form P T (T.decode_replace body) ≡ o
        → WritesOrRefuses secret request s (post_form P T view stamp o s)
    unfolding post_form
    post_form_writes secret request body s (failed e) admitted h = inr (refl, refl)
    post_form_writes secret request body s (answered (project, kind, model)) admitted h =
        inl (record {
          body = body;
          project = project;
          kind = kind;
          model = model;
          admitted = admitted;
          form = parse_policy_form-IsForm P T (T.decode_replace body) project kind model h;
          written = refl;
          response = refl;
        })

    post_checked_writes :
        (secret : Option String) (request : Request P T) (s : Store P) (c : Checked T.Bytes)
        → post_body P T secret request ≡ c
        → WritesOrRefuses secret request s (post_checked P T view stamp c s)
    unfolding post_checked
    post_checked_writes secret request s (stop r) h =
        inr (refl, subst Refuses h (post_body-Refuses P T secret request))
    post_checked_writes secret request s (pass body) h =
        post_form_writes secret request body s _ (post_body-IsAdmitted P T secret request body h)
          refl

    -- Every POST either writes the store or refuses. It writes only for a request to the policy page
    -- with the credentials of the secret, from no other origin, whose body has the declared length of
    -- at most 4096 bytes and is a form with a project, a kind and a model of the registry; then the
    -- store is what setting that policy makes of it, and the answer is 200. Otherwise the store
    -- is as it was, and the answer is an error status, a challenge, the page with status 400, or none.
    pub do_post_writes :
        (secret : Option String) (request : Request P T) (s : Store P)
        → WritesOrRefuses secret request s (do_post P T view stamp secret request s)
    unfolding do_post
    do_post_writes secret request s = post_checked_writes secret request s _ refl
