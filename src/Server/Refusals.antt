-- ===== src/Server/Refusals.antt =====
-- The responses that a POST stops with.

use llmbus.Shared.{
  ℕ, ◌≤◌, String, ◌≡◌, Bool, true, false, not, Option, none, some, ltb, eqb, ◌==◌, arith,
}
use llmbus.Python.Exc.{Ended, answered, failed}
use llmbus.Python.Texts.{Texts}
use llmbus.Python.Platform.{Platform}
use llmbus.Webauth.{basic_auth_ok, origin_allowed}
use llmbus.Server.{
  Response, error, Request, Checked, stop, pass, ◌>>=◌, require, verdict, guard, sized,
  parse_content_length, max_form_bytes, policy_path, post_body, read_body, page, challenge, dropped,
  not_found, forbidden, too_large, truncated,
}

-- A response that says that nothing was done.
abbrev pub IsRefusal : Response → Type 0
IsRefusal (page status body) = status ≡ 400
IsRefusal (error status text) = 400 ≤ status
IsRefusal challenge = Unit
IsRefusal (dropped e) = Unit

-- A check that stops with a refusal, if it stops.
abbrev pub Refuses : {A : Type 0} → Checked A → Type 0
Refuses (stop r) = IsRefusal r
Refuses (pass a) = Unit

require-Refuses : (b : Bool) (r : Response) → IsRefusal r → Refuses (require b r)
require-Refuses true r h = tt
require-Refuses false r h = h

bind-Refuses :
    {A B : Type 0} (m : Checked A) (f : A → Checked B)
    → Refuses m
    → ((a : A) → Refuses (f a))
    → Refuses (m >>= f)
bind-Refuses (stop r) f h k = h
bind-Refuses (pass a) f h k = k a

module _ (P : Platform) (T : Texts P.Float) where
  verdict-Refuses : (o : Ended Bool) → Refuses (verdict P T o)
  unfolding verdict
  verdict-Refuses (answered true) = tt
  verdict-Refuses (answered false) = tt
  verdict-Refuses (failed e) = tt

  guard-Refuses : (secret authorization : Option String) → Refuses (guard P T secret authorization)
  unfolding guard
  guard-Refuses none authorization = omega arith
  guard-Refuses (some secret) authorization =
      verdict-Refuses (basic_auth_ok T authorization (some secret))

  sized-Refuses : (o : Ended ℕ) → Refuses (sized P T o)
  unfolding sized
  sized-Refuses (answered n) = tt
  sized-Refuses (failed e) = omega arith

  read_body-Refuses : (request : Request P T) (length : ℕ) → Refuses (read_body P T request length)
  unfolding read_body
  read_body-Refuses request length =
      bind-Refuses (require (not (ltb max_form_bytes length)) too_large) _
        (require-Refuses (not (ltb max_form_bytes length)) too_large (omega arith))
        λ _.
          bind-Refuses (require (eqb (T.byte_count (request.read length)) length) truncated) _
            (require-Refuses (eqb (T.byte_count (request.read length)) length) truncated
              (omega arith))
            λ _. tt

  pub post_body-Refuses :
      (secret : Option String) (request : Request P T) → Refuses (post_body P T secret request)
  unfolding post_body
  post_body-Refuses secret request =
      bind-Refuses (require (request.path == policy_path) not_found) _
        (require-Refuses (request.path == policy_path) not_found (omega arith))
        λ _.
          bind-Refuses (guard P T secret request.authorization) _
            (guard-Refuses secret request.authorization)
            λ _.
              bind-Refuses (require (origin_allowed request.origin request.host) forbidden) _
                (require-Refuses (origin_allowed request.origin request.host) forbidden
                  (omega arith))
                λ _.
                  bind-Refuses (sized P T (parse_content_length P T request.content_length)) _
                    (sized-Refuses (parse_content_length P T request.content_length))
                    λ length. read_body-Refuses request length
