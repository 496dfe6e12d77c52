-- ===== src/Store/Connection/Creating.antt =====
-- How the schema script of src/llmbus/store.py leaves the tables of a database.

use llmbus.Shared.{ℕ, ◌-◌, arith, ◌≡◌, refl, ap, ◌+◌, Option, none, some, []}
use llmbus.Python.Exc.{Exc, Ended, answered, failed}
use llmbus.Python.Platform.{Platform}
use llmbus.Python.Hoare.{Hoare, Hoare-bind}
use llmbus.Store.Rows.{fitting}
use llmbus.Store.Connection.{
  Driver, attempt, Tables, or_new, shown, stored, add_jobs, add_worker_policy, add_model_policy,
  run_schema,
}

pub one_more_less : (n : ℕ) → n ≡ n + 1 - 1
one_more_less n = omega arith

-- What was there is there.
abbrev pub Kept : {A : Type 0} → Option A → Option A → Type 0
Kept none new = Unit
Kept (some x) new = new ≡ some x

pub Kept-refl : {A : Type 0} (old : Option A) → Kept old old
Kept-refl none = tt
Kept-refl (some x) = refl

pub Kept-or_new : {A : Type 0} (new : A) (old : Option A) → Kept old (some (or_new new old))
Kept-or_new new none = tt
Kept-or_new new (some x) = refl

-- A call that changes nothing.
pub Hoare-attempt :
    {S A : Type 0} {pre : S → Type 0} {fail : Exc → S → Type 0} (o : Ended A)
    → ((e : Exc) (s : S) → o ≡ failed e → pre s → fail e s)
    → Hoare pre (attempt o) (λ _ s. pre s) fail
Hoare-attempt (answered a) f = record { at = λ s h. h }
Hoare-attempt (failed e) f = record { at = λ s h. f e s refl h }

-- A call of `connect` that failed with this exception.
pub data Fails (driver : Driver) (e : Exc) : Type 0 where
  make_parent : driver.make_parent ≡ failed e → Fails driver e
  connects : driver.connects ≡ failed e → Fails driver e
  journal_mode : driver.journal_mode ≡ failed e → Fails driver e
  busy_timeout : driver.busy_timeout ≡ failed e → Fails driver e
  create_jobs : driver.create_jobs ≡ failed e → Fails driver e
  create_index : driver.create_index ≡ failed e → Fails driver e
  create_worker_policy : driver.create_worker_policy ≡ failed e → Fails driver e
  create_model_policy : driver.create_model_policy ≡ failed e → Fails driver e
  commits : driver.commits ≡ failed e → Fails driver e

module _ (P : Platform) where
  -- The tables that were there have the rows they had.
  abbrev pub KeptAll : Tables P → Tables P → Type 0
  KeptAll old new =
      Kept old.jobs new.jobs
      × Kept old.worker_policy new.worker_policy
      × Kept old.model_policies new.model_policies

  pub KeptAll-refl : (t : Tables P) → KeptAll t t
  KeptAll-refl t = (Kept-refl t.jobs, Kept-refl t.worker_policy, Kept-refl t.model_policies)

  module _ (driver : Driver) where
    module _ (t : Tables P) where
      abbrev with_jobs : Tables P
      with_jobs = record t { jobs = some (or_new [] t.jobs) }

      abbrev with_worker : Tables P
      with_worker = record with_jobs {
        worker_policy = some (or_new (fitting none) t.worker_policy);
      }

      kept : (u x : Tables P) → x ≡ u → KeptAll t u → KeptAll t x
      kept u x h k = rw h k

      kept_jobs : KeptAll t with_jobs
      kept_jobs = (Kept-or_new [] t.jobs, Kept-refl t.worker_policy, Kept-refl t.model_policies)

      kept_worker : KeptAll t with_worker
      kept_worker = (
        Kept-or_new [] t.jobs,
        Kept-or_new (fitting none) t.worker_policy,
        Kept-refl t.model_policies,
      )

      pub Hoare-run_schema :
          Hoare
            (λ x. x ≡ t)
            (run_schema P driver)
            (λ _ x. x ≡ stored P (shown P t))
            (λ e x. Fails driver e × KeptAll t x)
      unfolding run_schema
      Hoare-run_schema =
          Hoare-bind _ _ _
            (Hoare-attempt driver.create_jobs
              (λ e x why h. (Fails.create_jobs why, kept t x h (KeptAll-refl t))))
            λ _.
              Hoare-bind (λ _ x. x ≡ with_jobs) (add_jobs P) _
                (record {
                  at = λ x h. ap (λ (y : Tables P). record y { jobs = some (or_new [] y.jobs) }) h;
                })
                λ _.
                  Hoare-bind _ _ _
                    (Hoare-attempt driver.create_index
                      (λ e x why h. (Fails.create_index why, kept with_jobs x h kept_jobs)))
                    λ _.
                      Hoare-bind _ _ _
                        (Hoare-attempt driver.create_worker_policy (λ e x why h.
                          (Fails.create_worker_policy why, kept with_jobs x h kept_jobs)))
                        λ _.
                          Hoare-bind (λ _ x. x ≡ with_worker) (add_worker_policy P) _
                            (record {
                              at = λ x h.
                                  ap
                                    (λ (y : Tables P). record y {
                                      worker_policy = some (or_new (fitting none) y.worker_policy);
                                    })
                                    h;
                            })
                            λ _.
                              Hoare-bind _ _ (λ _. add_model_policy P)
                                (Hoare-attempt driver.create_model_policy (λ e x why h. (
                                  Fails.create_model_policy why,
                                  kept with_worker x h kept_worker,
                                )))
                                λ _. record {
                                  at = λ x h.
                                      ap
                                        (λ (y : Tables P). record y {
                                          model_policies = some (or_new [] y.model_policies);
                                        })
                                        h;
                                }
