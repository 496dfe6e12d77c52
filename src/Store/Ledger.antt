-- ===== src/Store/Ledger.antt =====
-- What the store promises, without tables: a map of job ids to what a reader sees, a map of projects and
-- kinds to their policies, and the operations on both.
use llmbus.Shared.{
  String, ◌≡◌, refl, ap, ◌∙◌, Bool, ◌&&◌, Option, none, some, List, [], ◌∷◌, ◌==◌, if◌then◌else◌,
  Option-cases, inl, inr,
}
use llmbus.Python.Exc.{Fallible, returned, raised}
use llmbus.Python.Platform.{Platform, TextLaws}
use llmbus.Schema.{Job, Result}
use llmbus.Store.Rows.{StoredJob, ModelPolicy}
use llmbus.Store.{
  Store, insert_row, insert_pending, finalize, set_model_policy, model_policy, get, not_null_error,
}
use llmbus.Store.Jobs.{
  IsValid, submitted, completed_once, first_of, is_none, is_waiting, get-insert_pending,
  get-finalize, insert_pending-IsValid, finalize-IsValid,
}
use llmbus.Store.Policies.{model_policy-set}

module _ (P : Platform) where
  pub record Ledger : Type 0 where
    pub jobs : String → Option (StoredJob P)
    pub policies : String → String → Option (ModelPolicy P)

  -- what a client asks of the store
  pub data Request : Type 0 where
    insert : Job P → Request
    finish : Result P → P.Datetime → Request
    choose : (project kind model : String) → P.Datetime → Request
    read_job : String → Request
    read_policy : (project kind : String) → Request

  -- and what it is told
  pub data Answer : Type 0 where
    told : Fallible Bool → Answer
    done : Answer
    job_seen : Option (StoredJob P) → Answer
    policy_seen : Option (ModelPolicy P) → Answer

  -- the store's methods
  abbrev pub serve : Request → Store P → Answer × Store P
  serve (insert job) s = let (r, t) = insert_pending P job s in (told r, t)
  serve (finish result when) s = let (r, t) = finalize P result when s in (told r, t)
  serve (choose project kind model stamp) s = (done, set_model_policy P project kind model stamp s)
  serve (read_job job_id) s = (job_seen (get P job_id s), s)
  serve (read_policy project kind) s = (policy_seen (model_policy P project kind s), s)

  -- an insert of a job whose model is given
  abbrev promise_insert : Job P → Option String → Ledger → Answer × Ledger
  promise_insert job none l = (told (raised (not_null_error P)), l)
  promise_insert job (some model) l = (
    told (returned (is_none P (l.jobs job.job_id))),
    record l {
      jobs = λ j.
          if j == job.job_id
          then some (first_of P (l.jobs j) (submitted P job model))
          else l.jobs j;
    },
  )

  -- what they promise
  abbrev pub promise : Request → Ledger → Answer × Ledger
  promise (insert job) l = promise_insert job job.model l
  promise (finish result when) l = (
    told (returned (is_waiting P (l.jobs result.job_id))),
    record l {
      jobs = λ j. if j == result.job_id then completed_once P result when (l.jobs j) else l.jobs j;
    },
  )
  promise (choose project kind model stamp) l = (
    done,
    record l {
      policies = λ q k.
          if project == q && kind == k
          then some (record { project = project; kind = kind; model = model; updated_at = stamp })
          else l.policies q k;
    },
  )
  promise (read_job job_id) l = (job_seen (l.jobs job_id), l)
  promise (read_policy project kind) l = (policy_seen (l.policies project kind), l)

  -- Any sequence of requests, with all the answers.
  abbrev pub serve_all : List Request → Store P → List Answer × Store P
  serve_all [] s = ([], s)
  serve_all (q ∷ qs) s =
      let (a, t) = serve q s in let (answers, u) = serve_all qs t in (a ∷ answers, u)

  abbrev pub promise_all : List Request → Ledger → List Answer × Ledger
  promise_all [] l = ([], l)
  promise_all (q ∷ qs) l =
      let (a, m) = promise q l in let (answers, n) = promise_all qs m in (a ∷ answers, n)

  -- what the readers see
  abbrev pub ledger_of : Store P → Ledger
  ledger_of s = record {
    jobs = λ j. get P j s;
    policies = λ project kind. model_policy P project kind s;
  }

  abbrev seen_of : {A : Type 0} → A × Store P → A × Ledger
  seen_of (a, s) = (a, ledger_of s)

  policies-insert :
      (job : Job P) (q k : String) (s : Store P)
      → model_policy P q k (insert_pending P job s).1 ≡ model_policy P q k s
  unfolding insert_pending insert_row model_policy
  policies-insert job q k s = elim (Option-cases job.model) [
    | inl unset ↦ rw (unset, insert_pending) refl
    | inr (model, e) ↦ rw (e, insert_pending) refl
  ]

  policies-finalize :
      (result : Result P) (when : P.Datetime) (q k : String) (s : Store P)
      → model_policy P q k (finalize P result when s).1 ≡ model_policy P q k s
  unfolding finalize model_policy
  policies-finalize result when q k s = refl

  jobs-choose :
      (project kind model : String) (stamp : P.Datetime) (j : String) (s : Store P)
      → get P j (set_model_policy P project kind model stamp s) ≡ get P j s
  unfolding set_model_policy get
  jobs-choose project kind model stamp j s = refl

  -- Two answers with their ledgers are equal if the answers and all that is seen are.
  same :
      {a b : Answer} {l m : Ledger}
      → a ≡ b
      → ((j : String) → l.jobs j ≡ m.jobs j)
      → ((q k : String) → l.policies q k ≡ m.policies q k)
      → Path (Answer × Ledger) (a, l) (b, m)
  same e h g = λ i. (e i, record { jobs = λ j. h j i; policies = λ q k. g q k i })

  serve_insert :
      (laws : TextLaws P) (job : Job P) (model : Option String) (s : Store P)
      → job.model ≡ model
      → seen_of (serve (insert job) s) ≡ promise_insert job model (ledger_of s)
  unfolding insert_pending
  serve_insert laws job none s e =
      same (rw (e, insert_pending) refl) (λ j. rw (e, insert_pending) refl)
        (λ q k. policies-insert job q k s)
  serve_insert laws job (some model) s e =
      same (ap told (get-insert_pending P laws job model job.job_id s e).0)
        (λ j. (get-insert_pending P laws job model j s e).1) (λ q k. policies-insert job q k s)

  -- One request: the store answers as promised, and what it shows afterwards is as promised.
  serve-promise :
      (laws : TextLaws P) (q : Request) (s : Store P)
      → IsValid P s
      → seen_of (serve q s) ≡ promise q (ledger_of s)
  serve-promise laws (insert job) s h = serve_insert laws job job.model s refl
  serve-promise laws (finish result when) s h =
      same (ap told (get-finalize P laws result when result.job_id s h).0)
        (λ j. (get-finalize P laws result when j s h).1)
        (λ q k. policies-finalize result when q k s)
  serve-promise laws (choose project kind model stamp) s h =
      same refl (λ j. jobs-choose project kind model stamp j s)
        (λ q k. model_policy-set P laws project kind model stamp q k s)
  serve-promise laws (read_job job_id) s h = refl
  serve-promise laws (read_policy project kind) s h = refl

  choose-IsValid :
      (project kind model : String) (stamp : P.Datetime) (s : Store P)
      → IsValid P s
      → IsValid P (set_model_policy P project kind model stamp s)
  unfolding set_model_policy
  choose-IsValid project kind model stamp s h = h

  serve-IsValid : (q : Request) (s : Store P) → IsValid P s → IsValid P (serve q s).1
  serve-IsValid (insert job) s h = insert_pending-IsValid P job s h
  serve-IsValid (finish result when) s h = finalize-IsValid P result when s h
  serve-IsValid (choose project kind model stamp) s h = choose-IsValid project kind model stamp s h
  serve-IsValid (read_job job_id) s h = h
  serve-IsValid (read_policy project kind) s h = h

  -- For a store whose primary key holds, any sequence of inserts, results, policy changes and reads gets
  -- the answers that the map promises, and leaves what the map shows.
  pub serve_refines :
      (laws : TextLaws P) (qs : List Request) (s : Store P)
      → IsValid P s
      → ((serve_all qs s).0 ≡ (promise_all qs (ledger_of s)).0)
        × (ledger_of (serve_all qs s).1 ≡ (promise_all qs (ledger_of s)).1)
  serve_refines laws [] s h = (refl, refl)
  serve_refines laws (q ∷ qs) s h =
      let step = serve-promise laws q s h in
      let rest = serve_refines laws qs (serve q s).1 (serve-IsValid q s h) in
      (
        ap (λ answers. (serve q s).0 ∷ answers) rest.0
            ∙ ap (λ (x : Answer × Ledger). x.0 ∷ (promise_all qs x.1).0) step,
        rest.1 ∙ ap (λ (x : Answer × Ledger). (promise_all qs x.1).1) step,
      )
