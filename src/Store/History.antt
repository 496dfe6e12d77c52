-- ===== src/Store/History.antt =====
-- Every history of the store: whatever the producers and the worker write, in whatever order, a row
-- only ever moves from waiting to terminal.
use llmbus.Shared.{
  String, ◌≡◌, refl, sym, ap, ◌∙◌, Bool, true, false, Option, none, some, ◌==◌, if◌then◌else◌,
  Bool-cases, inl, inr,
}
use mathlib.Core.Bool.{false≢true}
use llmbus.Python.Platform.{Platform, TextLaws}
use llmbus.Schema.{Job, Result}
use llmbus.Store.Rows.{StoredJob, is_terminal}
use llmbus.Store.{
  Store, insert_pending, finalize, set_model_policy, publish_worker_policy, get, read_row, job_key,
}
use llmbus.Store.Published.{jobs-publish}
use llmbus.Sql.{find}
use llmbus.Sql.Keyed.{IsKeyed}
use llmbus.Retry.{WorkerPolicy}
use mathlib.Core.Path.{subst}
use llmbus.Store.Jobs.{
  IsValid, submitted, completed_once, first_of, get-insert_pending, get-finalize,
  insert_pending-IsValid, finalize-IsValid,
}

module _ (P : Platform) where
  -- One write to the store.
  pub data Write : Store P → Store P → Type 0 where
    insert :
        {s : Store P} (job : Job P) (model : String)
        → job.model ≡ some model
        → Write s (insert_pending P job s).1
    finish :
        {s : Store P} (result : Result P) (when : P.Datetime) → Write s (finalize P result when s).1
    choose :
        {s : Store P} (project kind model : String) (stamp : P.Datetime)
        → Write s (set_model_policy P project kind model stamp s)
    publish :
        {s : Store P} (policy : WorkerPolicy P) (stamp : P.Datetime)
        → Write s (publish_worker_policy P policy stamp s).1

  pub data Writes (s : Store P) : Store P → Type 0 where
    here : Writes s s
    next : {t u : Store P} → Writes s t → Write t u → Writes s u

  -- A terminal row is never touched again.
  abbrev Settled : Bool → StoredJob P → StoredJob P → Type 0
  Settled true a b = b ≡ a
  Settled false a b = Unit

  -- What a later state of the store may show for a job id.
  abbrev pub Grows : Option (StoredJob P) → Option (StoredJob P) → Type 0
  Grows none o = Unit
  Grows (some a) none = ⊥
  Grows (some a) (some b) =
      (b.job_id ≡ a.job_id)
      × (b.project ≡ a.project)
      × (b.model ≡ a.model)
      × (b.meta ≡ a.meta)
      × (b.submitted_at ≡ a.submitted_at)
      × Settled (is_terminal P a) a b

  choose-IsValid :
      (project kind model : String) (stamp : P.Datetime) (s : Store P)
      → IsValid P s
      → IsValid P (set_model_policy P project kind model stamp s)
  unfolding set_model_policy
  choose-IsValid project kind model stamp s h = h

  get-choose :
      (project kind model : String) (stamp : P.Datetime) (j : String) (s : Store P)
      → get P j (set_model_policy P project kind model stamp s) ≡ get P j s
  unfolding set_model_policy get
  get-choose project kind model stamp j s = refl

  get-publish :
      (policy : WorkerPolicy P) (stamp : P.Datetime) (j : String) (s : Store P)
      → get P j (publish_worker_policy P policy stamp s).1 ≡ get P j s
  unfolding get
  get-publish policy stamp j s =
      ap (λ jobs. read_row P (find (job_key P) j jobs)) (jobs-publish P policy stamp s)

  Settled-refl : (c : Bool) (a : StoredJob P) → Settled c a a
  Settled-refl true a = refl
  Settled-refl false a = tt

  Grows-refl : (o : Option (StoredJob P)) → Grows o o
  Grows-refl none = tt
  Grows-refl (some a) = (refl, refl, refl, refl, refl, Settled-refl (is_terminal P a) a)

  Grows-first_of :
      (o : Option (StoredJob P)) (new : StoredJob P) → Grows o (some (first_of P o new))
  Grows-first_of none new = tt
  Grows-first_of (some a) new = Grows-refl (some a)

  Grows-completed_once :
      (result : Result P) (when : P.Datetime) (o : Option (StoredJob P))
      → Grows o (completed_once P result when o)
  Grows-completed_once result when none = tt
  Grows-completed_once result when (some a) = elim (Bool-cases (is_terminal P a)) [
    | inl done ↦ rw done (Grows-refl (some a))
    | inr waits ↦ rw waits (refl, refl, refl, refl, refl, rw waits tt)
  ]

  Grows-if :
      (c : Bool) (o a b : Option (StoredJob P))
      → Grows o a
      → Grows o b
      → Grows o (if c then a else b)
  Grows-if true o a b h k = h
  Grows-if false o a b h k = k

  Settled-trans :
      (ta tb : Bool) (a b c : StoredJob P)
      → ta ≡ is_terminal P a
      → tb ≡ is_terminal P b
      → Settled ta a b
      → Settled tb b c
      → Settled ta a c
  Settled-trans false tb a b c ea eb h k = tt
  Settled-trans true true a b c ea eb h k = k ∙ h
  Settled-trans true false a b c ea eb h k =
      absurd (false≢true (eb ∙ ap (is_terminal P) h ∙ sym ea))

  Grows-trans : (o p q : Option (StoredJob P)) → Grows o p → Grows p q → Grows o q
  Grows-trans none p q h k = tt
  Grows-trans (some a) none q h k = absurd h
  Grows-trans (some a) (some b) none h k = absurd k
  Grows-trans (some a) (some b) (some c) h k = (
    k.0 ∙ h.0,
    k.1 ∙ h.1,
    k.2 ∙ h.2,
    k.3 ∙ h.3,
    k.4 ∙ h.4,
    Settled-trans (is_terminal P a) (is_terminal P b) a b c refl refl h.5 k.5,
  )

  pub Write-IsValid : {s t : Store P} → Write s t → IsValid P s → IsValid P t
  Write-IsValid {s} (insert job model e) h = insert_pending-IsValid P job s h
  Write-IsValid {s} (finish result when) h = finalize-IsValid P result when s h
  Write-IsValid {s} (choose project kind model stamp) h =
      choose-IsValid project kind model stamp s h
  Write-IsValid {s} (publish policy stamp) h =
      subst (λ jobs. IsKeyed (job_key P) jobs) (sym (jobs-publish P policy stamp s)) h

  -- One write only lets a row grow.
  pub Write-Grows :
      {s t : Store P} (laws : TextLaws P) (j : String)
      → Write s t
      → IsValid P s
      → Grows (get P j s) (get P j t)
  Write-Grows {s} laws j (insert job model e) h =
      rw ((get-insert_pending P laws job model j s e).1) (
        Grows-if (j == job.job_id) (get P j s)
          (some (first_of P (get P j s) (submitted P job model))) (get P j s)
          (Grows-first_of (get P j s) (submitted P job model)) (Grows-refl (get P j s)))
  Write-Grows {s} laws j (finish result when) h = rw ((get-finalize P laws result when j s h).1) (
      Grows-if (j == result.job_id) (get P j s) (completed_once P result when (get P j s))
        (get P j s) (Grows-completed_once result when (get P j s)) (Grows-refl (get P j s)))
  Write-Grows {s} laws j (choose project kind model stamp) h =
      rw (get-choose project kind model stamp j s) (Grows-refl (get P j s))
  Write-Grows {s} laws j (publish policy stamp) h =
      rw (get-publish policy stamp j s) (Grows-refl (get P j s))

  pub Writes-IsValid : {s t : Store P} → Writes s t → IsValid P s → IsValid P t
  Writes-IsValid here h = h
  Writes-IsValid (next before last) h = Write-IsValid last (Writes-IsValid before h)

  -- From a store whose primary key holds, after any sequence of inserts, results, policy changes
  -- and worker boots, a row that was there is still there with its project, model, meta and submission
  -- time, and a row that was terminal is unchanged.
  pub Writes-Grows :
      {s t : Store P} (laws : TextLaws P) (j : String)
      → Writes s t
      → IsValid P s
      → Grows (get P j s) (get P j t)
  Writes-Grows {s} laws j here h = Grows-refl (get P j s)
  Writes-Grows {s} {t} laws j (next {t = m} before last) h =
      Grows-trans (get P j s) (get P j m) (get P j t) (Writes-Grows laws j before h)
        (Write-Grows laws j last (Writes-IsValid before h))
