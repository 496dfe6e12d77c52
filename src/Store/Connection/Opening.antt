-- ===== src/Store/Connection/Opening.antt =====
-- How `connect` of src/llmbus/store.py ends: (connected s), or refused with nothing lost.
use mathlib.Core.Path.{subst}
use llmbus.Shared.{
  ◌≡◌, refl, sym, ap, ◌∙◌, ◌+◌, Option, none, some, [], if◌then◌else◌, Bool-cases, inl, inr,
}
use llmbus.Python.Exc.{Exc, Fallible, returned, raised, out_of_fuel, Ended, answered, failed}
use llmbus.Python.Platform.{Platform}
use llmbus.Python.Hoare.{Ends, Hoare, Hoare-bind}
use llmbus.Store.Rows.{fitting}
use llmbus.Store.{Store}
use llmbus.Store.Connection.{
  Driver, Tables, shown, stored, Handle, in_memory, found_tables, tables_after, run_schema,
  make_directory, open_db, create_schema, set_db, connect, close,
}
use llmbus.Store.Connection.Creating.{
  Kept-or_new, Hoare-attempt, Fails, KeptAll, KeptAll-refl, Hoare-run_schema,
}

module _ (P : Platform) where
  module _ (s : Handle P) where
    abbrev opened : Handle P
    opened = record s { open_connections = s.open_connections + 1 }

    -- what a connection that opened sees
    abbrev pub seen : Store P
    seen = shown P (found_tables P s)

    abbrev pub disk_with : Store P → Tables P
    disk_with t = if in_memory P s then s.disk else stored P t

    abbrev scripted : Handle P
    scripted = record opened { disk = disk_with seen }

    abbrev pub connected : Handle P
    connected = record scripted { db = some seen }

    -- The handle as it was, with no table lost on disk.
    abbrev pub Same : Handle P → Type 0
    Same x = (x.path ≡ s.path) × (x.db ≡ s.db) × KeptAll P s.disk x.disk

    Same-start : (x : Handle P) → x ≡ s → Same x
    Same-start x h = rw h (refl, refl, KeptAll-refl P s.disk)

    Same-opened : (x : Handle P) → x ≡ opened → Same x
    Same-opened x h = rw h (refl, refl, KeptAll-refl P s.disk)

    -- Every table that is on disk has its rows when all tables are stored.
    KeptAll-disk_with : KeptAll P s.disk (disk_with seen)
    KeptAll-disk_with = elim (Bool-cases (in_memory P s)) [
      | inl memory ↦ rw memory (KeptAll-refl P s.disk)
      | inr file ↦ rw file (
        Kept-or_new [] s.disk.jobs,
        Kept-or_new (fitting none) s.disk.worker_policy,
        Kept-or_new [] s.disk.model_policies,
      )
    ]

    Same-scripted : (t : Tables P) (x : Handle P) → (t ≡ stored P seen) × (x ≡ scripted) → Same x
    Same-scripted t x h = rw h.1 (refl, refl, KeptAll-disk_with)

  module _ (driver : Driver) where
    module _ (s : Handle P) where
      -- A connection that did not open, and why.
      abbrev pub Refused : Exc → Handle P → Type 0
      Refused e x = Fails driver e × (Same s) x

      Ends-script :
          (r : Fallible (Unit {0})) (t : Tables P)
          → Ends
              (λ _ x. x ≡ stored P (seen s))
              (λ e x. Fails driver e × KeptAll P (found_tables P s) x)
              (r, t)
          → Ends
              (λ u x. (u ≡ stored P (seen s)) × (x ≡ (scripted s)))
              Refused
              (
                tables_after P r t,
                if in_memory P s then (opened s) else record (opened s) { disk = t },
              )
      Ends-script (returned a) t k = elim (Bool-cases (in_memory P s)) [
        | inl memory ↦ (k, rw memory refl)
        | inr file ↦
            (k, rw file (ap (λ (y : Tables P). record (opened s) { disk = y }) (rw file at k)))
      ]
      Ends-script (raised e) t k = elim (Bool-cases (in_memory P s)) [
        | inl memory ↦ rw memory (k.0, (refl, refl, KeptAll-refl P s.disk))
        | inr file ↦ rw file (k.0, (refl, refl, (rw file at k.1)))
      ]
      Ends-script out_of_fuel t k = absurd k

      Hoare-create_schema :
          Hoare
            (λ x. x ≡ (opened s))
            (create_schema P driver)
            (λ t x. (t ≡ stored P (seen s)) × (x ≡ (scripted s)))
            Refused
      unfolding create_schema
      Hoare-create_schema = record {
        at = λ x h.
            subst
              (λ y.
                Ends (λ u z. (u ≡ stored P (seen s)) × (z ≡ (scripted s))) Refused
                  (create_schema P driver y))
              (sym h)
              (let (r, t) = run_schema P driver (found_tables P s) in
                Ends-script r t
                  ((Hoare-run_schema P driver (found_tables P s)).at (found_tables P s) refl));
      }

      Hoare-make_directory : Hoare (λ x. x ≡ s) (make_directory P driver) (λ _ x. x ≡ s) Refused
      unfolding make_directory
      Hoare-make_directory = record {
        at = λ x h. elim (Bool-cases (in_memory P x)) [
          | inl memory ↦ rw memory h
          | inr file ↦ rw file (
              (Hoare-attempt driver.make_parent
                  (λ e y why k. (Fails.make_parent why, (Same-start s) y k))).at
                x h)
        ];
      }

      Hoare-open_db :
          (o : Ended (Unit {0}))
          → driver.connects ≡ o
          → Hoare (λ x. x ≡ s) (open_db P driver o) (λ _ x. x ≡ (opened s)) Refused
      unfolding open_db
      Hoare-open_db (answered _) why = record {
        at = λ x h. ap (λ (y : Handle P). record y { open_connections = y.open_connections + 1 }) h;
      }
      Hoare-open_db (failed e) why = record { at = λ x h. (Fails.connects why, (Same-start s) x h) }

      pub Hoare-connect : Hoare (λ x. x ≡ s) (connect P driver) (λ _ x. x ≡ (connected s)) Refused
      unfolding connect set_db
      Hoare-connect = Hoare-bind _ _ _ Hoare-make_directory λ _.
          Hoare-bind _ _ _ (Hoare-open_db driver.connects refl) λ _.
            Hoare-bind _ _ _
              (Hoare-attempt driver.journal_mode
                (λ e x why h. (Fails.journal_mode why, (Same-opened s) x h)))
              λ _.
                Hoare-bind _ _ _
                  (Hoare-attempt driver.busy_timeout
                    (λ e x why h. (Fails.busy_timeout why, (Same-opened s) x h)))
                  λ _. Hoare-bind _ _ _ Hoare-create_schema λ t.
                    Hoare-bind _ _ (λ _. set_db P driver t)
                      (Hoare-attempt driver.commits
                        (λ e x why h. (Fails.commits why, (Same-scripted s) t x h)))
                      λ _. record {
                        at = λ x h.
                            ap (λ (y : Handle P). record y { db = some (shown P t) }) h.1
                            ∙ ap (λ (u : Tables P). record (scripted s) { db = some (shown P u) })
                                h.0;
                      }

  close-db :
      (o : Ended (Unit {0})) (h : Handle P) (d : Option (Store P))
      → h.db ≡ d
      → Ends (λ _ x. (x.db ≡ none) × (x.disk ≡ h.disk)) (λ e x. o ≡ failed e) (close P o h)
  unfolding close
  close-db o h none e = rw e (refl, refl)
  close-db (answered _) h (some s) e = rw e (refl, refl)
  close-db (failed x) h (some s) e = rw e refl

  -- A store that is closed has no connection, and its file is as it was.
  pub close-Ends :
      (o : Ended (Unit {0})) (h : Handle P)
      → Ends (λ _ x. (x.db ≡ none) × (x.disk ≡ h.disk)) (λ e x. o ≡ failed e) (close P o h)
  close-Ends o h = close-db o h h.db refl
