-- ===== src/Store/Connection/Sharing.antt =====
-- The database file of src/llmbus/store.py as what separate blocks, of one process or of several, share.
use llmbus.Shared.{ℕ, ◌+◌, ◌-◌, ◌≡◌, refl, sym, ap, ◌∙◌, false, Option, none}
use llmbus.Python.Exc.{Exc, Fallible, returned, raised, out_of_fuel, answered}
use llmbus.Python.Action.{Action, continue, ◌>>=◌}
use llmbus.Python.Hoare.{Ends}
use llmbus.Python.Platform.{Platform}
use llmbus.Store.{Store}
use llmbus.Store.Connection.{
  Driver, stored, shown, Handle, in_memory, connect, close, on_conn, used, with_store,
}
use llmbus.Store.Connection.Creating.{one_more_less, Fails}
use llmbus.Store.Connection.Opening.{Refused, connected, Hoare-connect}

-- Every call of the driver succeeds.
abbrev pub well : Driver
well = record {
  make_parent = answered tt;
  connects = answered tt;
  journal_mode = answered tt;
  busy_timeout = answered tt;
  create_jobs = answered tt;
  create_index = answered tt;
  create_worker_policy = answered tt;
  create_model_policy = answered tt;
  commits = answered tt;
  closes = answered tt;
}

well-Fails : (e : Exc) → Fails well e → ⊥
well-Fails e (Fails.make_parent k) = cc
well-Fails e (Fails.connects k) = cc
well-Fails e (Fails.journal_mode k) = cc
well-Fails e (Fails.busy_timeout k) = cc
well-Fails e (Fails.create_jobs k) = cc
well-Fails e (Fails.create_index k) = cc
well-Fails e (Fails.create_worker_policy k) = cc
well-Fails e (Fails.create_model_policy k) = cc
well-Fails e (Fails.commits k) = cc

module _ (P : Platform) where
  module _ (h : Handle P) where
    connected-eq :
        (end : Fallible (Unit {0}) × Handle P)
        → Ends (λ _ x. x ≡ connected P h) (Refused P well h) end
        → end ≡ (returned tt, connected P h)
    connected-eq (returned _, x) k = ap (λ (y : Handle P). (returned tt, y)) k
    connected-eq (raised e, x) k = absurd (well-Fails e k.0)
    connected-eq (out_of_fuel, x) k = absurd k

    used-well :
        {A : Type 0} (m : Action (Store P) A)
        → in_memory P h ≡ false
        → h.db ≡ none
        → used P (answered tt) m (connected P h)
          ≡ ((m (shown P h.disk)).0, record h { disk = stored P (m (shown P h.disk)).1 })
    unfolding used on_conn close
    used-well {A} m file db =
        let s : Store P = shown P h.disk in
        rw file (
          ap
            (λ (d : Option (Store P)). (
              (m s).0,
              record h {
                db = d;
                disk = stored P (m s).1;
                open_connections = h.open_connections + 1 - 1;
              },
            ))
            (sym db)
          ∙ ap (λ (n : ℕ). ((m s).0, record h { disk = stored P (m s).1; open_connections = n }))
              (sym (one_more_less h.open_connections)))

    pub with_store-well :
        {A : Type 0} (m : Action (Store P) A)
        → in_memory P h ≡ false
        → h.db ≡ none
        → with_store P well m h
          ≡ ((m (shown P h.disk)).0, record h { disk = stored P (m (shown P h.disk)).1 })
    unfolding with_store
    with_store-well m file db =
        ap
          (λ (end : Fallible (Unit {0}) × Handle P).
            continue end.0 (λ _. used P (answered tt) m) end.1)
          (connected-eq (connect P well h) ((Hoare-connect P well h).at h refl))
        ∙ used-well m file db

  module _ {A B : Type 0} (m : Action (Store P) A) (n : A → Action (Store P) B) where
    twice-eq :
        (h : Handle P) (r : Fallible A) (s : Store P)
        → in_memory P h ≡ false
        → h.db ≡ none
        → continue r (λ a. with_store P well (n a)) (record h { disk = stored P s })
          ≡ ((continue r n s).0, record h { disk = stored P (continue r n s).1 })
    twice-eq h (returned a) s file db =
        with_store-well (record h { disk = stored P s }) (n a) file db
    twice-eq h (raised e) s file db = refl
    twice-eq h out_of_fuel s file db = refl

    -- On a file, two blocks one after another are as one block with both bodies: the second sees what
    -- the first left, as long as the calls of the driver succeed.
    pub with_store-twice :
        (h : Handle P)
        → in_memory P h ≡ false
        → h.db ≡ none
        → (with_store P well m >>= λ a. with_store P well (n a)) h ≡ with_store P well (m >>= n) h
    with_store-twice h file db =
        ap (λ (end : Fallible A × Handle P). continue end.0 (λ a. with_store P well (n a)) end.1)
          (with_store-well h m file db)
        ∙ twice-eq h (m (shown P h.disk)).0 (m (shown P h.disk)).1 file db
        ∙ sym (with_store-well h (m >>= n) file db)
