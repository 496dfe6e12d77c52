-- ===== src/Store/Connection/Sessions.antt =====
-- What an `async with` block on the store of src/llmbus/store.py leaves.
use mathlib.Core.Path.{subst}
use llmbus.Shared.{
  ◌≡◌, refl, sym, ap, ◌∙◌, ℕ, ◌+◌, ◌-◌, Option, none, if◌then◌else◌, Bool-cases, inl, inr,
}
use llmbus.Python.Exc.{Exc, Fallible, returned, raised, out_of_fuel, Ended, answered, failed}
use llmbus.Python.Action.{Action, continue}
use llmbus.Python.Platform.{Platform}
use llmbus.Python.Hoare.{Ends}
use llmbus.Store.{Store}
use llmbus.Store.Connection.{
  Driver, Tables, stored, Handle, in_memory, connect, close, on_conn, used, with_store,
}
use llmbus.Store.Connection.Creating.{one_more_less}
use llmbus.Store.Connection.Opening.{seen, disk_with, connected, Refused, Hoare-connect}

module _ (P : Platform) (driver : Driver) (s : Handle P) where
  module _ {A : Type 0} (m : Action (Store P) A) where
    -- the file after the body
    abbrev after_body : Handle P
    after_body = record s { disk = disk_with P s (m (seen P s)).1 }

    -- How an `async with` block ends. The connection did not open, and the body did not run; or the
    -- body ran on what was found and ended as the block does, with the file as the body left
    -- it and no connection left; or it ran and closing the connection raised.
    pub data Session : Fallible A → Handle P → Type 0 where
      refused : {e : Exc} {x : Handle P} → (Refused P driver s) e x → Session (raised e) x
      ran : Session (m (seen P s)).0 after_body
      unclosed :
          {e : Exc} {x : Handle P}
          → driver.closes ≡ failed e
          → x.disk ≡ after_body.disk
          → Session (raised e) x

    disk-eq :
        (if in_memory P s then disk_with P s (seen P s) else stored P (m (seen P s)).1)
        ≡ after_body.disk
    disk-eq = elim (Bool-cases (in_memory P s)) [
      | inl memory ↦ rw memory refl
      | inr file ↦ rw file refl
    ]

    -- the handle once it is closed
    closed-eq :
        s.db ≡ none
        → after_body ≡ record s {
          db = none;
          disk = if in_memory P s then disk_with P s (seen P s) else stored P (m (seen P s)).1;
          open_connections = s.open_connections + 1 - 1;
        }
    closed-eq h =
        ap (λ (d : Option (Store P)). record after_body { db = d }) h
        ∙ ap (λ (d : Tables P). record s { db = none; disk = d }) (sym disk-eq)
        ∙ ap
            (λ (n : ℕ). record s {
              db = none;
              disk = if in_memory P s then disk_with P s (seen P s) else stored P (m (seen P s)).1;
              open_connections = n;
            })
            (one_more_less s.open_connections)

    close_after :
        (o : Ended (Unit {0}))
        → driver.closes ≡ o
        → s.db ≡ none
        → Session (used P o m (connected P s)).0 (used P o m (connected P s)).1
    unfolding used close on_conn
    close_after (answered _) why h = subst (Session (m (seen P s)).0) (closed-eq h) Session.ran
    close_after (failed e) why h = Session.unclosed why disk-eq

    Session-connect :
        (end : Fallible (Unit {0}) × Handle P)
        → s.db ≡ none
        → Ends (λ _ x. x ≡ (connected P s)) (Refused P driver s) end
        → Session
            (continue end.0 (λ _. used P driver.closes m) end.1).0
            (continue end.0 (λ _. used P driver.closes m) end.1).1
    Session-connect (returned a, x) h k =
        subst (λ y. Session (used P driver.closes m y).0 (used P driver.closes m y).1) (sym k)
          (close_after driver.closes refl h)
    Session-connect (raised e, x) h k = Session.refused k
    Session-connect (out_of_fuel, x) h k = absurd k

-- On a store that is not connected, an `async with` block ends in one of three ways. Opening the
-- connection failed with the exception of one of its calls: the block raises it, the body did
-- not run, and no table on disk lost its rows. Or the body ran on the tables that were found,
-- new ones in memory, and the block ends as the body does, disconnected, with the file as the body
-- left it. Or the body ran so, and the block raises because closing did.
pub with_store-Session :
    (P : Platform) {A : Type 0} (driver : Driver) (m : Action (Store P) A) (s : Handle P)
    → s.db ≡ none
    → Session P driver s m (with_store P driver m s).0 (with_store P driver m s).1
unfolding with_store
with_store-Session P driver m s h =
    Session-connect P driver s m (connect P driver s) h ((Hoare-connect P driver s).at s refl)
