-- ===== src/Commands/Sockets.antt =====
-- The sockets of the cost server, `build_servers` of src/llmbus/server.py: one for each host, or none.
pub mod Release
use llmbus.Shared.{
  String, ◌≡◌, refl, sym, ap, ◌∙◌, Bool, true, false, not, ◌||◌, List, [], ◌∷◌, ◌++◌, contains,
  ◌==◌, eq_iff, eq_refl, arith, if◌then◌else◌, Bool-cases, inl, inr,
}
use llmbus.Python.Exc.{Exc, Fallible, returned, raised, Ended, answered, failed}
use llmbus.Python.Action.{Action, ◌>>=◌}
use llmbus.Python.Hoare.{Ends}
use llmbus.Config.Binding.Hosts.{IsDistinct}

-- the addresses that the process listens on, the latest first
abbrev pub Listening : Type 0
Listening = List String

-- `server.server_close()`
abbrev pub close_server : String → Listening → Listening
close_server host [] = []
close_server host (h ∷ listening) = if h == host then listening else h ∷ close_server host listening

abbrev pub close_servers : List String → Listening → Listening
close_servers [] listening = listening
close_servers (host ∷ opened) listening = close_servers opened (close_server host listening)

module _ (is_os_error : Exc → Bool) (factory : String → Ended (Unit {0})) where
  -- the `except` clause, with the sockets that were opened
  give_up : List String → Exc → Action Listening (List String)
  give_up opened e listening =
      (raised e, if is_os_error e then close_servers opened listening else listening)

  -- what follows an opening; `again` is the rest of the loop
  after_open :
      List String
      → String
      → Action Listening (List String)
      → Ended (Unit {0})
      → Action Listening (List String)
  unfolding give_up
  after_open opened host again (answered _) listening = again (host ∷ listening)
  after_open opened host again (failed e) listening = give_up opened e listening

  open_each : List String → List String → Action Listening (List String)
  unfolding after_open
  open_each opened [] listening = (returned opened, listening)
  open_each opened (host ∷ hosts) listening =
      after_open opened host (open_each (opened ++ (host ∷ [])) hosts) (factory host) listening

  -- `build_servers`, over how the socket of each host opens
  unfoldable pub build_servers : List String → Action Listening (List String)
  unfolding open_each
  build_servers hosts listening = open_each [] hosts listening

  -- `except KeyboardInterrupt: pass`
  after_join : Ended (Unit {0}) → Fallible (Unit {0})
  after_join (answered _) = returned tt
  after_join (failed e) = if e.type_name == "KeyboardInterrupt" then returned tt else raised e

  -- `serve_forever`, by how the joining of the threads ends; the `finally` clause closes each server
  serve_forever : Ended (Unit {0}) → List String → Action Listening (Unit {0})
  unfolding after_join
  serve_forever joined servers listening = (after_join joined, close_servers servers listening)

  -- what `main` does with the hosts it found
  unfoldable pub serve_hosts : Ended (Unit {0}) → List String → Action Listening (Unit {0})
  unfolding serve_forever
  serve_hosts joined hosts = build_servers hosts >>= λ servers. serve_forever joined servers
