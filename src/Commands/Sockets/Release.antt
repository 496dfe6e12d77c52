-- ===== src/Commands/Sockets/Release.antt =====
-- A server that cannot open all its sockets keeps none.
use mathlib.Core.Path.{subst}
use llmbus.Shared.{
  String, ◌≡◌, refl, sym, ap, ◌∙◌, Bool, true, false, ◌||◌, List, [], ◌∷◌, ◌++◌, contains, eq_refl,
  arith,
}
use llmbus.Python.Exc.{Exc, Ended, answered, failed}
use llmbus.Python.Hoare.{Ends}
use llmbus.Config.Binding.Hosts.{IsDistinct}
use llmbus.Commands.Sockets.{
  Listening, close_server, close_servers, give_up, after_open, open_each, build_servers,
}

-- Hosts that were opened one after another, before what was open already.
abbrev pub opened_onto : List String → Listening → Listening
opened_onto [] listening = listening
opened_onto (host ∷ hosts) listening = opened_onto hosts (host ∷ listening)

close-behind :
    (x : String) (zs n : Listening)
    → contains x zs ≡ false
    → close_server x (zs ++ (x ∷ n)) ≡ zs ++ n
close-behind x [] n h = rw (eq_refl x) refl
close-behind x (z ∷ zs) n h = ground (arith, close-behind x zs n)

close-opened_onto :
    (x : String) (ys zs n : Listening)
    → contains x ys ≡ false
    → contains x zs ≡ false
    → close_server x (opened_onto ys (zs ++ (x ∷ n))) ≡ opened_onto ys (zs ++ n)
close-opened_onto x [] zs n h k = close-behind x zs n k
close-opened_onto x (y ∷ ys) zs n h k =
    close-opened_onto x ys (y ∷ zs) n (ground (arith, h)) (ground (arith, h))

close_servers-opened_onto :
    (hosts : List String) (listening : Listening)
    → IsDistinct hosts
    → close_servers hosts (opened_onto hosts listening) ≡ listening
close_servers-opened_onto [] listening h = refl
close_servers-opened_onto (x ∷ hosts) listening (h, hs) =
    ap (close_servers hosts) (close-opened_onto x hosts [] listening h refl)
    ∙ close_servers-opened_onto hosts listening hs

opened_onto-append :
    (xs : List String) (x : String) (n : Listening)
    → opened_onto (xs ++ (x ∷ [])) n ≡ x ∷ opened_onto xs n
opened_onto-append [] x n = refl
opened_onto-append (y ∷ ys) x n = opened_onto-append ys x (y ∷ n)

append-one :
    (xs : List String) (x : String) (ys : List String) → (xs ++ (x ∷ [])) ++ ys ≡ xs ++ (x ∷ ys)
append-one [] x ys = refl
append-one (z ∷ zs) x ys = ap (λ l. z ∷ l) (append-one zs x ys)

append-none : (xs : List String) → xs ++ [] ≡ xs
append-none [] = refl
append-none (x ∷ xs) = ap (λ l. x ∷ l) (append-none xs)

contains-append :
    (x : String) (xs ys : List String) → contains x (xs ++ ys) ≡ (contains x xs || contains x ys)
contains-append x [] ys = refl
contains-append x (z ∷ zs) ys = ground (arith, contains-append x zs ys)

IsDistinct-left : (xs ys : List String) → IsDistinct (xs ++ ys) → IsDistinct xs
IsDistinct-left [] ys h = tt
IsDistinct-left (x ∷ xs) ys (h, hs) =
    (ground (arith, contains-append x xs ys), IsDistinct-left xs ys hs)

module _ (is_os_error : Exc → Bool) (factory : String → Ended (Unit {0}))
    (os_errors : (host : String) (e : Exc) → factory host ≡ failed e → is_os_error e ≡ true) where
  abbrev pub Served : List String → Listening → List String → Listening → Type 0
  Served hosts before opened listening = (opened ≡ hosts) × (listening ≡ opened_onto hosts before)

  abbrev pub Kept : Listening → Exc → Listening → Type 0
  Kept before e listening = listening ≡ before

  give_up-Kept :
      (opened hosts : List String) (before : Listening) (e : Exc)
      → is_os_error e ≡ true
      → IsDistinct (opened ++ hosts)
      → Ends
          (Served (opened ++ hosts) before)
          (Kept before)
          (give_up is_os_error factory opened e (opened_onto opened before))
  unfolding give_up
  give_up-Kept opened hosts before e os distinct =
      rw os (close_servers-opened_onto opened before (IsDistinct-left opened hosts distinct))

  after_open-Ends :
      (opened hosts : List String) (host : String) (before : Listening) (o : Ended (Unit {0}))
      → factory host ≡ o
      → IsDistinct (opened ++ (host ∷ hosts))
      → Ends (Served ((opened ++ (host ∷ [])) ++ hosts) before) (Kept before) (
          open_each is_os_error factory
            (opened ++ (host ∷ []))
            hosts
            (opened_onto (opened ++ (host ∷ [])) before))
      → Ends (Served (opened ++ (host ∷ hosts)) before) (Kept before) (
          after_open is_os_error factory opened host
            (open_each is_os_error factory (opened ++ (host ∷ [])) hosts)
            o
            (opened_onto opened before))
  unfolding after_open
  after_open-Ends opened hosts host before (answered _) e distinct rest =
      subst
        (λ (all : List String). Ends (Served all before) (Kept before) (
          open_each is_os_error factory (opened ++ (host ∷ [])) hosts
            (host ∷ opened_onto opened before)))
        (append-one opened host hosts)
        (subst
          (λ (l : Listening).
            Ends (Served ((opened ++ (host ∷ [])) ++ hosts) before) (Kept before)
              (open_each is_os_error factory (opened ++ (host ∷ [])) hosts l))
          (opened_onto-append opened host before) rest)
  after_open-Ends opened hosts host before (failed x) e distinct rest =
      give_up-Kept opened (host ∷ hosts) before x (os_errors host x e) distinct

  open_each-Ends :
      (opened hosts : List String) (before : Listening)
      → IsDistinct (opened ++ hosts)
      → Ends
          (Served (opened ++ hosts) before)
          (Kept before)
          (open_each is_os_error factory opened hosts (opened_onto opened before))
  unfolding open_each
  open_each-Ends opened [] before distinct =
      (sym (append-none opened), ap (λ l. opened_onto l before) (sym (append-none opened)))
  open_each-Ends opened (host ∷ hosts) before distinct =
      after_open-Ends opened hosts host before (factory host) refl distinct (
        open_each-Ends (opened ++ (host ∷ [])) hosts before
          (subst IsDistinct (sym (append-one opened host hosts)) distinct))

  -- For hosts that are distinct, and sockets that fail with an `OSError` only: either every host is
  -- listened on, in order, or an exception is raised and the process listens on what it did before.
  pub build_servers-Ends :
      (hosts : List String) (before : Listening)
      → IsDistinct hosts
      → Ends (Served hosts before) (Kept before) (build_servers is_os_error factory hosts before)
  unfolding build_servers
  build_servers-Ends hosts before distinct = open_each-Ends [] hosts before distinct

  abbrev pub Gone : Listening → Unit {0} → Listening → Type 0
  Gone before _ listening = listening ≡ before
