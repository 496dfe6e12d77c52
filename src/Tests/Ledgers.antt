-- ===== src/Tests/Ledgers.antt =====
-- The theorems on the cost page and its sockets at concrete inputs.
use llmbus.Shared.{
  ℕ, ◌+◌, ◌/◌, String, Bool, true, ◌==◌, sym, ap, if◌then◌else◌, Bool-cases, inl, inr, ◌≡◌, refl,
  List, [], ◌∷◌, ltb, arith,
}
use llmbus.Store.Costs.Groups.{Lists, cost_by_project_day-Lists}
use llmbus.Store.Costs.{ProjectDayCost, cost_by_project_day}
use llmbus.Python.Texts.{first_chars}
use llmbus.Dashboard.{Amounts, summarize, sum_by}
use llmbus.Dashboard.Totals.{AmountLaws}
use llmbus.Dashboard.Keys.{Itemizes, summarize-Itemizes}
use llmbus.Python.Exc.{Exc, raising, raised, Ended, answered, failed}
use llmbus.Python.Hoare.{Ends}
use llmbus.Commands.Sockets.{build_servers}
use llmbus.Commands.Sockets.Release.{Served, Kept, build_servers-Ends}
use llmbus.Store.{Store}
use llmbus.Tests.Host.{host, total}
use llmbus.Tests.Bus.{store, row}

abbrev money : Amounts host.Float
money = record {
  Amount = ℕ;
  zero = 0;
  add = λ a b. a + b;
  lt = ltb;
  of_float = λ x. x;
  ratio = λ a b. a / b;
  grouped = λ a. "0";
}

add_comm : (a b : ℕ) → a + b ≡ b + a
add_comm a b = omega arith

add_assoc : (a b c : ℕ) → a + b + c ≡ a + (b + c)
add_assoc a b c = omega arith

add_zero : (a : ℕ) → 0 + a ≡ a
add_zero a = omega arith

money_laws : AmountLaws money
money_laws = record { add_comm = add_comm; add_assoc = add_assoc; add_zero = add_zero }

abbrev cost : String → String → ℕ → ProjectDayCost host
cost project day n = record { project = project; day = day; cost_usd = n }

abbrev ledger : List (ProjectDayCost host)
ledger =
    cost "alpha" "2026-03-01" 5 ∷ cost "milamber" "2026-03-01" 7 ∷ cost "alpha" "2026-03-02" 3 ∷ []

summarize-Itemizes_example :
    Itemizes host money (λ row. row.project) ledger (summarize host money ledger).by_project
    × Itemizes host money (λ row. row.day) ledger (summarize host money ledger).by_day
summarize-Itemizes_example = summarize-Itemizes host money money_laws ledger

biggest_first :
    (summarize host money ledger).by_project
    ≡ record { key = "alpha"; amount = 8 } ∷ record { key = "milamber"; amount = 7 } ∷ []
unfolding summarize sum_by
biggest_first = refl

abbrev paid : Store host
paid = record store {
  jobs =
      record row { usage = record row.usage { cost_usd = 4 } }
      ∷ record row { job_id = "j3"; usage = record row.usage { cost_usd = 2 } }
      ∷ record row { job_id = "j4"; project = "idle" }
      ∷ [];
}

one_group : cost_by_project_day host total paid ≡ cost "milamber" "2026-03-01" 6 ∷ []
unfolding cost_by_project_day first_chars
one_group = refl

cost_by_project_day-Lists_example : Lists host total paid.jobs (cost_by_project_day host total paid)
cost_by_project_day-Lists_example = cost_by_project_day-Lists host total paid

abbrev unavailable : Exc
unavailable = raising "OSError" "[Errno 99] Cannot assign requested address"

-- The address of the second host is not up yet.
abbrev opens : String → Ended (Unit {0})
opens host = if host == "100.64.0.1" then failed unavailable else answered tt

abbrev is_os_error : Exc → Bool
is_os_error e = e.type_name == "OSError"

opens_or_os_error : (host : String) (e : Exc) → opens host ≡ failed e → is_os_error e ≡ true
opens_or_os_error host e h = elim (Bool-cases (host == "100.64.0.1")) [
  | inl refused ↦ let same : unavailable ≡ e = cc (rw refused at h) in ap is_os_error (sym same)
  | inr other ↦ cc (rw other at h)
]

abbrev both : List String
both = "127.0.0.1" ∷ "100.64.0.1" ∷ []

build_servers-Ends_example :
    Ends
      (Served is_os_error opens opens_or_os_error both ("10.0.0.1" ∷ []))
      (Kept is_os_error opens opens_or_os_error ("10.0.0.1" ∷ []))
      (build_servers is_os_error opens both ("10.0.0.1" ∷ []))
build_servers-Ends_example =
    build_servers-Ends is_os_error opens opens_or_os_error both ("10.0.0.1" ∷ []) (refl, (refl, tt))

gave_up :
    build_servers is_os_error opens both ("10.0.0.1" ∷ []) ≡ (raised unavailable, "10.0.0.1" ∷ [])
unfolding build_servers
gave_up = refl
