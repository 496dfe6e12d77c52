-- ===== src/Tests/Topologies.antt =====
-- A broker that keeps its streams and topics in lists, and what the worker finds and leaves there.
use llmbus.Shared.{
  ℕ, String, ◌≡◌, refl, Bool, true, false, ◌||◌, ◌&&◌, List, [], ◌∷◌, ◌==◌, contains, eq_refl,
  arith, if◌then◌else◌, Bool-cases, inl, inr,
}
use llmbus.Python.Exc.{Exc, raising, returned}
use llmbus.Python.Action.{Action, raise, gets}
use llmbus.Python.Hoare.{Ends}
use llmbus.Worker.Wiring.{default_topology, Broker, ensure_topology}
use llmbus.Worker.Ensured.{Grown, BrokerLaws}

pub record Names : Type 0 where
  pub stream_names : List String
  pub topic_names : List (String × String)

abbrev has_name : String → String → List (String × String) → Bool
has_name n m [] = false
has_name n m ((a, b) ∷ names) = (n == a && m == b) || has_name n m names

abbrev streams : Names → String → Bool
streams s n = contains n s.stream_names

abbrev topics : Names → String → String → Bool
topics s n m = has_name n m s.topic_names

abbrev no_stream : Exc
no_stream = raising "RuntimeError" "stream not found"

abbrev add_stream : String → Action Names (Unit {0})
add_stream n s = (returned tt, record s { stream_names = n ∷ s.stream_names })

-- a topic of a stream that is not there is refused
abbrev add_topic : String → String → ℕ → Action Names (Unit {0})
add_topic n m k s =
    if streams s n
    then (returned tt, record s { topic_names = (n, m) ∷ s.topic_names })
    else raise no_stream s

abbrev pub broker : Broker
broker = record {
  State = Names;
  has_stream = λ n. gets (λ s. streams s n);
  create_stream = add_stream;
  has_topic = λ n m. gets (λ s. topics s n m);
  create_topic = add_topic;
}

-- `contains` and `has_name` of a longer list
contains-more :
    (n x : String) (xs : List String) → contains n xs ≡ true → contains n (x ∷ xs) ≡ true
contains-more n x xs h = ground (arith, h)

add_topic-Grown :
    (s : Names) (n m : String) (k : ℕ)
    → Ends
        (λ _ t. (topics t n m ≡ true) × Grown streams topics s t)
        (λ _ t. Grown streams topics s t)
        (add_topic n m k s)
add_topic-Grown s n m k = elim (Bool-cases (streams s n)) [
  | inl there ↦
      rw there (ground (arith, eq_refl n, eq_refl m), (λ a h. h, λ a b h. ground (arith, h)))
  | inr missing ↦ rw missing (λ a h. h, λ a b h. h)
]

pub broker_laws : BrokerLaws broker
broker_laws = record {
  streams = streams;
  topics = topics;
  has_stream_tells = λ s n. (refl, refl);
  has_topic_tells = λ s n m. (refl, refl);
  create_stream_adds = λ s n missing.
      (ground (arith, eq_refl n), (λ a h. contains-more a n s.stream_names h, λ a b h. h));
  create_topic_adds = λ s n m k missing. add_topic-Grown s n m k;
}

-- another program's stream is there already
abbrev pub in_use : Names
in_use = record { stream_names = "telemetry" ∷ []; topic_names = ("telemetry", "power") ∷ [] }

both_made : ensure_topology broker default_topology in_use ≡ (
  returned tt,
  record {
    stream_names = "llmbus" ∷ "telemetry" ∷ [];
    topic_names = ("llmbus", "llm-jobs") ∷ ("telemetry", "power") ∷ [];
  },
)
unfolding ensure_topology
both_made = refl
