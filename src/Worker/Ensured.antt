-- ===== src/Worker/Ensured.antt =====
-- What `ensure_topology` leaves at the broker, over what the broker documents of its calls.

use llmbus.Shared.{ℕ, String, ◌≡◌, refl, sym, ◌∙◌, Bool, true, false}
use llmbus.Python.Exc.{Exc, Fallible}
use llmbus.Python.Hoare.{Ends, Ends-weaken, Hoare, Hoare-pure, Hoare-bind}
use llmbus.Worker.Wiring.{Topology, Broker, unless_found, ensure_topology}

module _ {State : Type 0} (streams : State → String → Bool)
    (topics : State → String → String → Bool) where
  -- No stream and no topic of the first state is missing in the second.
  abbrev pub Grown : State → State → Type 0
  Grown s t =
      ((n : String) → streams s n ≡ true → streams t n ≡ true)
      × ((n m : String) → topics s n m ≡ true → topics t n m ≡ true)

  -- A call that changes nothing, whether it answers or raises.
  abbrev pub Idle : {A : Type 0} → State → Fallible A × State → Type 0
  Idle s end = Ends (λ _ t. t ≡ s) (λ _ t. t ≡ s) end

-- What the client of the broker documents: a lookup tells what is there and changes nothing, a call
-- that creates what is not there has it there when it returns, and nothing is removed, also by a
-- call that raises.
pub record BrokerLaws (B : Broker) : Type 0 where
  pub streams : B.State → String → Bool
  pub topics : B.State → String → String → Bool
  pub has_stream_tells :
      (s : B.State) (n : String)
      → Ends (λ found t. (t ≡ s) × (found ≡ streams s n)) (λ _ t. t ≡ s) (B.has_stream n s)
  pub has_topic_tells :
      (s : B.State) (n m : String)
      → Ends (λ found t. (t ≡ s) × (found ≡ topics s n m)) (λ _ t. t ≡ s) (B.has_topic n m s)
  pub create_stream_adds :
      (s : B.State) (n : String)
      → streams s n ≡ false
      → Ends
          (λ _ t. (streams t n ≡ true) × Grown streams topics s t)
          (λ _ t. Grown streams topics s t)
          (B.create_stream n s)
  pub create_topic_adds :
      (s : B.State) (n m : String) (k : ℕ)
      → topics s n m ≡ false
      → Ends
          (λ _ t. (topics t n m ≡ true) × Grown streams topics s t)
          (λ _ t. Grown streams topics s t)
          (B.create_topic n m k s)

module _ (B : Broker) (b : BrokerLaws B) (topology : Topology) where
  abbrev Grows : B.State → B.State → Type 0
  Grows = Grown b.streams b.topics

  Grows-refl : (s : B.State) → Grows s s
  Grows-refl s = (λ n h. h, λ n m h. h)

  Grows-trans : (s t u : B.State) → Grows s t → Grows t u → Grows s u
  Grows-trans s t u g h = (λ n k. h.0 n (g.0 n k), λ n m k. h.1 n m (g.1 n m k))

  abbrev HasStream : B.State → Type 0
  HasStream s = b.streams s topology.stream ≡ true

  abbrev HasTopic : B.State → Type 0
  HasTopic s = b.topics s topology.stream topology.topic ≡ true

  module _ (s : B.State) where
    abbrev Kept : Exc → B.State → Type 0
    Kept e t = Grows s t

    Hoare-has_stream :
        Hoare
          (λ t. t ≡ s)
          (B.has_stream topology.stream)
          (λ found t. (t ≡ s) × (found ≡ b.streams s topology.stream))
          Kept
    Hoare-has_stream = record {
      at = λ t same. rw same (
          Ends-weaken (B.has_stream topology.stream s) (λ a u h. h) (λ e u h. rw h (Grows-refl s))
            (b.has_stream_tells s topology.stream));
    }

    Hoare-create_stream :
        (found : Bool)
        → Hoare
            (λ t. (t ≡ s) × (found ≡ b.streams s topology.stream))
            (unless_found B (B.create_stream topology.stream) found)
            (λ _ t. HasStream t × Grows s t)
            Kept
    unfolding unless_found
    Hoare-create_stream true = Hoare-pure tt λ t h. rw h.0 (sym h.1, Grows-refl s)
    Hoare-create_stream false = record {
      at = λ t h. rw h.0 (b.create_stream_adds s topology.stream (sym h.1));
    }

    Hoare-has_topic :
        Hoare
          (λ t. HasStream t × Grows s t)
          (B.has_topic topology.stream topology.topic)
          (λ found t.
            (HasStream t × Grows s t) × (found ≡ b.topics t topology.stream topology.topic))
          Kept
    Hoare-has_topic = record {
      at = λ t h.
          Ends-weaken (B.has_topic topology.stream topology.topic t) (λ a u k. rw k.0 (h, k.1))
            (λ e u k. rw k h.1) (b.has_topic_tells t topology.stream topology.topic);
    }

    Hoare-create_topic :
        (found : Bool)
        → Hoare
            (λ t. (HasStream t × Grows s t) × (found ≡ b.topics t topology.stream topology.topic))
            (unless_found B
              (B.create_topic topology.stream topology.topic topology.partitions)
              found)
            (λ _ t. HasStream t × HasTopic t × Grows s t)
            Kept
    unfolding unless_found
    Hoare-create_topic true = Hoare-pure tt λ t h. (h.0.0, sym h.1, h.0.1)
    Hoare-create_topic false = record {
      at = λ t h.
          Ends-weaken (B.create_topic topology.stream topology.topic topology.partitions t)
            (λ a u k. (k.1.0 topology.stream h.0.0, k.0, Grows-trans s t u h.0.1 k.1))
            (λ e u k. Grows-trans s t u h.0.1 k)
            (b.create_topic_adds t topology.stream topology.topic topology.partitions (sym h.1));
    }

    ensure_topology-HasTopic :
        Ends (λ _ t. HasStream t × HasTopic t × Grows s t) Kept (ensure_topology B topology s)
    unfolding ensure_topology
    ensure_topology-HasTopic =
        (Hoare-bind _ _ _ Hoare-has_stream λ found.
            Hoare-bind _ _ _ (Hoare-create_stream found) λ _.
              Hoare-bind _ _ _ Hoare-has_topic λ topic_found. Hoare-create_topic topic_found).at
          s refl

    module _ (there : HasStream s) (topic_there : HasTopic s) where
      abbrev Same : Exc → B.State → Type 0
      Same e t = t ≡ s

      keeps_stream :
          (found : Bool)
          → Hoare
              (λ t. (t ≡ s) × (found ≡ b.streams s topology.stream))
              (unless_found B (B.create_stream topology.stream) found)
              (λ _ t. t ≡ s)
              Same
      unfolding unless_found
      keeps_stream true = Hoare-pure tt λ t h. h.0
      keeps_stream false = record { at = λ t h. let off : false ≡ true = h.1 ∙ there in cc }

      keeps_topic :
          (found : Bool)
          → Hoare
              (λ t. (t ≡ s) × (found ≡ b.topics s topology.stream topology.topic))
              (unless_found B
                (B.create_topic topology.stream topology.topic topology.partitions)
                found)
              (λ _ t. t ≡ s)
              Same
      unfolding unless_found
      keeps_topic true = Hoare-pure tt λ t h. h.0
      keeps_topic false = record { at = λ t h. let off : false ≡ true = h.1 ∙ topic_there in cc }

      Hoare-look_stream :
          Hoare
            (λ t. t ≡ s)
            (B.has_stream topology.stream)
            (λ found t. (t ≡ s) × (found ≡ b.streams s topology.stream))
            Same
      Hoare-look_stream = record { at = λ t same. rw same (b.has_stream_tells s topology.stream) }

      Hoare-look_topic :
          Hoare
            (λ t. t ≡ s)
            (B.has_topic topology.stream topology.topic)
            (λ found t. (t ≡ s) × (found ≡ b.topics s topology.stream topology.topic))
            Same
      Hoare-look_topic = record {
        at = λ t same. rw same (b.has_topic_tells s topology.stream topology.topic);
      }

      ensure_topology-Idle : Idle b.streams b.topics s (ensure_topology B topology s)
      unfolding ensure_topology
      ensure_topology-Idle =
          (Hoare-bind _ _ _ Hoare-look_stream λ found.
              Hoare-bind _ _ _ (keeps_stream found)
                λ _. Hoare-bind _ _ _ Hoare-look_topic λ topic_found. keeps_topic topic_found).at
            s refl

  -- The stream and the topic are there, what was there still is, and the same call made again
  -- changes nothing, whether it returns or raises.
  abbrev pub Ensured : B.State → Unit {0} → B.State → Type 0
  Ensured s _ t =
      HasStream t
      × HasTopic t
      × Grown b.streams b.topics s t
      × Idle b.streams b.topics t (ensure_topology B topology t)

  abbrev pub NothingLost : B.State → Exc → B.State → Type 0
  NothingLost s _ t = Grown b.streams b.topics s t

  -- For a broker that keeps its laws, `ensure_topology` ends. When it returns, the stream and the
  -- topic are there, nothing that was there is gone, and the same call made again changes nothing;
  -- when it raises, nothing that was there is gone.
  pub ensure_topology-Ends :
      (s : B.State) → Ends (Ensured s) (NothingLost s) (ensure_topology B topology s)
  ensure_topology-Ends s =
      Ends-weaken (ensure_topology B topology s)
        (λ a t h. (h.0, h.1, h.2, ensure_topology-Idle t h.0 h.1)) (λ e t h. h)
        (ensure_topology-HasTopic s)
