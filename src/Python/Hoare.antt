-- ===== src/Python/Hoare.antt =====
-- Total correctness of actions: from a state that meets the precondition an action ends, and its end
-- meets the condition for a return or the one for a raise. Running out of fuel meets neither.
use mathlib.Core.Path.{subst}
use llmbus.Shared.{◌≡◌, refl, sym, Bool, true, false, if◌then◌else◌}
use llmbus.Python.Exc.{Exc, Fallible, returned, raised, out_of_fuel, IsFinal}
use llmbus.Python.Action.{Action, pure, raise, lift, continue, ◌>>=◌}

module _ {S A : Type 0} where
  abbrev pub Ends : (A → S → Type 0) → (Exc → S → Type 0) → Fallible A × S → Type 0
  Ends post fail (returned a, s) = post a s
  Ends post fail (raised e, s) = fail e s
  Ends post fail (out_of_fuel, s) = ⊥

  pub record Hoare (pre : S → Type 0) (m : Action S A) (post : A → S → Type 0)
      (fail : Exc → S → Type 0) : Type 0 where
    pub at : (s : S) → pre s → Ends post fail (m s)

module _ {S A : Type 0} where
  pub Ends-returned :
      (post : A → S → Type 0) (fail : Exc → S → Type 0) (r : Fallible A) (a : A) (s : S)
      → r ≡ returned a
      → post a s
      → Ends post fail (r, s)
  Ends-returned post fail r a s e h = subst (λ x. Ends post fail (x, s)) (sym e) h

module _ {S A : Type 0} {post better : A → S → Type 0} {fail other : Exc → S → Type 0} where
  -- A stronger end is an end.
  pub Ends-weaken :
      (end : Fallible A × S)
      → ((a : A) (s : S) → post a s → better a s)
      → ((e : Exc) (s : S) → fail e s → other e s)
      → Ends post fail end
      → Ends better other end
  Ends-weaken (returned a, s) f g h = f a s h
  Ends-weaken (raised e, s) f g h = g e s h
  Ends-weaken (out_of_fuel, s) f g h = h

module _ {S A : Type 0} where
  pub Ends-map :
      (post better : A → S → Type 0) (fail : Exc → S → Type 0) (end : Fallible A × S)
      → ((a : A) (s : S) → post a s → better a s)
      → Ends post fail end
      → Ends better fail end
  Ends-map post better fail (returned a, s) f h = f a s h
  Ends-map post better fail (raised e, s) f h = h
  Ends-map post better fail (out_of_fuel, s) f h = h

module _ {S A : Type 0} {pre : S → Type 0} {post : A → S → Type 0} {fail : Exc → S → Type 0} where
  pub Hoare-pure : (a : A) → ((s : S) → pre s → post a s) → Hoare pre (pure a) post fail
  Hoare-pure a h = record { at = h }

  pub Hoare-raise : (e : Exc) → ((s : S) → pre s → fail e s) → Hoare pre (raise {A = A} e) post fail
  Hoare-raise e h = record { at = h }

  pub Hoare-weaken :
      {strong : S → Type 0} {m : Action S A}
      → ((s : S) → strong s → pre s)
      → Hoare pre m post fail
      → Hoare strong m post fail
  Hoare-weaken h hm = record { at = λ s k. hm.at s (h s k) }

  pub Hoare-if :
      (b : Bool) (m n : Action S A)
      → (b ≡ true → Hoare pre m post fail)
      → (b ≡ false → Hoare pre n post fail)
      → Hoare pre (if b then m else n) post fail
  Hoare-if true m n hm hn = hm refl
  Hoare-if false m n hm hn = hn refl

module _ {S A : Type 0} where
  -- A fact that does not speak of the state.
  pub Hoare-fact :
      {F : Type 0} {pre : S → Type 0} {m : Action S A} {post : A → S → Type 0}
      {fail : Exc → S → Type 0}
      → (F → Hoare pre m post fail)
      → Hoare (λ s. F × pre s) m post fail
  Hoare-fact h = record { at = λ s k. (h k.0).at s k.1 }

  Ends-fail :
      (post : A → S → Type 0) (fail other : Exc → S → Type 0) (end : Fallible A) (s : S)
      → ((e : Exc) → fail e s → other e s)
      → Ends post fail (end, s)
      → Ends post other (end, s)
  Ends-fail post fail other (returned a) s f h = h
  Ends-fail post fail other (raised e) s f h = f e h
  Ends-fail post fail other out_of_fuel s f h = h

  pub Hoare-fail :
      {pre : S → Type 0} {post : A → S → Type 0} {fail : Exc → S → Type 0}
      (other : Exc → S → Type 0) (m : Action S A)
      → ((e : Exc) (s : S) → fail e s → other e s)
      → Hoare pre m post fail
      → Hoare pre m post other
  Hoare-fail {post} {fail} other m f h = record {
    at = λ s k. let (r, s') = m s in Ends-fail post fail other r s' (λ e. f e s') (h.at s k);
  }

module _ {S A B : Type 0} {pre : S → Type 0} {post : B → S → Type 0} {fail : Exc → S → Type 0} where
  -- A call with no effect on the state, and what follows its return.
  pub Hoare-lift :
      (r : Fallible A) (f : A → Action S B)
      → IsFinal r
      → ((e : Exc) (s : S) → r ≡ raised e → pre s → fail e s)
      → ((a : A) → r ≡ returned a → Hoare pre (f a) post fail)
      → Hoare pre (lift r >>= f) post fail
  Hoare-lift (returned a) f final g h = record { at = λ s k. (h a refl).at s k }
  Hoare-lift (raised e) f final g h = record { at = λ s k. g e s refl k }
  Hoare-lift out_of_fuel f final g h = absurd final

module _ {S A B : Type 0} where
  Hoare-continue :
      (mid : A → S → Type 0) (post : B → S → Type 0) (fail : Exc → S → Type 0) (r : Fallible A)
      (s : S) (f : A → Action S B)
      → Ends mid fail (r, s)
      → ((a : A) → Hoare (mid a) (f a) post fail)
      → Ends post fail (continue r f s)
  Hoare-continue mid post fail (returned a) s f h hf = (hf a).at s h
  Hoare-continue mid post fail (raised e) s f h hf = h
  Hoare-continue mid post fail out_of_fuel s f h hf = absurd h

  pub Hoare-bind :
      {pre : S → Type 0} {post : B → S → Type 0} {fail : Exc → S → Type 0} (mid : A → S → Type 0)
      (m : Action S A) (f : A → Action S B)
      → Hoare pre m mid fail
      → ((a : A) → Hoare (mid a) (f a) post fail)
      → Hoare pre (m >>= f) post fail
  Hoare-bind {post} {fail} mid m f hm hf = record {
    at = λ s h. let (r, s') = m s in Hoare-continue mid post fail r s' f (hm.at s h) hf;
  }

module _ {S A : Type 0} {post : A → S → Type 0} {fail : Exc → S → Type 0} where
  -- From one state.
  pub Hoare-from : (s : S) (m : Action S A) → Ends post fail (m s) → Hoare (λ x. x ≡ s) m post fail
  Hoare-from s m h = record { at = λ x e. subst (λ y. Ends post fail (m y)) (sym e) h }

module _ {S A R : Type 0} (post : A → S → Type 0) (fail : Exc → S → Type 0) (put : R → S) where
  -- A part of the state: its end in the whole.
  pub Ends-within :
      (end : Fallible A × R)
      → Ends (λ a r. post a (put r)) (λ e r. fail e (put r)) end
      → Ends post fail (end.0, put end.1)
  Ends-within (returned a, r) h = h
  Ends-within (raised e, r) h = h
  Ends-within (out_of_fuel, r) h = absurd h
