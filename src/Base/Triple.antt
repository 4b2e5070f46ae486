-- ===== src/Base/Triple.antt =====
-- Hoare triples for `Exec`: one postcondition for a returned value, one for every other end.
use mathlib.Core.Path.{◌≡◌, refl, subst}
use mathlib.Core.Option.{Option, none, some}
use mathlib.Core.Bool.{Bool, true, false}
use netbox_herald.Base.Tests.{if◌then◌else◌}
use netbox_herald.Base.Effect.{
  Error, Result, ok, err, panic, Exec, pure, fail, rewrap, attempt, attempt_on, context, deref,
  continue, ◌>>=◌,
}

module _ {S A : Type 0} where
  abbrev pub Ends : (A → S → Type 0) → (S → Type 0) → Result A → S → Type 0
  Ends post stop (ok a) s = post a s
  Ends post stop (err e) s = stop s
  Ends post stop panic s = stop s

  -- From a state with `pre`, `m` either returns with `post`, or fails with `stop`.
  pub record Triple (pre : S → Type 0) (m : Exec S A) (post : A → S → Type 0) (stop : S → Type 0)
      : Type 0 where
    pub run : (s : S) → pre s → Ends post stop (m s).0 (m s).1

module _ {S A : Type 0} (post : A → S → Type 0) (stop : S → Type 0) where
  Ends-weaken :
      (post' : A → S → Type 0) (stop' : S → Type 0) (r : Result A) (s : S)
      → ((a : A) (s : S) → post' a s → post a s)
      → ((s : S) → stop' s → stop s)
      → Ends post' stop' r s
      → Ends post stop r s
  Ends-weaken post' stop' (ok a) s f g h = f a s h
  Ends-weaken post' stop' (err e) s f g h = g s h
  Ends-weaken post' stop' panic s f g h = g s h

  Ends-rewrap :
      (f : Error → Error) (r : Result A) (s : S)
      → Ends post stop r s
      → Ends post stop (rewrap f r) s
  Ends-rewrap f (ok a) s h = h
  Ends-rewrap f (err e) s h = h
  Ends-rewrap f panic s h = h

module _ {S A : Type 0} {post : A → S → Type 0} {stop : S → Type 0} where
  pub Triple-pure : (a : A) → Triple (post a) (pure a) post stop
  Triple-pure a = record { run = λ s h. h }

  pub Triple-return :
      {pre : S → Type 0} (a : A) → ((s : S) → pre s → post a s) → Triple pre (pure a) post stop
  Triple-return a f = record { run = f }

  -- A part of the precondition that says nothing of the state is a hypothesis.
  pub Triple-given :
      {P : Type 0} {pre : S → Type 0} {m : Exec S A}
      → (P → Triple pre m post stop)
      → Triple (λ s. pre s × P) m post stop
  Triple-given f = record { run = λ s h. (f h.1).run s h.0 }

  pub Triple-fail : (e : Error) → Triple stop (fail e) post stop
  Triple-fail e = record { run = λ s h. h }

  pub Triple-weaken :
      {pre : S → Type 0} {post' : A → S → Type 0} {stop' : S → Type 0} {m : Exec S A}
      → ((a : A) (s : S) → post' a s → post a s)
      → ((s : S) → stop' s → stop s)
      → Triple pre m post' stop'
      → Triple pre m post stop
  Triple-weaken f g t = record { run = λ s h. Ends-weaken post stop _ _ _ _ f g (t.run s h) }

  pub Triple-if :
      {pre : S → Type 0} (b : Bool) (m n : Exec S A)
      → (b ≡ true → Triple pre m post stop)
      → (b ≡ false → Triple pre n post stop)
      → Triple pre (if b then m else n) post stop
  Triple-if true m n tm tn = tm refl
  Triple-if false m n tm tn = tn refl

  pub Triple-context :
      {pre : S → Type 0} {m : Exec S A} (f : Error → Error)
      → Triple pre m post stop
      → Triple pre (context f m) post stop
  Triple-context f t = record { run = λ s h. Ends-rewrap post stop f _ _ (t.run s h) }

-- A dereference changes nothing, and returns only what is there.
pub Triple-deref :
    {S A : Type 0} {pre : S → Type 0} (o : Option A)
    → Triple pre (deref o) (λ a s. pre s × (o ≡ some a)) pre
Triple-deref none = record { run = λ s h. h }
Triple-deref (some a) = record { run = λ s h. (h, refl) }

-- What a triple says of a run that returned.
pub Triple-ok :
    {S A : Type 0} {pre : S → Type 0} {post : A → S → Type 0} {stop : S → Type 0} (m : Exec S A)
    (s s' : S) (a : A)
    → Triple pre m post stop
    → pre s
    → m s ≡ (ok a, s')
    → post a s'
Triple-ok {post} {stop} m s s' a t h e = subst (λ r. Ends post stop r.0 r.1) e (t.run s h)

module _ {S A B : Type 0} (mid : A → S → Type 0) (post : B → S → Type 0) (stop : S → Type 0) where
  Ends-bind :
      (r : Result A) (s : S) (f : A → Exec S B)
      → Ends mid stop r s
      → ((a : A) → Triple (mid a) (f a) post stop)
      → Ends post stop (continue r f s).0 (continue r f s).1
  Ends-bind (ok a) s f h t = (t a).run s h
  Ends-bind (err e) s f h t = h
  Ends-bind panic s f h t = h

module _ {S A B : Type 0} {mid : A → S → Type 0} {post : B → S → Type 0} {stop : S → Type 0} where
  pub Triple-bind :
      {pre : S → Type 0} (m : Exec S A) (f : A → Exec S B)
      → Triple pre m mid stop
      → ((a : A) → Triple (mid a) (f a) post stop)
      → Triple pre (m >>= f) post stop
  Triple-bind m f tm tf = record {
    run = λ s h. Ends-bind _ post stop (m s).0 (m s).1 f (tm.run s h) tf;
  }

module _ {S A B : Type 0} {mid : A → S → Type 0} {post : B → S → Type 0}
    {halt stop : S → Type 0} where
  -- A failure of `m` is handled; a panic is not.
  pub Triple-attempt :
      {pre : S → Type 0} (m : Exec S A) (handle : Error → Exec S B) (k : A → Exec S B)
      → Triple pre m mid halt
      → ((e : Error) → Triple halt (handle e) post stop)
      → ((a : A) → Triple (mid a) (k a) post stop)
      → ((s : S) → halt s → stop s)
      → Triple pre (attempt m handle k) post stop
  Triple-attempt m handle k tm th tk halted = record {
    run = λ s h. attempted (m s).0 (m s).1 (tm.run s h);
  }
    where
      attempted :
          (r : Result A) (s : S)
          → Ends mid halt r s
          → Ends post stop (attempt_on r handle k s).0 (attempt_on r handle k s).1
      attempted (ok a) s h = (tk a).run s h
      attempted (err e) s h = (th e).run s h
      attempted panic s h = halted s h

-- A match on a Boolean, of which only the branch that is taken counts.
pub Triple-elim :
    {S A : Type 0} {pre : S → Type 0} {post : A → S → Type 0} {stop : S → Type 0} (b : Bool)
    (m k : Exec S A)
    → (b ≡ true → Triple pre m post stop)
    → (b ≡ false → Triple pre k post stop)
    → Triple pre (elim b [ true ↦ m | false ↦ k ]) post stop
Triple-elim true m k tm tk = tm refl
Triple-elim false m k tm tk = tk refl

-- A result that was computed without the state.
pub Triple-result :
    {S A : Type 0} {pre : S → Type 0} (r : Result A)
    → Triple pre (λ s. (r, s)) (λ a s. pre s × (r ≡ ok a)) pre
Triple-result (ok a) = record { run = λ s h. (h, refl) }
Triple-result (err e) = record { run = λ s h. h }
Triple-result panic = record { run = λ s h. h }
