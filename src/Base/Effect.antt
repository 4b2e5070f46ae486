-- ===== src/Base/Effect.antt =====
-- Go functions that change a world and return `(T, error)`, or panic.
use Prim.Native.Nat.{ℕ}
use mathlib.Core.List.{List}
use mathlib.Core.Option.{Option, none, some}
use mathlib.Core.Path.{◌≡◌, ap}
use Prim.Native.String.{String}

-- What an `error` says: the message of each `fmt.Errorf` with its arguments, around the error
-- that it wraps. A text is made of it only to be read by people.
pub data Error : Type 0 where
  -- an error that the code receives from a call of another library
  foreign : String → Error
  -- `fmt.Errorf(format)`, with the texts that fill it
  message : String → List String → Error
  -- `fmt.Errorf(format + ": %w")`
  wrapped : String → List String → Error → Error
  -- the same, where one argument is the id of an object
  wrapped_id : String → List String → ℕ → Error → Error

pub data Result {ℓ} (A : Type ℓ) : Type ℓ where
  ok : A → Result A
  err : Error → Result A
  panic : Result A

-- `if err != nil { return nil, err }` on what has no state
abbrev pub and_then {ℓ ℓ'} : {A : Type ℓ} {B : Type ℓ'} → Result A → (A → Result B) → Result B
and_then (ok a) f = f a
and_then (err e) f = err e
and_then panic f = panic

pub ok-injective {ℓ} : {A : Type ℓ} {a b : A} → ok a ≡ ok b → a ≡ b
ok-injective {A} {a} e = ap value e
  where
    value : Result A → A
    value (ok x) = x
    value _ = a

-- The state comes back beside an error too: what was done before it stays done.
abbrev pub Exec {ℓ} : Type ℓ → Type ℓ → Type ℓ
Exec S A = S → Result A × S

abbrev pub rewrap {ℓ} : {A : Type ℓ} → (Error → Error) → Result A → Result A
rewrap f (ok a) = ok a
rewrap f (err e) = err (f e)
rewrap f panic = panic

module _ {ℓ} {S A : Type ℓ} where
  abbrev pub pure : A → Exec S A
  pure a s = (ok a, s)

  abbrev pub fail : Error → Exec S A
  fail e s = (err e, s)

  abbrev pub crash : Exec S A
  crash s = (panic, s)

  -- a reading that changes nothing
  abbrev pub gets : (S → A) → Exec S A
  gets f s = (ok (f s), s)

  -- `if err != nil { return fmt.Errorf(...) }`
  abbrev pub context : (Error → Error) → Exec S A → Exec S A
  context f m s = (rewrap f (m s).0, (m s).1)

  -- `*p`: a nil pointer panics.
  abbrev pub deref : Option A → Exec S A
  deref none = crash
  deref (some a) = pure a

module _ {ℓ} {S A B : Type ℓ} where
  abbrev pub continue : Result A → (A → Exec S B) → Exec S B
  continue (ok a) f s = f a s
  continue (err e) f s = (err e, s)
  continue panic f s = (panic, s)

  infixl 10 ◌>>=◌ ◌>>◌
  abbrev pub ◌>>=◌ : Exec S A → (A → Exec S B) → Exec S B
  ◌>>=◌ m f s = continue (m s).0 f (m s).1

  abbrev pub ◌>>◌ : Exec S A → Exec S B → Exec S B
  m >> k = m >>= λ _. k

  -- `if err := m; err != nil { return handle(err) }`, then the rest
  abbrev pub attempt_on : Result A → (Error → Exec S B) → (A → Exec S B) → Exec S B
  attempt_on (ok a) handle k s = k a s
  attempt_on (err e) handle k s = handle e s
  attempt_on panic handle k s = (panic, s)

  abbrev pub attempt : Exec S A → (Error → Exec S B) → (A → Exec S B) → Exec S B
  attempt m handle k s = attempt_on (m s).0 handle k (m s).1
