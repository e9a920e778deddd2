-- ===== src/Graph/Rules/Result.antt =====
-- What the functions of src/beadloom/graph/rules/loader.py return, or the message of the `ValueError` they raise.
use native.Mathlib.Omega.{arith}
use mathlib.Core.Path.{◌≡◌, refl, subst}
use beadloom.Base.{
  String, Bool, true, false, Option, none, some, List, [], ◌∷◌, if◌then◌else◌, string_equality,
}
use beadloom.Json.{Value, Fields, Items, nil, cons, py_str}

pub data Result (A : Type 0) : Type 0 where
  ok : A → Result A
  err : String → Result A

infixl 5 ◌>>=◌ ◌>>◌
unfoldable pub ◌>>=◌ : {A B : Type 0} → Result A → (A → Result B) → Result B
ok a >>= f = f a
err message >>= f = err message

unfoldable pub ◌>>◌ : {B : Type 0} → Result (Unit {0}) → Result B → Result B
unfolding ◌>>=◌
m >> k = m >>= λ _. k

-- `if not t: raise ValueError(message)`
unfoldable pub guard : Bool → String → Result (Unit {0})
guard true message = ok tt
guard false message = err message

-- A returned value has the property.
abbrev pub Ensures : {A : Type 0} → (A → Type 0) → Result A → Type 0
Ensures P (ok a) = P a
Ensures P (err message) = Unit

pub bind_lem :
    {A B : Type 0} (P : A → Type 0) (Q : B → Type 0) (m : Result A) (f : A → Result B)
    → Ensures P m
    → ((a : A) → P a → Ensures Q (f a))
    → Ensures Q (m >>= f)
unfolding ◌>>=◌
bind_lem P Q (ok a) f h k = k a h
bind_lem P Q (err message) f h k = tt

pub then_lem :
    {B : Type 0} (Q : B → Type 0) (t : Bool) (message : String) (k : Result B)
    → (t ≡ true → Ensures Q k)
    → Ensures Q (guard t message >> k)
unfolding ◌>>◌ guard
then_lem Q true message k h = h refl
then_lem Q false message k h = tt

-- `isinstance(v, dict)`, of a value that may be missing
abbrev pub mapping_or : String → Option Value → Result Fields
mapping_or message (some (Value.obj block)) = ok block
mapping_or message _ = err message

-- `isinstance(v, list)`
abbrev pub list_or : String → Option Value → Result Items
list_or message (some (Value.arr items)) = ok items
list_or message _ = err message

-- A value that is not None.
abbrev pub present : Option Value → Option Value
present none = none
present (some Value.null) = none
present (some v) = some v

-- `str(v) if v is not None else None`
abbrev pub text_or_none : Option Value → Option String
text_or_none none = none
text_or_none (some v) = some (py_str v)

-- `[str(item) for item in items]`
unfoldable pub texts : Items → List String
texts nil = []
texts (cons v items) = py_str v ∷ texts items

-- The property is one of what follows, whatever the first step returns.
pub after_lem :
    {A B : Type 0} (Q : B → Type 0) (m : Result A) (f : A → Result B)
    → ((a : A) → Ensures Q (f a))
    → Ensures Q (m >>= f)
unfolding ◌>>=◌
after_lem Q (ok a) f k = k a
after_lem Q (err message) f k = tt

pub either_lem :
    {A : Type 0} (P : A → Type 0) (t : Bool) (m k : Result A)
    → Ensures P m
    → Ensures P k
    → Ensures P (if t then m else k)
either_lem P true m k h l = h
either_lem P false m k h l = l

-- A property that follows from another.
pub weaken_lem :
    {A : Type 0} (P Q : A → Type 0) (m : Result A)
    → Ensures P m
    → ((a : A) → P a → Q a)
    → Ensures Q m
weaken_lem P Q (ok a) h k = k a h
weaken_lem P Q (err message) h k = tt

-- The property holds of what is returned.
pub returned_lem :
    {A : Type 0} (P : A → Type 0) (m : Result A) (a : A) → Ensures P m → m ≡ ok a → P a
returned_lem P (ok b) a h e = let same : b ≡ a = ground (arith, e) in subst P same h
returned_lem P (err message) a h e = absurd (ground (arith, e))
