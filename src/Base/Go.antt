-- ===== src/Base/Go.antt =====
-- What a piece of Go code does: it returns, it panics, or it blocks for ever on a channel.
use mathlib.Core.Path.{◌≡◌, refl}
use mathlib.Core.Option.{Option, none, some}
use mathlib.Core.List.{List}
use Prim.Native.Nat.{ℕ, ◌<◌}
use raft_kvs.Base.Tests.{ltb, lt→ltb, if◌then◌else◌}
use mathlib.Core.Bool.{Bool, true, false}
use raft_kvs.Base.Lists.{length, get_elem?, set}
use raft_kvs.Base.Int.{ℤ, pos, negsuc}

pub data Outcome {ℓ} (A : Type ℓ) : Type ℓ where
  ok : A → Outcome A
  panics : Outcome A
  blocks : Outcome A

infixl 5 ◌>>=◌ ◌>>◌
abbrev pub ◌>>=◌ {ℓ κ} : {A : Type ℓ} {B : Type κ} → Outcome A → (A → Outcome B) → Outcome B
ok a >>= f = f a
panics >>= f = panics
blocks >>= f = blocks

abbrev pub ◌>>◌ {ℓ} : {B : Type ℓ} → Outcome (Unit {0}) → Outcome B → Outcome B
m >> k = m >>= λ _. k

-- A lookup that panics where there is nothing.
abbrev pub or_panic {ℓ} : {A : Type ℓ} → Option A → Outcome A
or_panic none = panics
or_panic (some a) = ok a

-- `s[i]` of a slice, at a signed index.
abbrev pub at_index {ℓ} : {A : Type ℓ} → List A → ℤ → Outcome A
at_index s (pos n) = or_panic (get_elem? s n)
at_index s (negsuc n) = panics

-- A bound of a slice expression or the start of an indexed loop: a negative one panics.
abbrev pub to_bound : ℤ → Outcome ℕ
to_bound (pos n) = ok n
to_bound (negsuc n) = panics

-- `s[i] = v` of a slice.
abbrev pub store {ℓ} : {A : Type ℓ} → List A → ℕ → A → Outcome (List A)
store s i v = if ltb i (length s) then ok (set s i v) else panics

-- Inversion of a bind that returns.
pub >>=-eq-ok {ℓ κ} :
    {X : Type ℓ} {Y : Type κ} (code : Outcome X) (rest : X → Outcome Y) {y : Y}
    → (code >>= rest) ≡ ok y
    → (x : X) × (code ≡ ok x) × (rest x ≡ ok y)
>>=-eq-ok panics rest ran = cc
>>=-eq-ok blocks rest ran = cc
>>=-eq-ok (ok x) rest ran = (x, refl, ran)

-- The code returns: it neither panics nor blocks.
abbrev pub Returns {ℓ} : {A : Type ℓ} → Outcome A → Type ℓ
Returns {A} m = (a : A) × (m ≡ ok a)

pub ok-Returns {ℓ} : {A : Type ℓ} (a : A) → Returns (ok a)
ok-Returns a = (a, refl)

pub if-Returns {ℓ} :
    {A : Type ℓ} (b : Bool) (x y : Outcome A)
    → (b ≡ true → Returns x)
    → (b ≡ false → Returns y)
    → Returns (if b then x else y)
if-Returns true x y p q = p refl
if-Returns false x y p q = q refl

pub bind-Returns {ℓ κ} :
    {A : Type ℓ} {B : Type κ} (m : Outcome A) (f : A → Outcome B)
    → Returns m
    → ((a : A) → m ≡ ok a → Returns (f a))
    → Returns (m >>= f)
bind-Returns (ok a) f r k = k a refl
bind-Returns panics f (a, e) k = cc
bind-Returns blocks f (a, e) k = cc

pub or_panic-Returns {ℓ} : {A : Type ℓ} (o : Option A) {a : A} → o ≡ some a → Returns (or_panic o)
or_panic-Returns o {a} e = (a, rw e)

pub store-Returns {ℓ} :
    {A : Type ℓ} (s : List A) (i : ℕ) (v : A) → i < length s → Returns (store s i v)
store-Returns s i v h = (set s i v, rw (lt→ltb i (length s) h))
