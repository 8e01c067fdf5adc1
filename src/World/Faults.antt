-- ===== src/World/Faults.antt =====
-- Commands whose behaviour C leaves undefined at some states: a read through `NULL`, a write past the
-- end of a buffer, or a use of memory that was never written. Such a run has no result.
use central_node.Common.{◌≡◌, Option, none, some}
use central_node.World.{World, M}

abbrev pub Run {ℓ} : Type ℓ → Type ℓ
Run A = World → Option (A × World)

abbrev pub and_then {ℓ κ} :
    {A : Type ℓ} {B : Type κ} → Option (A × World) → (A → Run B) → Option (B × World)
and_then none f = none
and_then (some (a, w)) f = f a w

infixl 5 ◌>>=◌ ◌>>◌
abbrev pub ◌>>=◌ {ℓ κ} : {A : Type ℓ} {B : Type κ} → Run A → (A → Run B) → Run B
◌>>=◌ m f w = and_then (m w) f

abbrev pub ◌>>◌ {ℓ} : {B : Type ℓ} → Run (Unit {0}) → Run B → Run B
m >> k = m >>= λ _. k

-- A command that is always defined.
abbrev pub call {ℓ} : {A : Type ℓ} → M A → Run A
call m w = some (m w)

abbrev pub return {ℓ} : {A : Type ℓ} → A → Run A
return a w = some (a, w)

abbrev pub undefined {ℓ} : {A : Type ℓ} → Run A
undefined w = none

-- The run is defined and ends in a result of which `P` holds.
abbrev pub Returns {ℓ} : {A : Type ℓ} → (A → World → Type 0) → Option (A × World) → Type 0
Returns P none = ⊥
Returns P (some (a, w)) = P a w

pub Returns-and_then {ℓ κ} :
    {A : Type ℓ} {B : Type κ} (P : A → World → Type 0) (Q : B → World → Type 0)
    (r : Option (A × World)) (f : A → Run B)
    → Returns P r
    → ((a : A) (w : World) → P a w → Returns Q (f a w))
    → Returns Q (and_then r f)
Returns-and_then P Q none f h k = absurd h
Returns-and_then P Q (some (a, w)) f h k = k a w h

pub Returns-mono {ℓ} :
    {A : Type ℓ} (P Q : A → World → Type 0) (r : Option (A × World))
    → ((a : A) (w : World) → P a w → Q a w)
    → Returns P r
    → Returns Q r
Returns-mono P Q none k h = absurd h
Returns-mono P Q (some (a, w)) k h = k a w h

pub and_then-none {ℓ κ} :
    {A : Type ℓ} {B : Type κ} (P : A → World → Type 0) (r : Option (A × World)) (f : A → Run B)
    → Returns P r
    → ((a : A) (w : World) → P a w → f a w ≡ none)
    → and_then r f ≡ none
and_then-none P none f h k = absurd h
and_then-none P (some (a, w)) f h k = k a w h
