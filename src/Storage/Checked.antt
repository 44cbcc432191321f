-- ===== src/Storage/Checked.antt =====
-- A chain of steps that may raise, with no state.
use vpn_controll_app.Base.{Bool, String, Option, none, some, ◌≡◌, refl, if◌then◌else◌}
use vpn_controll_app.Errors.{value_error}
use vpn_controll_app.Storage.Action.{Result, ok, err}

infixl 5 ◌>>=◌ ◌>>◌
abbrev pub ◌>>=◌ {ℓ κ} :
    {Read : Type ℓ} {Built : Type κ} → Result Read → (Read → Result Built) → Result Built
(err refused) >>= next = err refused
(ok value) >>= next = next value

abbrev pub ◌>>◌ {κ} : {Built : Type κ} → Result (Unit {0}) → Result Built → Result Built
check >> rest = check >>= λ _. rest

-- `if c: raise ValueError(message)`
abbrev pub refuse_if : Bool → String → Result (Unit {0})
refuse_if c message = if c then err (value_error message) else ok tt

-- `int(x)` and its like: none where it raises ValueError.
abbrev pub parsed {ℓ} : {A : Type ℓ} → Option A → String → Result A
parsed none message = err (value_error message)
parsed (some a) message = ok a

-- A chain that ended well: so did its first step, and the rest from its value.
pub ended_well {ℓ κ} :
    {Read : Type ℓ} {Built : Type κ} (step : Result Read) (next : Read → Result Built)
    {built : Built}
    → (step >>= next) ≡ ok built
    → (value : Read) × (step ≡ ok value) × (next value ≡ ok built)
ended_well (err refused) next whole = cc
ended_well (ok value) next whole = (value, refl, whole)
