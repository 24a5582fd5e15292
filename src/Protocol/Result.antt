-- ===== src/Protocol/Result.antt =====
-- What the protocol code throws, and results that may be a thrown error.
use minipg.Base.{ℕ, ℤ, Bool, true, false, Option, none, some}
use minipg.Buffer.{Text}

-- What `guardNul` names in its message.
pub data Subject : Type 0 where
  query_text : Subject
  startup_parameter : Text → Subject

pub data Error : Type 0 where
  contains_nul : Subject → Error
  too_many_parameters : ℕ → Error
  -- The runtime's RangeError, for a value or an offset that is out of range.
  out_of_range : Error
  invalid_message_length : ℤ → Error

-- A value, or the error that was thrown on the way to it.
pub data Result {ℓ} (A : Type ℓ) : Type ℓ where
  err : Error → Result A
  ok : A → Result A

-- The first error thrown ends the chain.
infixl 5 ◌>>=◌ ◌>>◌
abbrev pub ◌>>=◌ {ℓ κ} : {A : Type ℓ} {B : Type κ} → Result A → (A → Result B) → Result B
thrown_or_value >>= next = elim thrown_or_value [ ok value ↦ next value | err thrown ↦ err thrown ]

abbrev pub ◌>>◌ {ℓ} : {B : Type ℓ} → Result (Unit {0}) → Result B → Result B
checked >> next = checked >>= λ _. next

abbrev pub in_range {ℓ} : {A : Type ℓ} → Option A → Result A
in_range none = err out_of_range
in_range (some a) = ok a

abbrev pub throw_if : Bool → Error → Result (Unit {0})
throw_if true e = err e
throw_if false e = ok tt
