-- ===== src/Values.antt =====
-- What a Python dictionary holds at a key, as the code's own tests tell the values apart
-- (`number` of libexec/scheduler_metrics.py).
use memcap.Prelude.{ℕ, Bool, true, false}

-- `missing`: no such key. `num`: a finite number that is not negative, the kind `number` accepts.
-- `invalid`: a value that `number` refuses, such as a text, a Boolean, a NaN or a negative number.
pub data Field : Type 0 where
  missing : Field
  invalid : Field
  num : ℕ → Field

-- `number(value)`
unfoldable pub number : Field → Bool
number missing = false
number invalid = false
number (num n) = true

-- `d.get(key, default)` of a stored number
unfoldable pub field_or : ℕ → Field → Field
field_or d missing = num d
field_or d invalid = invalid
field_or d (num n) = num n

-- The number that a field holds; `invalid` counts as 0, as a negative number does under `max`.
unfoldable pub amount : Field → ℕ
amount missing = 0
amount invalid = 0
amount (num n) = n
