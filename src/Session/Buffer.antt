-- ===== src/Session/Buffer.antt =====
-- The time stamps stay inside ts_buffer1.
use imee.Base.{ℕ, Option, none, some}
use imee.Session.{Session}

-- The word at index `i` of ts_buffer1.
abbrev pub word_at : Option (ℕ → ℕ) → ℕ → ℕ
word_at none i = 0
word_at (some buffer) i = buffer i
