-- ===== src/Database/Rows/Texts.antt =====
-- Texts and identifiers. The services only compare texts, store them and hand them on, so a text is
-- its number in some enumeration; what Python computes of a text (`strip`, `lower`, a hash) is a
-- function of the environment. A UUID is a number too.
use freelancing_platform.Prelude.{ℕ}

abbrev pub Text : Type 0
Text = ℕ

abbrev pub Uuid : Type 0
Uuid = ℕ
