-- ===== src/Shadow/Tests.antt =====
-- The copy of an entry at a concrete value.
use imee.Base.{◌≡◌, refl}
use imee.Shadow.{read_only}

cleared : read_only 0x277 ≡ 0x271
cleared = refl
