-- ===== src/Setup/Sound.antt =====
-- The command that sets up a session, from the first block of pages to the list of contexts.
use imee.Local.{Local}
use imee.Session.{Session}
