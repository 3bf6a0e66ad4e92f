-- ===== src/Relay/Runes.antt =====
-- The runes of nostream-share/src/utils/runes: restrictions on named values, written as text.
pub mod Alternative
pub mod Check
pub mod Rune
pub mod Reading
pub mod Restrictions
pub mod RoundTrip
pub mod Passing
pub mod Termination
