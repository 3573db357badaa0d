-- ===== src/Cookies.antt =====
-- internal/server/stash.go and session.go: cookies and form tokens that carry sealed state.
-- `Crypto` has what the program takes from Go's crypto and encoding/json packages, `Flash` the
-- one-time delivery cookie and the CSRF token, `Session` the cookies of native authentication,
-- `Make` the constructors of the codecs.
pub mod Crypto
pub mod Flash
pub mod Session
pub mod Framing
pub mod Sealed
pub mod Sessions
pub mod States
pub mod Csrf
pub mod Make
