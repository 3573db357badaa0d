-- ===== src/Web.antt =====
-- internal/server/server.go, native.go, page.go and assets.go: who may ask, which requests may change
-- something, the handlers and pages, the headers around them, and `New`.
pub mod Identity
pub mod Origin
pub mod Mutation
pub mod Response
pub mod Oidc
pub mod Authentic
pub mod Native
pub mod SignIn
pub mod Login
pub mod Page
pub mod Render
pub mod Show
pub mod Assets
pub mod Middleware
pub mod Ready
pub mod Cached
pub mod Reason
pub mod Handlers
pub mod New
