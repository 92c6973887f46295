-- ===== src/Router.antt =====
-- pkg/plugin/implementation/router/router.go: the routing rules and the route of a request.
-- The file, the YAML decoder and `url.Parse` are no code of the program: they are the fields of
-- `Files`, an argument of what uses them.
pub mod Rules
pub mod Lookup
pub mod Spec
pub mod Loading
pub mod Known
pub mod Routing
pub mod Order
pub mod Tests
