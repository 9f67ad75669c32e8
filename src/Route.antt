-- ===== src/Route.antt =====
-- netlink/set_route.c: the tool that adds and deletes routes.
pub mod Message
pub mod Attributes
pub mod RoundTrip
pub mod Request
pub mod Parsed
pub mod Arguments
pub mod Grammar
pub mod CommandLine
pub mod Faults
