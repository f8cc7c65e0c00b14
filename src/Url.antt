-- ===== src/Url.antt =====
-- src/io/net/url.cpp: URL::parse, the ports of the schemes, and URL::resolve with its paths. A
-- std::string is the list of its bytes and npos is `none`; the text has no zero byte. A URL whose
-- parse stops early has the members that were set until then. inet_pton is an argument, as in
-- InetAddress.
pub mod Paths
pub mod Parse
pub mod Resolve
pub mod Find
pub mod Segments
pub mod Clean
pub mod Parts
pub mod Stages
pub mod Printed
pub mod Ports
pub mod Marks
pub mod Target
pub mod Resolved
pub mod Hostless
mod Tests
