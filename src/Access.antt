-- ===== src/Access.antt =====
-- internal/access: the local rule model and its compiler to iptables arguments.
pub mod Ports
pub mod Rules
pub mod Compile
pub mod Netfilter
pub mod Writer
pub mod Toy
mod Examples
