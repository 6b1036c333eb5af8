-- ===== src/NetworkProxy.antt =====
-- sandboxed_api/sandbox2/network_proxy
pub mod Filtering
