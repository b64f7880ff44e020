-- ===== src/XoClient.antt =====
-- pkg/xenorchestra-csi/clients/xoclient.go: the client's methods over the SDK's library.
pub mod Calls
pub mod Vbds
pub mod Storage
pub mod Lookup
unfoldable pub use Calls.*
unfoldable pub use Vbds.*
unfoldable pub use Storage.*
unfoldable pub use Lookup.*
