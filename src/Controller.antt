-- ===== src/Controller.antt =====
-- pkg/xenorchestra-csi/controllerserver.go
pub mod Publish
pub mod Ownership
pub mod Lifecycle
pub mod Create
pub mod Volumes
unfoldable pub use Publish.*
unfoldable pub use Create.*
unfoldable pub use Volumes.*
