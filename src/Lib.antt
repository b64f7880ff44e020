-- ===== src/Lib.antt =====
-- The CSI driver of Xen Orchestra: a storage driver that Kubernetes calls to create, attach, detach
-- and delete disks (VDIs) of Xen Orchestra, which it reaches through an SDK.
--
-- The parts. The program reads its options and its configuration, makes the driver, and serves it
-- over a unix socket. The gRPC server hands a call to the controller service or to the node service,
-- which are methods of one driver object. The controller service checks its request, resolves the
-- volume to a VDI through the client, a layer over the SDK, and acts on VDIs and VBDs (a VBD joins a
-- VDI to a VM). To create a volume it first selects a pool and a storage repository (SR). All state
-- lies in Xen Orchestra and in the mounts of the nodes: the driver keeps none between calls. The
-- node service mounts the device of an attached VDI at a staging path, and binds that path to the
-- targets of pods. A volume is known by the tags of its VDI, or by the VDI's name where tags were
-- lost, which the client then writes again.
--
-- Which file models what.
-- - Payloads: the SDK's structs. Csi: the messages of CSI and the driver's settings
--   (pkg/xenorchestra-csi/xenorchestra-csi.go). Constants: pkg/xenorchestra-csi/constants.go.
-- - Errors: pkg/xenorchestra-csi/clients/errors.go. An error is a text of the SDK, a declared error,
--   a wrapping or another message.
-- - Library: the SDK and the pure functions of other packages, which are parameters.
--   Library.Documented, World, World.Naming, World.Orderly (calls that follow one another),
--   World.Agrees (reads that do not depend on what was created), World.Tagging and World.Relocating
--   (the tags of VDIs, and their migration) state what is relied on of them. World.Keeps,
--   World.Leads and World.Returns have the rules for invariants, for results and for success.
-- - Regex, Tags, Names: pkg/xenorchestra-csi/clients/helpers.go and constants.go; BuildTag is
--   `build_tag`, ParseTagValue `parse_tag_value`, recoverVolumeNameFromVDI
--   `recover_volume_name_from_vdi`, and so on.
-- - XoClient: pkg/xenorchestra-csi/clients/xoclient.go. XoClient.Vbds has the VBDs and the wait,
--   XoClient.Storage the SRs, new volumes and migration, XoClient.Lookup the search for a VDI.
-- - Topology: pkg/xenorchestra-csi/topology/pool_selector.go.
-- - Capabilities: pkg/xenorchestra-csi/volume_capabilities.go.
-- - Controller: pkg/xenorchestra-csi/controllerserver.go. Controller.Publish has
--   ControllerPublishVolume and ControllerUnpublishVolume, Controller.Create has CreateVolume, and
--   Controller.Volumes the other methods. Controller.Ownership is about any sequence of calls of
--   the service, Controller.Lifecycle about a creation with the deletion of what it made.
-- - Node: pkg/xenorchestra-csi/nodeserver.go; NodeStageVolume is `node_stage_volume`, and so on.
--   Mounter: pkg/xenorchestra-csi/clients/mounter.go over the mount utilities. Mounter.Table: the
--   mount table, and what is relied on of the calls that change it. NodeMetadata:
--   pkg/xenorchestra-csi/clients/node_metadata.go and clients/stub/node_metadata_stub.go.
-- - Server: pkg/xenorchestra-csi/server.go and Run. Startup: NewDriver,
--   pkg/xenorchestra-csi/config.go and version.go, and cmd/xenorchestra-csi/main.go.
-- - Options: pkg/xenorchestra-csi/driveroptions.go and NewDriverWithDependencies. Identity:
--   pkg/xenorchestra-csi/identityserver.go.
-- - Base: texts, lists and the monad. Examples: a small Xen Orchestra and a node in memory and runs
--   on them.
--
-- The correspondence. A method is `Exec S E A`: from a world of type S to a value, an error or a
-- panic, and the world after. `S` and the library over it are arguments, so that the definitions
-- say which calls are made and in which order, and nothing about what they do; what they do is a
-- hypothesis, which the Examples meet: `IsLawful`, `IsNaming`, `IsOrderly`, `IsApart`, `IsTagging`,
-- `IsPresent`, `IsRelocating`, `IsForgetting` and `IsDocumented`, with `CanConnect`, `IsPrompt`,
-- `CanDisconnect` and `CanDelete` where success is stated; `IsOs`, `IsMounter` and `IsBusy` for a node. A
-- chain of `if err != nil` is a do block. A nil pointer that the code reads is a panic. A struct's
-- pointer is an `Option` where the code tests it. A map is a list of pairs. A UUID is a number, and
-- uuid.Nil is 0.
--
-- Bounds and fuel. The wait for a VBD takes the number of polls that happen before its timeout, at
-- one poll a second for two minutes; the clock itself is not modelled, and what is stated of the
-- wait holds for each such number. The regular
-- expressions are matched by recursion on the expression and, under a star, on the text; a round of
-- a star must consume a character, so that the text's length is enough (Regex.Found).
--
-- What is not modelled. Log lines and the words of errors, which no code reads. Contexts and their
-- cancellation. The registration of flags. A call of `Stop` while `Serve` blocks: calls of the
-- server come one after another. Symbolic links: a path of the mount table stands for what it leads
-- to. Other actors: the world changes only by the calls of the method that runs, except that what is
-- read of a VBD, as the name of its device, may come with time.
pub mod Base
pub mod Payloads
pub mod Errors
pub mod Library
pub mod Regex
pub mod Tags
pub mod Names
pub mod XoClient
pub mod World
pub mod Csi
pub mod Capabilities
pub mod Topology
pub mod Constants
pub mod Mounter
pub mod NodeMetadata
pub mod Node
pub mod Server
pub mod Startup
pub mod Options
pub mod Identity
pub mod Controller
pub mod Examples
