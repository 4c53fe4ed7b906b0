-- ===== src/Lib.antt =====
-- nexpack: applications as single executable files ("bundles"), a store of their layers, and a
-- daemon that mounts and sandboxes them.
--
-- A bundle is a stub, a header (a magic number and a Cap'n Proto message), the data of the layers,
-- and perhaps a block of bootstrap binaries with a trailer. `nxpk pack` writes it, `nxpk sign`
-- signs it, `nxpk install` and `nxpk update` put its layers into the store, and `nexpackd` mounts
-- them and answers with the arguments for bubblewrap and a seccomp filter.
--
-- Which file models which part:
--   Permission, Layer    nexpack-core/src/permission.rs and layer.rs, the shared types
--   Header               nexpack-core/src/header.rs: `parse` and `encode`; Header.Wire is what the
--                        code uses of Cap'n Proto
--   Bundle               nexpack-core/src/lib.rs: offsets, `extract_layer`, bootstrap blocks
--                        (Bundle.Bootstrap) and trailers (Bundle.Trailer)
--   Verify               nexpack-core/src/verify.rs: `verify_layers` and `verify_digest`;
--                        Verify.Command is nxpk/src/commands/verify.rs
--   Signing              nexpack-core/src/signing.rs: the artifact and the verification;
--                        Signing.Sign is nxpk/src/commands/sign.rs, with Signing.Sign.Command its
--                        choice of a key and of its arguments
--   Trust                nexpack-core/src/signing.rs: the policies and their patterns; Trust.Config is
--                        trust.toml and nxpk/src/commands/trust.rs
--   Store                nexpack-core/src/store.rs; Store.Install is nxpk/src/commands/install.rs, with
--                        the desktop entry in Store.Install.Desktop; Store.Places has the
--                        paths, and where its links lead
--   Update               nexpack-core/src/update.rs and the download loop of
--                        nxpk/src/commands/update.rs; Update.Command is the rest of that command,
--                        and Update.Background the update checker of nexpackd/src/main.rs
--   Commands             sequences of the commands that change the store, with
--                        nxpk/src/commands/remove.rs and gc.rs; Commands.Permissions is
--                        nxpk/src/commands/permissions.rs, Commands.Leftovers compares what
--                        gc.rs and remove.rs leave, and Commands.Line is nxpk/src/main.rs
--   Interleaved          runs of the command line and requests of the daemon in any order
--   Inspect              nxpk/src/commands/inspect.rs
--   Export               nxpk/src/commands/export.rs
--   Run                  nxpk/src/commands/run.rs
--   Compat               nxpk/src/commands/compat.rs; Compat.Walk is its search of a folder and
--                        Compat.Programs the programs that it calls
--   Erofs                the calls of mkfs.erofs in pack.rs and compat.rs
--   Pack                 nxpk/src/commands/pack.rs; Pack.Command is the command from the bytes of the
--                        specification to the bundle
--   Seccomp, Sandbox     nexpackd/src/sandbox.rs: the filter and the arguments; Seccomp.Machine and
--                        Sandbox.Bwrap are references for what the kernel and bubblewrap make of them
--   Mounts               nexpackd/src/main.rs: the table of mounts, its handlers and the idle cleaner
--   Daemon               nexpackd/src/main.rs: requests and responses, `handle_mount`; Daemon.Start is
--                        its configuration and the state it starts with
--   Overlay              nexpackd/src/mount.rs; Overlay.Lower is a reference for what overlayfs makes of
--                        the list of layers
--   Sbom                 nexpack-core/src/sbom.rs
--   Paths                joined paths, and the searches for programs in mount.rs, run.rs, sign.rs
--                        and compat.rs
--   Prelude              shared types and lemmas; Prelude.Outcomes has nexpack-core/src/error.rs
--   Tests                the theorems at concrete inputs
--
-- How the code is modelled. A call comes to a value, an error or a panic (`Outcome`). Bytes and
-- characters are native numbers, a text is the list of its code points, and `utf8` gives its
-- bytes. Sums of 64-bit sizes wrap at 2 ^ 64 as in a release build, and a slice out of range
-- panics. A loop over a list is a recursion over the list and needs no fuel; the menu of the
-- permissions is a loop on fuel, one unit to a round, for which one more than the lines of its
-- input are enough, and the search of a folder is one on fuel, one unit to each path of a
-- folder that the system accepts, which is enough since it refuses long paths. The store is what stands under its root, and an
-- operation gives the store it leaves; a record `Disk` says which changes succeed and what a
-- failed one leaves. The daemon's handlers are what they do while they hold the mutex, and a run
-- is a list of such events in any order. A count of mounts is taken not to overflow 64 bits, and a
-- digest to be a single component of a path.
--
-- Parameters: Cap'n Proto (with the promise that a written message within its limits is read
-- back), TOML (with the promise that tables of the form that the code writes are read, and that a
-- table that stands twice is refused), the other readers and writers of JSON, SPDX and gzip,
-- BLAKE3, sigstore and cosign, the lossy reading of UTF-8, mkfs.erofs, the editor, the
-- environment, the disk and the network.
--
-- Not modelled: processes, sockets, threads and file descriptors (the daemon's socket, and the
-- start of bubblewrap and of the programs that mount); that requests of several clients interleave
-- within a mount request, and that the folder of an overlay is removed; what a failing command
-- leaves of a bundle it was writing, and temporary folders; messages to the user; clap's reading
-- of the command line; the generated code of the IPC schema; and the C stub.
pub mod Prelude
pub mod Permission
pub mod Layer
pub mod Header
pub mod Bundle
pub mod Sbom
pub mod Export
pub mod Compat
pub mod Run
pub mod Daemon
pub mod Overlay
pub mod Paths
pub mod Commands
pub mod Verify
pub mod Trust
pub mod Seccomp
pub mod Sandbox
pub mod Mounts
pub mod Pack
pub mod Signing
pub mod Store
pub mod Update
pub mod Inspect
pub mod Erofs
pub mod Interleaved
pub mod Tests
