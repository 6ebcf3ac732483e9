-- ===== src/Lib.antt =====
-- A verification library for goafp, an AFP client in Go with an NFS bridge.
--
-- The program is a stack. internal/dsi frames packets on a TCP connection and multiplexes requests over
-- it by ids. internal/afp builds AFP commands, sends them over DSI and parses their replies: sessions and
-- logins, volumes and directories, forks that are read and written in concurrent pieces, symbolic links.
-- internal/nfsfs shows a volume as a file system to an NFS server, over a connection that is dialled again
-- when it dies. cmd/goafp is the command line: it connects, runs a command on a volume and cleans up.
--
-- Files:
--   Base: native numbers, lists, Boolean tests, ℤ, big-endian bytes, numerals as fmt prints them,
--     and Outcome: a Go result, an error or a panic.
--   Dsi/Header: internal/dsi/header.go. Dsi/Options: the options of OpenSession. Dsi/Conn:
--     internal/dsi/conn.go, its state as a record with the table of pending requests, the channels'
--     buffers and the packets sent, and one function for each critical section; Dsi/Conn/Request has
--     the sections of a request behind register, Dsi/Conn/Lifecycle the step relation of the
--     goroutines, Dsi/Conn/Routing what holds in every state that it reaches, Dsi/Conn/Register the
--     loop of register, Dsi/Conn/Stream the read loop on bytes, Dsi/Conn/Framing the ways to cut a
--     stream into packets.
--   Afp/Builder, Afp/Reader, Afp/Text: internal/afp/wire.go and the string functions that it uses.
--   Afp/Codes: internal/afp/result.go, its texts in Afp/Codes/Names. Afp/Entry:
--     internal/afp/entry.go, its format in Afp/Entry/Format.
--   Afp/ServerInfo: internal/afp/serverinfo.go.
--   Afp/Link: the calls of a DSI connection as state passing over a world, which is a parameter, and
--     Session.command on them.
--   Afp/Session: login of internal/afp/session.go. Afp/Uam: internal/afp/uam.go. Afp/Srp:
--     internal/afp/srp.go, with the arithmetic of Base/Modular; Afp/Uam/Honest and Afp/Srp/Honest
--     are about exchanges with servers that keep to the protocol. Afp/Volume: the volumes of
--     session.go, ops.go and setparams.go.
--   Afp/Fork, Afp/Write: internal/afp/fork.go and write.go; Afp/Fork/Failing is about errors of a
--     group. Afp/Symlink: internal/afp/symlink.go, one call after the other in
--     Afp/Symlink/RoundTrip.
--   Nfsfs/Conn: internal/nfsfs/conn.go; Nfsfs/Conn/Runs is about what a run of `do` keeps.
--   Nfsfs/File: internal/nfsfs/file.go, a handle and its operations on the connection manager.
--   Nfsfs/Errors, Nfsfs/Paths, Nfsfs/Fs: internal/nfsfs/fs.go, its errors, its paths (with path.Join
--     and path.Clean of Go) and its operations: Nfsfs/Fs/Open opens files, Nfsfs/Fs/Dirs makes
--     directories, Nfsfs/Fs/Attributes changes modes, owners and times. Nfsfs/Serve: FSStat of
--     internal/nfsfs/serve.go.
--   Dsi/Setup: Dial, and GetStatus and OpenSession as requests. Afp/Link/Frames and
--     Afp/Session/Frames are about what requests, calls and logins keep.
--   Cmd: cmd/goafp/main.go, its targets in Cmd/Target, its connections in Cmd/Connect, its commands
--     in Cmd/Commands, what they print in Cmd/Output, main in Cmd/Main; Cmd/Closed is about the
--     connections that are open afterwards, Cmd/Streams and Cmd/Uploads about cat and put from end
--     to end.
--   Tests: runs on concrete inputs.
--
-- Machine integers are native numbers, with the wrap-around written where the source can reach it. Bytes
-- are numbers; where their range matters it is a condition. Numbers of type int that stand for sizes are
-- natural, 0 for what is not positive.
--
-- Requests that the source has in flight together are a list in the order in which the server takes
-- them, any permutation of the pieces; which of two that fail returns first is up to the world beyond
-- the connection. Interleavings of a connection's goroutines are sequences of steps, a step for each
-- critical section; other goroutines of a connection manager are functions on its state.
--
-- Fuel: register has 65536 rounds, one for each id; the option loop as many as the payload has bytes, and
-- one more; mgf1SHA1 as many as bytes are wanted; a numeral 64 digits, enough below 2^64; the read loop,
-- ReadDir, WriteTo and ReadFrom take it as an argument, and the statements on them say how much is enough.
-- Running out is `none`, which no Go result is.
--
-- Not modelled: transports, timeouts and contexts (they show in what a connection answers), texts of
-- errors other than the server's, the NFS server itself.
-- Parameters: golang.org/x/text normalization, MD5, SHA-1, CAST5, the random source, io.ReadFull,
-- url.Parse, net, local files, time.Format, the sort of volumes, nfs.Serve, and what a server answers.
pub mod Base
pub mod Dsi
pub mod Afp
pub mod Nfsfs
pub mod Cmd
pub mod Tests
