-- ===== src/Lib.antt =====
-- Verification of runclaude, which runs an agent in a container whose network goes through a proxy.
--
-- The program. The host process decides what the container sees: binds, environment, settings files
-- and mounts (main.go, claudesettings.go, claudemerge.go, vcs.go, mountinfo.go, containment.go). The
-- proxy (proxy/) answers the container's DNS and HTTP requests: it allows hosts by patterns, records
-- those denied, lets the user approve them, intercepts the hosts that get credentials, and counts
-- tokens. The package creds keeps those credentials and refreshes them. session.go lists the sessions
-- of a directory and approves hosts in them.
--
-- The files.
--   Prelude, Text, Bits, Dict, Json: shared names, Go's strings as bytes, words, maps and JSON values.
--   Proxy.Match: proxy/match.go, `MatchDomain` and `matchPattern`; Relation is the specification.
--   Proxy.Allowlist, Proxy.Approver: proxy/approval.go, each method a function of the state and the
--     clock that gives the state after it. Invariant has the steps as a relation, History as a list.
--   Proxy.Dns: proxy/dns.go, `HandleDNSQuery` and all that it calls; Framing has `ServeDNSUDP` and
--     `ServeDNSTCP`.
--   Proxy.Usage: proxy/usage.go; Frames has the event streams, Reader the JSON bodies, Prices the table.
--   Proxy.Header, Proxy.Server, Proxy.Bedrock: proxy/server.go and proxy/bedrock.go. `serve` calls the
--     allowlist and the approver, `direct` and `inject_bedrock_at` rewrite requests.
--   Proxy.Handlers: the handlers of proxy/server.go, as the actions they take on their connections.
--   Proxy.Ca: proxy/ca.go, the files of the authority and the cache of leaf certificates.
--   Fakeapi.EventStream, Fakeapi.Server: fakeapi/eventstream.go, the encoder of the streams that
--     Proxy.Usage reads, and the handlers of fakeapi/fake.go.
--   Creds.TokenSource, Creds.File, Creds.Transport: creds/anthropic.go. `refresh` is `Refresh`, the
--     snapshot and the commit within it one step each; `round_trip` calls it on a 401.
--     Race has two calls at once, as a relation whose steps are the snapshots and the commits.
--   Creds.Load, Creds.Aws: creds/load.go and creds/aws.go.
--   Mountinfo, Containment: mountinfo.go and containment.go.
--   Claudesettings, Claudemerge: claudesettings.go and claudemerge.go.
--   Binds, Environ, Inject: the deduplication of binds, `scrubAWSCreds` and `setup.Inject` in main.go.
--   Options: the defaults of options.go and `parseMitmUpstream` in main.go.
--   Vcs, Session, Trust: `writeExcludeCopy` of vcs.go, session.go and trust.go. Session.Approve sends
--     the approvals of a session to the model of the approver.
--   Filepath: the functions of path/filepath that Launch uses.
--   Launch: the start in main.go. Exclusive has the session check, Auth the credentials, Domains the
--     lists of domains (with network.go), Binds the binds and their order, Environment the command and
--     the environment, Exclude and Settings the overlays of vcs.go and claudesettings.go. Mounts is
--     `childMain` and Init is `initMain` and `runAsInit`: lists of the operations of Plan, each of
--     which may fail.
--   Gitconfig: gitconfig.go, `sanitizeGitConfig` and `materializeGitConfig`.
--   Standalone: cmd/runclaude-proxy/main.go.
--   Tests and the Tests below Launch, Proxy, Creds and Fakeapi: runs, and the theorems at concrete
--     inputs.
--
-- Conventions. A string is the list of its bytes; case and white space are those of ASCII. A time is
-- a number. A method that holds its mutex throughout is one step; so is `Approve`, which adds to the
-- list and clears the record under two locks, one after the other. What is not in the repository is an
-- argument: the resolver, the signer, codecs, the token endpoint, the upstream servers, the file
-- system and the results of system calls. Outside Launch a path is joined by a slash, which
-- is `filepath.Join` for a clean path. The order of a `range` over a map is any; the model takes
-- one, on which no theorem depends.
--
-- Bounds and fuel. A count of tokens is a 64-bit word with wrap-around. The label loops of the DNS
-- parser and the loop over the frames of a stream run on fuel: each round takes a byte at least, and
-- the fuel is one more than the length, so that it never runs out.
--
-- Not modelled: what the kernel does with an operation of a plan; the copying of directory trees in
-- claudemerge.go; the passing of descriptors in network.go; the HTML page and the text
-- of reports; the fixed answers of the fake server; flags and the options file.
pub mod Prelude
pub mod Text
pub mod Bits
pub mod Dict
pub mod Proxy
pub mod Fakeapi
pub mod Json
pub mod Creds
pub mod Mountinfo
pub mod Binds
pub mod Environ
pub mod Options
pub mod Vcs
pub mod Session
pub mod Inject
pub mod Containment
pub mod Claudesettings
pub mod Claudemerge
pub mod Filepath
pub mod Trust
pub mod Gitconfig
pub mod Standalone
pub mod Launch
mod Tests
