-- ===== src/Lib.antt =====
-- xDivine-Ray: a control daemon for a proxy core on OpenWrt routers.
--
-- The daemon (internal/daemon) keeps one connection: it loads a configuration (internal/ucicfg),
-- resolves what is to be connected against the data model (internal/model), starts the core and,
-- where the capture mode needs it, a TUN process, and then has the firewall and the resolver hand
-- it the traffic. Its engine owns that state; the pin check and the upstream watch decide for it,
-- and its rings keep what it has measured and said.
--
--   Prelude            names shared by all files, byte strings, lists by native numbers
--   Model.Rule         internal/model/rule.go: the user's routing rules and their checks
--   Model              internal/model/model.go: capture modes, strategies and groups, profiles,
--                      settings, and the merge of a subscription; one file each, with
--                      the proofs beside or below it
--   Ucicfg.Data        internal/ucicfg/store.go: the loaded configuration and its lookups
--   Ucicfg.Store       internal/ucicfg/store.go: load and save; the profiles, groups, rules and
--                      subscriptions, Main the settings, Whole the package, File the text of its
--                      file. Ucicfg.Value is toInt, toBool and their inverses, Ucicfg.Names the named
--                      strings
--   Ucicfg.Token       internal/ucicfg/uci.go: nextToken, twoTokens, splitKeyword, quote
--   Ucicfg.Syntax      internal/ucicfg/uci.go: Section, Package and the loop of Parse
--   Ucicfg.Print       internal/ucicfg/uci.go: the lines of String, and how they are read back
--   Ucicfg.Text        internal/ucicfg/uci.go: Parse and String on the text of a file
--   Fw                 internal/fw/fw.go: Plan, AllBypass, dedupe; Fw.Packet and Fw.Meaning say what
--                      a plan means for a packet, Fw.Bypass what it leaves alone
--   Fw.Nft             internal/fw/nft.go: the chains of ruleset and Apply's choice; Run is the
--                      kernel's side, Scope, Chains and Refines the proof
--   Fw.Ipt             internal/fw/ipt.go: the commands of Apply, and the jumps that Revert takes out
--                      (Revert); Run is the kernel's side, the others the proof
--   Daemon.PinCheck    internal/daemon/pincheck.go: inspectPin, pinOutcomeFor, acceptNewPin
--   Daemon.WanWatch    internal/daemon/wanwatch.go: wanPrint and upstreamVerdict
--   Daemon.Ring        the rings of internal/daemon/traffic.go, internal/daemon/logring.go and
--                      internal/proc/proc.go
--   Daemon.Traffic     internal/daemon/traffic.go: History
--   Daemon.Journal     internal/daemon/logring.go: fileError, Errors, ClearErrors
--   Daemon.LogRing     internal/daemon/logring.go: emit and Entries, over the levels and entries of
--                      Model.Log (internal/model/log.go)
--   Daemon.Restore     internal/daemon/engine.go: wouldRestore, restoreDelay, restoreLoop
--   Daemon.Engine      internal/daemon/engine.go: the engine's and the system's state. Start is
--                      startLocked and teardownLocked, Connect is Connect with connectLockedOnce,
--                      its retry for a new pin and its fallback, Ops the other operations
--   Daemon.Clock       internal/daemon/timesync.go: agreedTime, networkTime, SyncClock; Agreed is
--                      what holds of a set of times, Network of the hosts' answers
--   Xray               internal/xray: Config is the configuration as a value, Words, Stream,
--                      Outbounds, KeepAlive, Rules, Inbounds and Parts what it is made of, Build the
--                      whole with what holds of it, and Routing what it means for a connection
--   Update             internal/update/update.go: sumFor and FetchWith
--   Proc               internal/proc/proc.go: recordTail and RecentOutput
--   Examples           concrete runs
--
-- A Go string is a list of bytes; a string with named values is a data type whose `other` holds
-- any other string. An int that may be negative is ℤ of Model.Int, without a bound. A mutable
-- object is a record that an operation takes and returns; a step of the engine is a function from
-- a world to an optional error and a world.
--
-- What other programs, the kernel and the network answer is data: an Attempt holds the answers of
-- one pass through startLocked and a Torn those of one teardown, so a theorem about all of them is
-- one about every behaviour of the outside. Parsers of the standard library that are not read here
-- (net.ParseIP, url.Parse) and the source of new ids are arguments. The loops are structural
-- recursion; fuel is used for the digits of a number only, where the number itself is enough.
-- The startup's retry loop has no end of its own; it runs over a list of rounds, and says so when
-- it has not ended with them.
--
-- Stopping the core and the TUN process always works in the model of a teardown; the code waits for them
-- and gives up in the end. An id that names a group and a profile at once is taken for the group's.
--
-- Not modelled: texts for logs and the interface, the API and the command line, traffic counters,
-- the core's own exit, and the JSON text of its configuration. In the engine the outcomes of building
-- that configuration and of applying the firewall's rules are the answers `built` and `fw_applies` of
-- an Attempt; what they build and install is modelled in Xray and Fw. How the core routes by its
-- configuration (Xray.Routing) is what its documentation says. The meaning of a rule for a packet (Fw.Nft.Run and
-- Fw.Ipt.Run) is the documented one of nft and iptables, for the first packet of a connection; how an
-- address is matched against a written network is a function that the packet brings.
pub mod Prelude
pub mod Model
pub mod Ucicfg
pub mod Daemon
pub mod Proc
pub mod Fw
pub mod Xray
pub mod Update
pub mod Examples
