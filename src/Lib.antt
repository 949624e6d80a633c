-- ===== src/Lib.antt =====
-- Hydrascale runs several tailnets on one Linux host, each in a network namespace of its own with
-- its own tailscaled. The daemon loads a configuration file and, on every tick, compares the
-- tailnets that the file declares with the namespaces of the host, plans the actions that bring
-- the host toward the file, runs them, and writes the packet filter and the host routes.
--
-- The parts, and how they interact. The package internal/config decodes the file and refuses one
-- that the daemon cannot run. internal/access turns the local rule set of the file into iptables
-- rules and keeps two chains on the host. internal/reconciler drives the tick: Diff plans, Apply
-- runs the plan through executeAction and counts the failures of each tailnet, and the remaining
-- steps record what the operator has to know. internal/hostaccess writes the routes of the host
-- into the namespaces, and the names of its peers into its resolvers. internal/dns answers the
-- queries for those names. internal/namespaces holds the nat rules and the IPv6 keys that the
-- tick sets. internal/policy edits the policy document of a tailnet, apart from the tick.
--
-- * Access.antt and its children model internal/access: Ports and Rules are rules.go and
--   migrate.go, Compile is compile.go, Writer is the text that writer.go parses and prints, and
--   Writer/Commands is its Apply, Check and Teardown. Netfilter is the interface of a packet
--   filter, against which the compiled chains are read.
-- * Config.antt models the fields and the small accessors of internal/config/config.go, Names its
--   ValidateTailnetNames and ResolveTailnetRef, Publish its ValidatePublish, Addresses the checks
--   of an address and a URL there and in console.go, and Loader its LoadConfig.
-- * Reconciler.antt models the maps of the Reconciler and their bookkeeping in
--   internal/reconciler/reconciler.go, Plan its Diff, Execute its executeAction, Apply its Apply,
--   Endpoints its declaredRules, Protection its checkDNSProtection and StopDaemon, and Jumps the
--   reportJumps of access.go. Env holds the host that a tick works on, with its DesiredState and
--   ActualState; Tick/Watch is checkHostFile and probeReachability, Tick/Paths the forward path
--   and the removal of old rules, Tick/Rules compileAccess and applyAccess, Tick/Ipv6 the file
--   ipv6.go, Tick/AccessDiff the AccessDiff, Tick/Teardown Shutdown and uninstall.go, and
--   Tick/Cycle Reconcile, Loop and ApplyAccess.
-- * HostAccess.antt models internal/hostaccess. Peers and Records are peers.go, Resolved is
--   resolved.go, Hosts is hosts.go, Split is the first half of syncDNS in hostaccess.go and
--   Manager the rest of that file. For routes.go: Destinations and Tables are the tests and the
--   parsers, Sets is diffRoutes and mergeRoutes, Sync is the commands, Sync/Write is
--   SyncHostRoutes and Sync/Remove the removals.
-- * Namespaces.antt models the names, the indices and the addresses of internal/namespaces/ns.go.
-- * Dns/HostFile.antt models internal/dns/hostfile.go, Dns/Alias the zones of
--   internal/dns/alias.go, Dns/Listeners its listeners, Dns/Forwarder internal/dns/forwarder.go,
--   and Reach.antt internal/reach/reach.go.
-- * Namespaces/Rules models the nat rules, the teardown and the removal plan of
--   internal/namespaces (ns.go and removal.go), Namespaces/Reap the removal of stale rules, and
--   Namespaces/Ipv6 its ipv6.go.
-- * Policy.antt models internal/policy/document.go: Tree the indentation and the commas of new
--   entries, Document, Sections and Approvers the edits of list sections, map sections and
--   autoApprovers, Reading the check of the keys and the typed readers, and Change the methods as
--   data, for sessions of edits.
-- * Common.antt holds what the parts share: Boolean tests, lists, texts as lists of code points,
--   the functions of the package strings, maps as association lists, and results.
--
-- A function of the source is a function here under the name that it has there, in lower case
-- with underscores; an error text that only a person reads is a constructor, and one that an
-- event stores is a text. A method that changes its receiver takes the state and answers the new
-- one. Code that runs a command takes the host as a value and a runner as a parameter, and
-- answers the next host. A map is an association list, whose order stands for the order in which
-- Go ranges over it. Every recursion is on a list or a text, so no function takes fuel but those
-- that print a decimal and a hexadecimal number, whose fuel is the number itself. Numbers have no
-- bound, because the source bounds each where it reads it: a port at 65535, a route table at
-- 4294967294, the events at a thousand.
--
-- Parameters stand for the Go library (URLs, addresses, CIDR blocks, durations, the environment,
-- SHA-256), for the commands of the host, and for the managers that the reconciler drives. What a
-- theorem needs of them is a record of laws, each with a concrete instance beside the examples:
-- Netfilter for the packet filter, Chains for the listing, the restore and the insertion of
-- iptables, RouteDevice for ip route, Ports for the sockets of the listeners, HuJson for the
-- parser of policy documents, and Sysctl for the keys of the kernel.
--
-- Not modelled: the decoding and the writing of the YAML file, locks and goroutines, log lines,
-- the time of an event and its JSON record, the sockets of the DNS forwarder, the sessions of the
-- host, the processes of tailscaled, the creation of a namespace and the rules inside it, the
-- stores of policies, the HTTP API, the consoles and the command line.
pub mod Common
pub mod Dns
pub mod Reach
pub mod Access
pub mod Config
pub mod Reconciler
pub mod HostAccess
pub mod Namespaces
pub mod Policy
