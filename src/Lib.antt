-- ===== src/Lib.antt =====
-- The DNS proxy of nextdns: what it answers to a client, and how it finds the answer.
--
-- The proxy receives a query over UDP or TCP, parses it, and resolves it: the hosts of this machine
-- first, then the upstream, then the names that were discovered on the local network, which its hosts
-- announce, its DNS server tells or the leases of its router hold. The upstream is
-- a list of forwarders or a resolver over a manager of endpoints, which sends the query to the
-- endpoint it chose, over plain DNS or over HTTPS, with a cache of responses in front. Profiles and
-- forwarders are chosen by the settings, which are kept in a file. The service takes the place of the
-- DNS server of this host in resolv.conf, and gives it back. The tables of neighbours give the
-- physical address of a client, and other processes send commands over a control socket. run.go puts
-- these parts together.
--
-- The files and the code that they model, by its path in the repository:
--   Net.antt                net.IP of the standard library, as the code uses it
--   Message.antt            internal/dnsmessage: an interface
--   Query.antt              resolver/query/query.go: New, parse, nutterECSOption
--   Resolver/Wire.antt      resolver/cache.go: the reading of bytes, skipName
--   Resolver/Cache.antt     resolver/cache.go: updateTTL, AdjustedResponse
--   Resolver/Cacher.antt    resolver/resolver.go: the interface Cacher, an interface here too
--   Resolver/Dns53.antt     resolver/dns53.go: DNS53.resolve
--   Resolver/Upstream.antt  resolver/resolver.go: DNS.Resolve; resolver/endpoint/manager.go: Do
--   Resolver/Doh.antt       resolver/doh.go: DOH.resolve, updateLastMod; Doh/Reading: readDNSResponse
--   Endpoint.antt           resolver/endpoint/doh.go, dns.go: Equal
--   Endpoint/Address.antt   resolver/endpoint/endpoint.go: New; doh.go: String; resolver/resolver.go: New
--   Endpoint/Providers.antt resolver/endpoint/endpoint.go: the providers, appendIPHint, parseAlpn
--   Endpoint/Manager.antt   resolver/endpoint/manager.go: testLocked, findBestEndpointLocked,
--                           newActiveEndpointLocked, getActiveEndpoint
--   Endpoint/Request.antt   resolver/endpoint/manager.go: the methods of activeEnpoint
--   Proxy/Reverse.antt      proxy/util.go: ptrIP, isPrivateReverse
--   Proxy/Hosts.antt        proxy/util.go: hostsResolve, replyRCode
--   Proxy/Resolve.antt      proxy/proxy.go: Proxy.Resolve
--   Proxy/Serve.antt        proxy/udp.go, proxy/tcp.go: the answer of a handler, frames on a stream
--   Proxy/Slots.antt        proxy/proxy.go, proxy/udp.go, proxy/tcp.go: the requests in flight
--   Proxy/Pool.antt         proxy/bufferpool.go
--   Discovery/Dns.antt      discovery/dns.go: reverseIP, uitoa
--   Discovery/Lookups.antt  discovery/dns.go: lookupAddr, lookupHost, sendQuery, the cache, init
--   Discovery/AntiLoop.antt discovery/semaphore.go and runSingle of discovery/dns.go
--   Discovery/Names.antt    discovery/util.go
--   Discovery/Hosts.antt    discovery/hosts.go, discovery/file.go
--   Discovery/Dhcp.antt     discovery/dhcp.go
--   Discovery/Mdns.antt     discovery/mdns.go; Mdns/Announced: parseEntries
--   Discovery/Routers.antt  discovery/merlin_linux.go, ubios_linux.go, firewalla_linux.go
--   Discovery/Sources.antt  discovery/resolver.go
--   Config/Profile.antt     config/profile.go
--   Config/Forwarder.antt   config/forwarder.go
--   Config/Settings.antt    host/service/config.go: the kinds of settings; config/config.go: lists
--   Config/Storage.antt     host/service/config.go: SaveConfig, LoadConfig
--   Config/Flags.antt       config/config.go: flagSet, Parse; config/ctl_unix.go
--   Host/ResolvConf.antt    host/dns_resolvconf.go; host/dns_linux.go: SetDNS, ResetDNS
--   Host/Servers.antt       host/dns_linux.go: the servers that are found; host/dns_util_unix.go
--   Run.antt                run.go: isLocalhostMode, shortID, setupClientReporting, GetProfileURL
--   Run/Endpoints.antt      run.go: nextdnsEndpointManager
--   Ctl.antt                ctl/server.go, ctl/client.go
--   Neighbors.antt          arp/ and ndp/: the tables of Linux and their cache
--   Netstatus.antt          netstatus/netstatus.go: diff, changed
--   Netstatus/Handlers.antt netstatus/netstatus.go: Notify, Stop, broadcast
-- The modules below these hold the proofs, Prelude the shared helpers, and Tests runs of the
-- definitions and of the theorems.
--
-- Bytes are natural numbers; a byte, a uint16 and a uint32 wrap where the code lets them. Go's panics
-- are `none` in an `Option`. Times are nanoseconds. A function that writes into a buffer returns the
-- buffer. The network, the clock, the tables of the host and what a lock lets in between are inputs;
-- an interleaving is a sequence of steps.
--
-- Fuel: the loop of DNS53.resolve has five rounds, as each round that goes on counts a retry. The
-- loop over the additional records of a query takes any fuel, as it may not end. The loop on a TCP
-- stream has one round for each query and one for the end. uitoaSlow has the 20 places of its buffer.
-- The loop over the records of an HTTPS reply takes any fuel too. parseAlpn and appendIPHint take a byte
-- in each round at least, and so does readClientList; sendQuery ends with its fifth retry. Making room in
-- the table of names needs two rounds, while the clock moves. The binary search of appendUniq has a
-- round for each element. Every other loop follows its list or its counter.
--
-- Not modelled: the message parser and builder (internal/dnsmessage, a copy of a library) and the ARC
-- cache are interfaces with their laws; the parser of queries takes the ARP and NDP tables as
-- interfaces, too. Sockets, HTTP, the transport of the control socket and what JSON makes of data are
-- inputs; the
-- listeners, the installers of services and routers and the subcommands only wire the parts together.
pub mod Prelude
pub mod Net
pub mod Message
pub mod Query
pub mod Resolver
pub mod Endpoint
pub mod Proxy
pub mod Discovery
pub mod Config
pub mod Ctl
pub mod Neighbors
pub mod Netstatus
pub mod Host
pub mod Run
pub mod Tests
