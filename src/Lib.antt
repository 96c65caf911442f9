-- ===== src/Lib.antt =====
-- The PublicIPClaim operator: an operator for Kubernetes that takes WAN addresses by DHCP through
-- a router and puts them into a Cilium load balancer pool.
--
-- The program's parts. The controller (internal/controller) reconciles PublicIPClaim objects
-- (api/v1alpha1). For a claim without an address it has the router create an interface and ask for
-- an address, through the agent of the router, and adds the address to the pool; for a Ready
-- claim it verifies the router; for a claim that is being deleted it takes the address out of the
-- pool and cleans up the router. It reaches the agent through a tunnel over SSH
-- (internal/router/agent_client.go). A second connection to the router is kept by a connection manager
-- (internal/ssh), which watches it by keep-alives, reconnects with a growing wait, and tells its
-- handlers of drops and reboots; the controller's handlers answer by annotating the claim, which
-- brings on a reconcile. On the router an agent (internal/agent) serves leases over
-- HTTP: it creates the interface, gets an address by DHCP, stores the lease and renews it.
--
-- What models what:
--   Base             helpers: tests, lists, dictionaries keyed by strings, error texts, decimals, and
--                    Action, a state monad with errors, in which the operations are written.
--   Api              the types of api/v1alpha1/publicipclaim_types.go.
--   Ssh/Words        the functions of Go's bytes and strings that internal/ssh calls.
--   Ssh/Config       RouterConfig with Validate and the defaults of NewSSHConnectionManager.
--   Ssh/Manager      SSHConnectionManager: State is the record with its handlers and metrics,
--                    Connection has Start, establishConnection, transitionToReconnecting,
--                    reconnectLoop and Close, Checks has RunCommand, checkConnection and
--                    keepAliveLoop. `step` is what one event does: a call, a tick of a loop, the
--                    end of the context. Race has Close while a loop is dialling or checking.
--   Ssh/Runner       sshCommandRunner, over the sessions of golang.org/x/crypto/ssh.
--   Ssh/Registry     SSHManagerRegistry, over a heap of managers; Refines has the table of shared
--                    managers that it implements.
--   Ssh/Uptime       parseUptime and GetRouterUptime.
--   Ssh/Commands     the rest of internal/ssh/commands.go.
--   Controller/Pool  defaultEnsureIPInPool and defaultRemoveIPFromPool, over the interface PoolApi
--                    to the dynamic client; Contract has what the server promises.
--   Controller/Names sanitizeName, the generated interface name, generateUniqueMAC, coalesceInt.
--   Controller/Reconcile  Reconcile and fail. Calls has the record Ops of everything that Reconcile
--                    calls and the list of calls with their answers, which a run adds to; Branches
--                    and Allocation have the branches in the order of the code.
--   Controller/Credentials, Script, Verification  the reading of a router's SSH key,
--                    defaultRunRouterScript and verifyClaimState.
--   Controller/Tracking, Managers, Cleanup  getSSHManager, in two parts, and
--                    defaultCleanupRouterInterface, with the registry and the maps of the reconciler;
--                    Visits has any sequence of their calls.
--   Controller/Events  the handler that getSSHManager registers.
--   Controller/Wiring  the reconciler with these methods as its calls: Ops filled.
--   Controller/Recovery  a stale lease, through the controller, the client and the agent.
--   Agent/Network    internal/agent/network/config.go over the interface Kernel to netlink; Links has
--                    the laws of netlink and which interfaces the operations leave.
--   Agent/State      the types of internal/agent/lease and the state of the agent; Host is what it
--                    calls: the kernel, the disk, JSON, the DHCP client, ARP and the clock.
--   Agent/Store      internal/agent/lease/types.go.
--   Agent/Allocation allocateLease, releaseLease, startRenewalLoop and stopRenewalLoop.
--   Agent/Renewal    renewLease, rebindLease, one round of a renewal loop, verifyLeases.
--   Agent/Handlers   the HTTP handlers, by the status code and the body that they send, and the routes.
--   Agent/Server     New, Start and Shutdown of the agent.
--   Agent/Machine    the host of the agent with its own DHCP client and gratuitous ARP: Host filled,
--                    and Rebound a rebinding on it.
--   Agent/Life       requests, timers, starts and ends of loops in any order; Sound has what holds of
--                    the leases throughout, Orphan a loop that returns too late.
--   Agent/Garp       internal/agent/network/garp.go.
--   Agent/Dhcp       internal/agent/dhcp/client.go over the packages dhcpv4 and nclient4; Times has its
--                    int64 durations.
--   Router/Client    AllocateLease, ListLeases, GetLease and ReleaseLease of
--                    internal/router/agent_client.go; Wire has requests that reach the agent, and
--                    Allocated, Conflict, EndToEnd and Reads what they do there.
--   Router/Connection  NewAgentClient and Close; Calls has the client as the controller sees it.
--   Router/Tunnel    the goroutine that forwards connections through the tunnel, by its steps; Copy
--                    has copyConn, by the ends of its copies.
--
-- How the code corresponds. A Go method that returns an error is an Action: it takes a state and
-- gives a result and the state after it. A call whose code is not part of this repository is a field
-- of a record that the definitions take; the state it works on is abstract, so that a property holds
-- whatever the call does. Reconcile takes such a record, Ops, for its own methods too, as the code
-- takes hooks for four of them, and Controller/Wiring fills it with these methods. Client calls that
-- fill in an object give the object back. A pointer to a connection manager is the manager's number
-- in the heap of the registry. A uint64 or an atomic.Int64 is a natural number below 2^64, with its
-- wrap-around written out; times and durations are natural numbers of nanoseconds, in the DHCP client
-- the bit patterns of an int64, uptimes of hundredths of a second. Logging has no counterpart. A text
-- of bytes is a list of codes; a name in a claim is a string. The deadline of a context is part of
-- what the calls under it answer.
--
-- Loops and fuel: the loops over blocks, words, handlers and leases are structural, and so is that
-- over the attempts of a gratuitous ARP. Printing a number in decimal takes twenty digits as fuel,
-- which Base.Decimal.enough_digits proves to be enough below 2^64. The two loops of the connection
-- manager, the renewal loops of the agent and the forwarding loop of the tunnel run for as long as
-- something else does not end them, and are modelled by their single rounds or steps, as events of a
-- transition function; the renewal loops are a list in the agent's state.
--
-- Not modelled: UpdateInterfaceStatus of the lease store, which nothing calls and which never
-- returns; the bytes that copyConn copies; the timeouts of the HTTP client and the start of the HTTP
-- server; the flags and the wiring in cmd; the generated deep copies and registration; the tests and
-- their helpers. Reconciles of two claims run one after the other, never interleaved, and so does the
-- handler of a router event. A request to the agent and a round of a renewal loop run to their end
-- before the next one, but for the exchange of a renewal that Agent.Rounds takes apart.
pub mod Agent
pub mod Router
pub mod Base
pub mod Api
pub mod Ssh
pub mod Controller
