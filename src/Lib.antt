-- ===== src/Lib.antt =====
-- Verification of CatTag, a Bluetooth component library in Go: its message protocol, its errors and
-- retries, its load balancers, its connection pool, its sessions and reconnections, its encryption
-- and access control, and its devices and their pairing.
--
-- How the parts interact. A handler (internal/protocol/protocol.go) frames messages over a
-- connection, a processor calls a handler with retries that the strategy of
-- pkg/bluetooth/errors.go decides, and a stream carries the bytes. The pool
-- (pkg/bluetooth/connection_pool.go) keeps connections by device and asks a balancer
-- (pkg/bluetooth/load_balancer.go) for one of them. The session manager
-- (pkg/bluetooth/session_manager.go) keeps a session by device and asks a security manager, which
-- is a parameter, for authentication and keys. The reconnect manager
-- (pkg/bluetooth/reconnect_manager.go) keeps a task by device, which its worker attempts when due.
-- The security manager (internal/security/manager.go) decides on access, and has its data encrypted
-- by the encryption manager (internal/security/encryption.go); the key store
-- (internal/security/keystore.go) keeps keys in a file. The device manager
-- (internal/device/manager.go) keeps what was found, and the pairing service
-- (internal/device/pairing.go) runs a goroutine for each pairing, which marks its device as paired.
--
-- Files and what they model:
--   Common      numbers, tests, lists and Go maps (association lists whose order is that of `range`)
--   Errors      pkg/bluetooth/errors.go, codes of pkg/bluetooth/constants.go: BluetoothError is
--               GoError, a value with an error is Result; Errors/Strategy is ErrorRecoveryStrategy
--   Protocol    internal/protocol/protocol.go: Bytes (encoding/binary), Frame (encodeFrame,
--               decodeFrame), Handler (RFCOMMHandler, L2CAPHandler, ProtocolFactory), Processor
--               (ProtocolProcessor), Stream (DefaultProtocolStream)
--   Pooled      PooledConnection of pkg/bluetooth/connection_pool.go
--   Balancer    pkg/bluetooth/load_balancer.go: RoundRobin, Weighted, LeastUsed, HealthBased
--   Pool        ConnectionPoolImpl of pkg/bluetooth/connection_pool.go
--   Session     SessionManager of pkg/bluetooth/session_manager.go
--   Reconnect   ReconnectManager of pkg/bluetooth/reconnect_manager.go
--   Encryption  EncryptionManager of internal/security/encryption.go
--   DefaultSecurity
--               DefaultSecurityManager of pkg/bluetooth/security_manager_impl.go
--   KeyStore    FileKeyStore of internal/security/keystore.go, with the files
--   Mutex       sync.RWMutex for the calls of one goroutine: what returns, and what waits for ever
--   Security    Manager of internal/security/manager.go: Access (lists, policies, Authorize), Keys
--               (session keys, Encrypt, Decrypt), Login (Authenticate)
--   Devices     Manager of internal/device/manager.go: Cache (what enters and leaves), Queries
--   Pairing     PairingService of internal/device/pairing.go: Steps has the goroutine of a session
--   Examples    runs on concrete data
--
-- State and operations. A method under its mutex is one step on a record of the state, and keeps
-- its name in snake case; a history is a list of calls in any order, which stands for the
-- interleavings of callers, tickers and goroutines. A method of the security manager, which takes
-- its lock more than once, is a computation under the lock. Pairings are a relation of steps, which
-- never wait for a lock, so that it serves for safety and not for progress. The devices and
-- pairings, which several maps point to, are cells of a heap. What the environment decides is an
-- argument: the clock, the random number, whether a context ended, what a connection answers. Times
-- are nanoseconds on the natural numbers, and `now.Sub(t) > d` is `t + d < now`, so durations are not
-- negative. `uint32`, `uint64` and the sum of weights wrap where the code can reach their end. Go's
-- `int` is an integer, or a natural number where the code keeps it positive. Float scores are
-- thousandths, which are only compared. The conclusions on closed connections rest on lists that
-- record each `Close`.
--
-- Parameters: encoding/json and hash/crc32 (a marshaller, its inverse, and a checksum below 2^32),
-- `sort.Slice` (a permutation that is sorted, where a theorem needs it), the crypto libraries (what
-- is sealed opens, where a theorem needs it), the file format of the keys (what is written is read
-- back, where a theorem needs it), regexp, the faults of the file system, the security manager of
-- sessions, the connection under a stream, any handler under a processor, the arithmetic of float64
-- under a delay of the reconnect manager (exact where a number below 2^53 is scaled by a power of 2
-- to below 2^63, where a theorem needs it), the backoff step of a retry strategy (exact up to 2^53,
-- where a theorem needs it) and the outcome of an attempt to reconnect. The retry
-- loops recurse on the number of attempts that are left, which starts at MaxRetries, as in the code;
-- other loops recurse on the list they run over, and the exchange sort of the nearby devices on
-- their number. There is no other fuel.
--
-- Not modelled: messages, timestamps and contexts of errors, which nothing branches on; the adaptive
-- balancer; the adapter, the scan sessions, configuration, monitoring, the client and server that
-- wire the parts, the command line and the example programs.
pub mod Common
pub mod Errors
pub mod Protocol
pub mod Pairing
pub mod Pooled
pub mod Balancer
pub mod Pool
pub mod Session
pub mod Encryption
pub mod Devices
pub mod DefaultSecurity
pub mod KeyStore
pub mod Mutex
pub mod Security
pub mod Reconnect
pub mod Examples
