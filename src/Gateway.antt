-- ===== src/Gateway.antt =====
-- The Web3 gateway (gateway/).
pub mod Informant
pub mod Middleware
pub mod Pubsub
pub mod Client
pub mod Example
pub mod Translator
pub mod EthFilter
pub mod Eth
pub mod Oasis
pub mod EthPubsub
pub mod RpcApis
pub mod Rpc
pub mod Run
pub mod CommandLine
pub mod Main
pub mod Metrics
pub mod Namespaces
pub mod Servers
