-- ===== src/Lib.antt =====
-- The I-am-human contracts: the SBT registry, its issuers, and the contracts that ask it for humans.
--
-- The program is a set of NEAR contracts in Rust. The registry (contracts/registry) keeps the
-- soulbound tokens of all issuers: balances and token records, supplies by owner, class and
-- issuer, bans, flags and locks. Issuer contracts call it to mint, renew, revoke and recover; owners
-- burn their tokens or transfer their soul; other contracts ask it for a proof of humanity. The
-- oracle (contracts/oracle) issues the tokens of that proof, for claims that an authority signed;
-- the community contracts (contracts/community-sbt, contracts/community-open) issue tokens of
-- classes with minters of their own. EasyPoll (contracts/easy-poll) asks the registry before it
-- counts an answer to a poll for humans, and the human checker (contracts/human_checker) is called
-- by the registry on behalf of a human. The kudos contract (contracts/kudos) has the registry mint a
-- token for a kudos that enough humans upvoted.
--
-- Base: library names, Boolean tests, lists, and the transactions in which all operations are
--   written: from a state to a failure, or to a value and a new state. A panic and a returned
--   error both leave no change behind, so both are failures. `Ensures` says what holds of a call
--   if it succeeds; `Returns` says that it succeeds and what holds then; `SucceedsIf` says under
--   which test exactly it succeeds, and what holds then.
-- Near: the calling environment, machine words that wrap around (contracts/Cargo.toml leaves
--   overflow checks off in the release build), texts that are read, and the collections of the
--   SDK: maps as functions, and the ordered tree map as a sorted list, which iteration needs.
-- Sbt: metadata, token data and events (contracts/sbt/src). Cost: contracts/cost/src.
-- Registry: the contract of contracts/registry/src. Keys are the keys of storage.rs; Admin has
--   `new`, the guards, the issuers and the flags; Query the queries of registry.rs; Human
--   `_is_human`, the verified calls and the locks; Mint, Burn, Transfer, Recover, Revoke and Renew
--   the operations of those names; Tables and Tally what they share. Invariant states what the
--   tables say of one another, and the child modules of the operations prove what they keep.
-- Oracle: the contract of contracts/oracle/src. Account has util.rs, Mint `new`, `sbt_mint` and its
--   callback, Admin the admins' operations. Identities has the world of mints that wait for the
--   registry's answer, with the steps that can follow one another in any order.
-- Community: Mint and Renew have the loops of `sbt_mint_many` and of the callbacks, which the two
--   contracts share up to the question who may mint; Closed is contracts/community-sbt/src and
--   Open contracts/community-open/src.
-- Clients: HumanChecker (contracts/human_checker/src), Ubi (contracts/ubi/src), Soulbound
--   (contracts/soulbound-class/src) and DemoIssuer (contracts/demo-issuer/src).
-- Kudos: the contract of contracts/kudos/src. Limits has settings.rs and the hashtags, Json what is
--   taken out of the external database's answers, Owner the operations of contract.rs, Exchange
--   the exchange of a kudos for a token, and Upvote the upvote, with their callbacks.
-- Polls: the contract of contracts/easy-poll/src. Vote has its operations, the callback of the
--   registry's answer among them; `respond` returns the callback that it leaves, if any.
--
-- A call that makes a promise returns the promise's arguments; its callback is an operation of its
-- own, with the answer as an argument. Accounts are numbers in the order of the account strings;
-- texts of the registry are carried and not read, texts of EasyPoll are their bytes, texts that
-- the oracle reads are their characters. The host's storage usage, the JSON parser's verdict, and
-- for the oracle the codecs, the signature check and the characters of account names are
-- parameters; of the codecs, only what the crate hex documents is assumed, where a theorem says so.
-- For kudos, what serde reads in a value (a kind, an account, a number of voters) and the text of
-- accounts and numbers are a parameter.
-- Loops are structural recursion over the lists they run through, so no fuel is used. A loop over
-- the tree map runs over the entries as they were when it began, as the source does where it
-- collects them first.
--
-- Not modelled: JSON rendering of events and arguments, log lines of memos, the scheduling of gas,
-- state migration, and the calls of kudos that give a kudos and comment on one, which write to the
-- external database and keep only a counter themselves.
pub mod Base
pub mod Near
pub mod Sbt
pub mod Cost
pub mod Oracle
pub mod Community
pub mod Clients
pub mod Kudos
pub mod Registry
pub mod Polls
