-- ===== src/Rpc.antt =====
-- src/rpc/rpc.go: errors, versions and messages between clerks and servers.
use raft_kvs.Base.{ℕ, String, Bool, true, false}

-- `Err`; `unset` is the empty string of a reply that nobody filled in.
pub data Err : Type 0 where
  ok no_key version maybe wrong_leader wrong_group unset : Err

abbrev pub is_ok : Err → Bool
is_ok Err.ok = true
is_ok _ = false

abbrev pub is_version : Err → Bool
is_version Err.version = true
is_version _ = false

abbrev pub is_no_key : Err → Bool
is_no_key Err.no_key = true
is_no_key _ = false

-- A version is a `uint64`.
abbrev pub version_mod : ℕ
version_mod = 18446744073709551616

pub record PutArgs : Type 0 where
  pub key : String
  pub value : String
  pub version : ℕ

pub record PutReply : Type 0 where
  pub err : Err

pub record GetArgs : Type 0 where
  pub key : String

pub record GetReply : Type 0 where
  pub value : String
  pub version : ℕ
  pub err : Err
