-- ===== src/Kv/Model.antt =====
-- src/models1/kv.go: the specification that the linearizability checker runs, for one key.
use raft_kvs.Base.{
  ℕ, ◌+◌, ◌%◌, ◌==◌, ◌||◌, Bool, true, false, String, Option, none, some, if◌then◌else◌, string_eq,
}
use raft_kvs.Rpc.{Err, version_mod, is_ok, is_version}

-- `Op` of a `KvInput`: 0 is a get, 1 is a put.
pub record KvInput : Type 0 where
  pub op : ℕ
  pub key : String
  pub value : String
  pub version : ℕ

pub record KvOutput : Type 0 where
  pub value : String
  pub version : ℕ
  pub err : Err

pub record KvState : Type 0 where
  pub value : String
  pub version : ℕ

abbrev pub is_maybe : Err → Bool
is_maybe Err.maybe = true
is_maybe _ = false

-- `Init`
abbrev pub init : KvState
init = record { value = ""; version = 0 }

-- `Step`: whether the output is allowed, and the next state; none for an unknown operation.
unfoldable pub step : KvState → KvInput → KvOutput → Bool × Option KvState
step st inp out =
    if inp.op == 0
    then (string_eq.test out.value st.value, some st)
    else if inp.op == 1
    then (if st.version == inp.version
        then (
          is_ok out.err || is_maybe out.err,
          some (record { value = inp.value; version = (st.version + 1) % version_mod }),
        )
        else (is_version out.err || is_maybe out.err, some st))
    else (false, none)
