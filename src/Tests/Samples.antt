-- ===== src/Tests/Samples.antt =====
-- Concrete parameters and states for the examples: codecs, a printer, a log and a peer.
use Prim.Native.Char.{code}
use Prim.Native.String.{[] as end, ◌∷◌ as put_char}
use raft_kvs.Base.{
  ℕ, zero, suc, ◌+◌, ℤ, pos, negsuc, ◌≡◌, ◌≢◌, refl, ap, ◌∙◌, arith, false, String, List, [], ◌∷◌,
  Option, none, some, ◌==◌, if◌then◌else◌, empty, insert, string_eq,
}
use raft_kvs.Raft.Types.{
  Raft, Gob, LogEntry, Stored, ServerState, RequestVoteArgs, AppendEntriesArgs,
}
use raft_kvs.Rpc.{PutArgs}
use raft_kvs.Kv.Counter.{IntGob}
use raft_kvs.Kv.Server.{KvServer, Op, Fmt, MapGob}

-- A codec for commands that are numbers: each signed number as its sign and its size.
unfoldable pub sign : ℤ → ℕ
sign (pos n) = 0
sign (negsuc n) = 1

unfoldable pub size : ℤ → ℕ
size (pos n) = n
size (negsuc n) = n

unfoldable pub signed : ℕ → ℕ → ℤ
signed zero n = pos n
signed (suc s) n = negsuc n

pub signed-sign : (z : ℤ) → signed (sign z) (size z) ≡ z
unfolding sign size signed
signed-sign (pos n) = refl
signed-sign (negsuc n) = refl

unfoldable pub present : Option ℕ → ℕ
present none = 0
present (some n) = 1

unfoldable pub content : Option ℕ → ℕ
content none = 0
content (some n) = n

unfoldable pub command : ℕ → ℕ → Option ℕ
command zero n = none
command (suc p) n = some n

pub command-present : (c : Option ℕ) → command (present c) (content c) ≡ c
unfolding present content command
command-present none = refl
command-present (some n) = refl

unfoldable pub encode_log : List (LogEntry ℕ) → List ℕ
encode_log [] = []
encode_log (e ∷ log) =
    sign e.term ∷ size e.term ∷ present e.command ∷ content e.command ∷ encode_log log

unfoldable pub decode_log : List ℕ → List (LogEntry ℕ)
decode_log (s ∷ t ∷ p ∷ c ∷ rest) =
    record { term = signed s t; command = command p c } ∷ decode_log rest
decode_log _ = []

decode_log-encode_log : (log : List (LogEntry ℕ)) → decode_log (encode_log log) ≡ log
unfolding encode_log decode_log
decode_log-encode_log [] = refl
decode_log-encode_log (e ∷ log) =
    ground (arith, signed-sign e.term, command-present e.command, decode_log-encode_log log)

unfoldable pub encode : Stored ℕ → List ℕ
encode s = sign s.term ∷ size s.term ∷ sign s.vote ∷ size s.vote ∷ encode_log s.log

unfoldable pub decode : List ℕ → Option (Stored ℕ)
decode (s ∷ t ∷ v ∷ w ∷ log) =
    some (record { term = signed s t; vote = signed v w; log = decode_log log })
decode _ = none

pub decode-encode : (s : Stored ℕ) → decode (encode s) ≡ some s
unfolding encode decode
decode-encode s =
    ground (arith, signed-sign s.term, signed-sign s.vote, decode_log-encode_log s.log)

pub encode-ne-nil : (s : Stored ℕ) → encode s ≢ []
unfolding encode
encode-ne-nil s h = cc

instance unfoldable pub numbers : Gob ℕ
numbers = record {
  encode = encode;
  decode = decode;
  decode-encode = decode-encode;
  encode-ne-nil = encode-ne-nil;
}

-- A printer of two numbers in strokes.
unfoldable pub strokes : ℕ → String → String
strokes zero s = s
strokes (suc n) s = put_char "a" (strokes n s)

unfoldable pub count : String → ℕ
count end = 0
count (put_char ch s) = suc (count s)

count-strokes : (n : ℕ) → count (strokes n end) ≡ n
unfolding count strokes
count-strokes zero = refl
count-strokes (suc n) = ap suc (count-strokes n)

unfoldable pub print_second : ℤ → String
print_second (pos n) = put_char "b" (strokes n end)
print_second (negsuc n) = put_char "c" (strokes n end)

unfoldable pub scan : ℕ → String → ℤ × ℤ
scan n end = (pos n, pos 0)
scan n (put_char ch s) =
    let rest = scan (suc n) s in
    if code ch == 97
    then rest
    else (pos n, if code ch == 98 then pos (count s) else negsuc (count s))

unfoldable pub print : ℕ → ℤ → String
print m n = strokes m (print_second n)

scan-second : (m : ℕ) (n : ℤ) → scan m (print_second n) ≡ (pos m, n)
unfolding scan print_second
scan-second m (pos n) = ground (arith, count-strokes n)
scan-second m (negsuc n) = ground (arith, count-strokes n)

scan-strokes : (k m : ℕ) (n : ℤ) → scan k (strokes m (print_second n)) ≡ (pos (k + m), n)
unfolding scan strokes
scan-strokes k zero n = scan-second k n ∙ ap (λ x. (pos x, n)) (omega arith)
scan-strokes k (suc m) n = scan-strokes (suc k) m n ∙ ap (λ x. (pos x, n)) (omega arith)

pub scan-print : (m : ℕ) (n : ℤ) → scan 0 (print m n) ≡ (pos m, n)
unfolding print
scan-print m n = scan-strokes 0 m n ∙ ap (λ x. (pos x, n)) (omega arith)

instance unfoldable pub marks : Fmt
marks = record { sprintf = print; sscanf = scan 0; sscanf-sprintf = scan-print }

instance unfoldable pub no_bytes : MapGob
no_bytes = record { encode = λ kv versions. []; decode = λ bytes. none }

abbrev pub entry : ℕ → ℕ → LogEntry ℕ
entry t c = record { term = pos t; command = some c }

-- The first of three peers, with its state on its disk.
abbrev pub peer : ServerState → ℕ → ℤ → List (LogEntry ℕ) → Raft ℕ
peer state term vote log = record {
  peers = 3;
  persister = record {
    raftstate = numbers.encode (record { term = pos term; vote = vote; log = log });
    snapshot = [];
  };
  me = 0;
  dead = false;
  current_term = pos term;
  voted_for = vote;
  log = log;
  commit_index = pos 0;
  last_applied = pos 0;
  next_index = [];
  match_index = [];
  state = state;
  last_heartbeat_time = 0;
  leader_id = pos 1;
  last_heartbeat_sent = 0;
  apply_ch = [];
  apply_cond = 0;
  calls = [];
}

abbrev pub ask : ℕ → ℕ → RequestVoteArgs
ask term server = record {
  term = pos term;
  candidate_id = pos server;
  last_log_index = pos 5;
  last_log_term = pos 2;
}

abbrev pub request : ℕ → ℤ → ℕ → List (LogEntry ℕ) → AppendEntriesArgs ℕ
request term prev prev_term entries = record {
  term = pos term;
  leader_id = pos 1;
  prev_log_index = prev;
  prev_log_term = pos prev_term;
  entries = entries;
  leader_commit = pos 0;
}

-- A server of the key-value store that holds one key.
abbrev pub server : KvServer
server = record {
  me = 1;
  dead = false;
  kv = insert "x" "a" empty;
  versions = insert "x" 1 empty;
  sync_version = 5;
  get_queue = [];
  get_queue_len = pos 0;
  op_chs = empty;
  answers = [];
}

abbrev pub put_args : String → String → ℕ → PutArgs
put_args key value version = record { key = key; value = value; version = version }

abbrev pub put_op : String → String → ℕ → Op
put_op key value version = record {
  op_type = "Put";
  get_args = record { key = "" };
  put_args = put_args key value version;
  id = 0;
}

abbrev pub get_op : String → ℕ → Op
get_op key id = record {
  op_type = "Get";
  get_args = record { key = key };
  put_args = put_args "" "" 0;
  id = id;
}

-- The number that was there is overwritten.
decode_int : List ℕ → ℤ → Option ℤ
decode_int (s ∷ n ∷ rest) old = some (signed s n)
decode_int _ old = none

instance pub ints : IntGob
ints = record { encode = λ z. sign z ∷ size z ∷ []; decode = decode_int }
