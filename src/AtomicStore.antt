-- ===== src/AtomicStore.antt =====
-- src/mpp/atomic-store-do.ts: the Durable Object that compares and sets by version. The type of the
-- stored strings is a parameter.
pub mod Versions
pub mod Client
use text.Mathlib.Text.{starts_with, ◌==◌ as str_eq}
use rozo_mpprouter.Base.{
  ℕ, suc, ◌+◌, String, Bool, true, false, Option, none, some, List, [], ◌∷◌, leb, ◌==◌, or_else,
  if◌then◌else◌,
}
use rozo_mpprouter.Base.Keys.{string_eq}
use rozo_mpprouter.Base.Dict.{Dict, lookup, insert, remove}

-- The rows `v:<k>` and `n:<k>`.
pub record Store (V : Type 0) : Type 0 where
  pub values : Dict String V
  pub versions : Dict String ℕ

abbrev pub value : {V : Type 0} → String → Store V → Option V
value k s = lookup k s.values

abbrev pub version : {V : Type 0} → String → Store V → ℕ
version k s = or_else (lookup k s.versions) 0

-- `/read`
unfoldable pub read : {V : Type 0} → String → Store V → Option V × ℕ
read k s = (value k s, version k s)

-- `op` and `value` of a commit; a `set` carries its value.
pub data Write (V : Type 0) : Type 0 where
  set : V → Write V
  delete : Write V

pub data CommitReply (V : Type 0) : Type 0 where
  done : CommitReply V
  conflict : Option V → ℕ → CommitReply V

abbrev pub write_value : {V : Type 0} → String → Write V → Dict String V → Dict String V
write_value k (set v) m = insert k v m
write_value k delete m = remove k m

-- The write that a matching version admits.
unfoldable pub write : {V : Type 0} → String → Write V → Store V → Store V
write k op s = record {
  values = write_value k op s.values;
  versions = insert k (version k s + 1) s.versions;
}

-- `/commit`
unfoldable pub commit : {V : Type 0} → String → ℕ → Write V → Store V → CommitReply V × Store V
commit k expected op s =
    if version k s == expected
    then (done, write k op s)
    else (conflict (value k s) (version k s), s)

-- `/seed`: writes an absent key only, with version 1.
unfoldable pub seed : {V : Type 0} → String → V → Store V → Bool × Store V
seed k v s = elim (value k s) [
  | some old ↦ (false, s)
  | none ↦ (true, record { values = insert k v s.values; versions = insert k 1 s.versions })
]

-- `/scan`: the values of the keys that start with the prefix.
unfoldable pub scan_rows : {V : Type 0} → String → Dict String V → List V
scan_rows prefix [] = []
scan_rows prefix ((k, v) ∷ rows) =
    let rest = scan_rows prefix rows in if starts_with k prefix then v ∷ rest else rest

unfoldable pub scan : {V : Type 0} → String → Store V → List V
unfolding scan_rows
scan prefix s = scan_rows prefix s.values

-- `JSON.stringify` of a counter and `JSON.parse` of a stored string as a counter, which is absent on
-- another shape.
pub record CounterCodec (V : Type 0) : Type 0 where
  pub encode : ℕ → String → V
  pub decode : V → Option (ℕ × String)

-- A counter of another bucket counts as zero.
abbrev pub count_in : Option (ℕ × String) → String → ℕ
count_in none bucket = 0
count_in (some (count, of_bucket)) bucket = if str_eq of_bucket bucket then count else 0

abbrev pub decode_row : {V : Type 0} → CounterCodec V → Option V → Option (ℕ × String)
decode_row codec none = none
decode_row codec (some v) = codec.decode v

abbrev pub parse_gate_count : {V : Type 0} → CounterCodec V → Option V → String → ℕ
parse_gate_count codec raw bucket = count_in (decode_row codec raw) bucket

unfoldable pub bump : {V : Type 0} → CounterCodec V → String → String → Store V → ℕ × Store V
bump codec k bucket s =
    let count = parse_gate_count codec (value k s) bucket + 1 in
    (count, write k (set (codec.encode count bucket)) s)

-- `/gate`: the second counter is bumped only within the first one's limit.
unfoldable pub gate :
    {V : Type 0}
    → CounterCodec V
    → String
    → String
    → String
    → ℕ
    → Store V
    → (ℕ × Option ℕ) × Store V
gate codec global_key ip_key bucket global_limit s =
    let (global_count, t) = bump codec global_key bucket s in
    if leb global_count global_limit
    then (let (ip_count, u) = bump codec ip_key bucket t in ((global_count, some ip_count), u))
    else ((global_count, none), t)

-- A request of another client.
pub data Request (V : Type 0) : Type 0 where
  commits : String → ℕ → Write V → Request V
  seeds : String → V → Request V
  gates : String → String → String → ℕ → Request V
  reads : Request V

unfoldable pub serve : {V : Type 0} → CounterCodec V → Request V → Store V → Store V
serve codec (commits k n op) s = (commit k n op s).1
serve codec (seeds k v) s = (seed k v s).1
serve codec (gates g i b l) s = (gate codec g i b l s).1
serve codec reads s = s

unfoldable pub serve_all : {V : Type 0} → CounterCodec V → List (Request V) → Store V → Store V
serve_all codec [] s = s
serve_all codec (r ∷ rs) s = serve_all codec rs (serve codec r s)
