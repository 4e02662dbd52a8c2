-- ===== src/Wsync/Diff.antt =====
-- `ComputeDiff` of wsync/algo.go. The state holds the function's local variables; `buffer` is the
-- bytes of the Go buffer below `validTo`, whose rest is never read, so `validTo` is its length.
pub mod Measure
pub mod Invariant
pub mod Reconstruct
pub mod Bounds
pub mod Total
pub mod Sizes
use wharf.Base.{
  ℕ, zero, suc, ◌+◌, ◌-◌, ◌*◌, Bool, true, false, ◌&&◌, ◌||◌, Option, none, some, List, [], ◌++◌,
  length, get_or, take, drop, slice, ltb, leb, ◌==◌, if◌then◌else◌,
}
use wharf.Wsync.Types.{Operation, op_block_range, op_data, BlockHash}
use wharf.Wsync.Rolling.{BetaHash, beta_hash, roll}
use wharf.Wsync.Library.{HashLookup, lookup, find_unique_hash}
use wharf.Wsync.Emitter.{
  DiffError, source_failed, stuck, Action, ◌>>◌, done, modify, Emitter, no_ops, enqueue,
  send_waiting,
}

-- `MaxDataOp`
abbrev pub max_data_op : ℕ
max_data_op = 4 * 1024 * 1024

-- `min` at the end of the file
abbrev pub min_int : ℕ → ℕ → ℕ
min_int a b = if ltb a b then a else b

-- A reader: the bytes that it still yields, and whether it then fails or ends.
pub record Source : Type 0 where
  pub rest : List ℕ
  pub broken : Bool

pub record DiffState : Type 0 where
  pub source : Source
  pub buffer : List ℕ
  pub sum_tail : ℕ
  pub data_tail : ℕ
  pub data_head : ℕ
  pub hash : BetaHash
  pub pop : ℕ
  pub rolling : Bool
  pub last_run : Bool
  pub short_size : ℕ
  pub out : Emitter

abbrev pub start : Source → DiffState
start source = record {
  source = source;
  buffer = [];
  sum_tail = 0;
  data_tail = 0;
  data_head = 0;
  hash = record { beta = 0; beta1 = 0; beta2 = 0 };
  pop = 0;
  rolling = false;
  last_run = false;
  short_size = 0;
  out = no_ops;
}

abbrev pub is_some {ℓ} : {A : Type ℓ} → Option A → Bool
is_some none = false
is_some (some a) = true

-- What a call is given: the context's block size and strong hash, the length of its buffer before
-- the call, the library, the preferred file and the caller's writer, which takes an operation or
-- not by what it has taken before. (One that fails once and takes the next try is left out.)
pub record Params : Type 0 where
  pub block_size : ℕ
  pub unique_hash : List ℕ → List ℕ
  pub context_buffer : ℕ
  pub library : HashLookup
  pub preferred : Option ℕ
  pub accepts : List Operation → Operation → Bool

abbrev pub when : Bool → Action DiffState → Action DiffState
when b m = if b then m else done

module _ (p : Params) where
  open p use {block_size, unique_hash, context_buffer, library, preferred, accepts}

  -- `len(buffer)`: a buffer that is too small is made anew.
  pub buffer_len : ℕ
  buffer_len =
      let min_buffer_size = block_size * 2 + max_data_op in
      if ltb context_buffer min_buffer_size then min_buffer_size else context_buffer

  pub emit : Operation → Action DiffState
  emit op s = let (e, o) = enqueue accepts op s.out in (e, record s { out = o })

  -- the fresh bytes between the last operation and the window
  abbrev pub fresh : DiffState → List ℕ
  fresh s = slice s.buffer s.data_tail s.data_head

  pub wrap : Action DiffState
  wrap s =
      (do
        when (ltb s.data_tail s.data_head) (emit (op_data (fresh s)))
        modify λ (t : DiffState). record t {
          buffer = drop t.sum_tail t.buffer;
          sum_tail = 0;
          data_tail = 0;
          data_head = 0;
        })
        s

  -- `io.ReadAtLeast` for a whole block; a short one is the last, unless the reader fails.
  pub read_block : Action DiffState
  read_block s =
      let n = length s.source.rest in
      let t : DiffState = record s {
        source = record s.source { rest = drop block_size s.source.rest };
        buffer = s.buffer ++ take block_size s.source.rest;
      } in
      if ltb n block_size
      then if s.source.broken
        then (some source_failed, t)
        else (none, record t { last_run = true; short_size = n })
      else (none, t)

  pub fill : Action DiffState
  unfolding wrap read_block buffer_len
  fill s =
      when (ltb (length s.buffer) (s.sum_tail + block_size))
        (when (ltb buffer_len (length s.buffer + block_size)) wrap >> read_block) s

  abbrev pub sum_head : DiffState → ℕ
  sum_head s = min_int (s.sum_tail + block_size) (length s.buffer)

  abbrev pub window : DiffState → List ℕ
  window s = slice s.buffer s.sum_tail (sum_head s)

  -- The weak hash of the window, rolled on where the last one is known.
  pub next_hash : DiffState → BetaHash
  next_hash s =
      if s.rolling
      then roll s.hash (sum_head s - s.sum_tail) s.pop (get_or s.buffer (sum_head s - 1) 0)
      else beta_hash (window s)

  -- An unchanged rolling hash is not looked up again.
  pub find_block : DiffState → BetaHash → Option BlockHash
  find_block s h =
      if s.rolling && h.beta == s.hash.beta then none else elim (lookup h.beta library) [
        | none ↦ none
        | some hh ↦ find_unique_hash unique_hash hh (window s) s.short_size preferred
      ]

  abbrev pub must_flush : DiffState → Option BlockHash → Bool
  must_flush s found =
      ltb s.data_tail s.data_head && (is_some found || leb max_data_op (s.data_head - s.data_tail))

  pub flush : Option BlockHash → Action DiffState
  flush found s =
      when (must_flush s found)
        (emit (op_data (fresh s))
          >> modify (λ (t : DiffState). record t { data_tail = t.data_head }))
        s

  pub advance : Option BlockHash → Action DiffState
  advance (some block) =
      emit (op_block_range block.file_index block.block_index 1)
      >> modify λ (t : DiffState). record t {
        rolling = false;
        sum_tail = t.sum_tail + block_size;
        data_head = t.sum_tail + block_size;
        data_tail = t.sum_tail + block_size;
      }
  advance none = λ (s : DiffState).
      if s.last_run then emit (op_data (slice s.buffer s.data_tail (length s.buffer))) s else (
        none,
        record s {
          pop = if s.rolling then get_or s.buffer s.sum_tail 0 else s.pop;
          sum_tail = s.sum_tail + 1;
          data_head = s.sum_tail + 1;
        },
      )

  pub examine : Action DiffState
  unfolding next_hash find_block flush advance
  examine s =
      let h = next_hash s in
      let found = find_block s h in
      (flush found >> advance found) (record s { hash = h; rolling = true })

  unfoldable pub round : Action DiffState
  unfolding fill examine
  round = fill >> examine

  -- `for !lastRun`
  unfoldable pub rounds : ℕ → Action DiffState
  rounds zero s = (some stuck, s)
  rounds (suc fuel) s = elim s.last_run [
    | true ↦ (none, s)
    | false ↦ let (e, t) = round s in elim e [ none ↦ rounds fuel t | some x ↦ (some x, t) ]
  ]

  -- The writer's operations are those of the result. Each round but the last takes a byte at least.
  unfoldable pub compute_diff : Source → Option DiffError × Emitter
  unfolding rounds round emit
  compute_diff source =
      let (e, s) = rounds (length source.rest + 2) (start source) in send_waiting accepts (e, s.out)
