-- ===== src/WrapChain.antt =====
-- src/snapshot/WrapChain.h and src/snapshot/WrapChain.cpp: which mods wrap which method of the game's
-- scripts. The walk over the script folder and the reading of files are not modelled: a file is a path
-- below the folder, the mod that it is attributed to, and its lines.
pub mod Comments
pub mod Layers
pub mod Chains
pub mod Scan
pub mod Scanned
pub mod Captured
pub mod Examples
use redscope.Base.{
  ℕ, ◌+◌, ◌-◌, ◌%◌, ◌^◌, Bool, true, false, ◌&&◌, ◌||◌, Option, none, some, List, [], ◌∷◌, ◌++◌,
  ltb, leb, ◌==◌, if◌then◌else◌, Bytes, CStr, str_eq, length, take, replicate,
}
use redscope.Base.Sort.{sort, str_lt}

abbrev pub is_whitespace : ℕ → Bool
is_whitespace c = c == 32 || c == 9 || c == 13 || c == 10

-- `StripComments` from `i` on: what stands there afterwards, and the flag.
unfoldable pub strip_from : Bytes → Bool → Bytes × Bool
strip_from [] inside = ([], inside)
strip_from (c ∷ []) true = (32 ∷ [], true)
strip_from (c ∷ []) false = (c ∷ [], false)
strip_from (c ∷ d ∷ s) true =
    let closed = strip_from s false in
    let on = strip_from (d ∷ s) true in
    if c == b'*' && d == b'/' then (32 ∷ 32 ∷ closed.0, closed.1) else (32 ∷ on.0, on.1)
strip_from (c ∷ d ∷ s) false =
    let opened = strip_from s true in
    let on = strip_from (d ∷ s) false in
    if c == b'/' && d == b'/'
    then (replicate (length (c ∷ d ∷ s)) 32, false)
    else if c == b'/' && d == b'*'
    then (32 ∷ 32 ∷ opened.0, opened.1)
    else (c ∷ on.0, on.1)

unfoldable pub strip_comments : Bytes → Bool → Bytes × Bool
unfolding strip_from
strip_comments line in_block_comment = strip_from line in_block_comment

-- `FirstNonSpace(line) == npos`.
unfoldable pub is_blank : Bytes → Bool
is_blank [] = true
is_blank (c ∷ s) = is_whitespace c && is_blank s

-- `BuildMethodKey` for a key of `cap` bytes: none leaves it alone.
unfoldable pub build_method_key : CStr → CStr → ℕ → Option Bytes
build_method_key cls meth cap =
    if cap == 0
    then none
    else let a : Bytes = elim cls [ none ↦ [] | some s ↦ take (cap - 1) s ] in
      let b = if ltb (length a + 1) cap then a ++ (b'.' ∷ []) else a in
      let c : Bytes = elim meth [ none ↦ [] | some s ↦ take (cap - 1 - length b) s ] in
      some (b ++ c)

pub record WrapLayer : Type 0 where
  pub mod_name : Bytes
  pub rel_file : Bytes
  pub line_number : ℕ

-- `layerCount` is the length of `layers`.
pub record WrapChainEntry : Type 0 where
  pub method_key : Bytes
  pub extra_layers : ℕ
  pub layers : List WrapLayer

-- Without the numbers of files and mods, and the flag that a scan was made.
pub record WrapChainTable : Type 0 where
  pub chains : List WrapChainEntry
  pub chains_dropped : ℕ
  pub total_layers : ℕ

abbrev pub max_wrap_layers : ℕ
max_wrap_layers = 6

abbrev pub max_wrap_chains : ℕ
max_wrap_chains = 512

abbrev pub no_chains : WrapChainTable
no_chains = record { chains = []; chains_dropped = 0; total_layers = 0 }

pub record PendingLayer : Type 0 where
  pub method_key : Bytes
  pub mod_name : Bytes
  pub rel_file : Bytes
  pub line_number : ℕ

unfoldable pub append_layer : PendingLayer → WrapChainEntry → WrapChainEntry
append_layer p e =
    if leb max_wrap_layers (length e.layers)
    then record e { extra_layers = (e.extra_layers + 1) % 2 ^ 32 }
    else record e {
      layers =
          e.layers
          ++ (record {
            mod_name = take 31 p.mod_name;
            rel_file = take 95 p.rel_file;
            line_number = p.line_number;
          }
              ∷ []);
    }

-- The search of `FindOrCreateChain` with the `AppendLayer` that follows: none, if no chain has the key.
unfoldable pub append_to : PendingLayer → List WrapChainEntry → Option (List WrapChainEntry)
unfolding append_layer
append_to p [] = none
append_to p (c ∷ cs) =
    let on = append_to p cs in
    if str_eq c.method_key p.method_key
    then some (append_layer p c ∷ cs)
    else elim on [ none ↦ none | some ds ↦ some (c ∷ ds) ]

-- A new chain with the first layer.
abbrev pub new_chain : PendingLayer → WrapChainEntry
new_chain p = record { method_key = take 79 p.method_key; extra_layers = 0; layers = [] }

-- `FindOrCreateChain` where no chain has the key, with the `AppendLayer` that follows.
unfoldable pub start_chain : PendingLayer → WrapChainTable → WrapChainTable
start_chain p t =
    if leb max_wrap_chains (length t.chains)
    then record t { chains_dropped = (t.chains_dropped + 1) % 2 ^ 32 }
    else record t {
      chains = t.chains ++ (append_layer p (new_chain p) ∷ []);
      total_layers = (t.total_layers + 1) % 2 ^ 32;
    }

-- `some` of the chains with the layer appended, or none where no chain has the key.
unfoldable pub with_chains :
    PendingLayer → WrapChainTable → Option (List WrapChainEntry) → WrapChainTable
unfolding start_chain
with_chains p t (some cs) = record t { chains = cs; total_layers = (t.total_layers + 1) % 2 ^ 32 }
with_chains p t none = start_chain p t

-- One round of the last loop of `CaptureWrapChains`.
unfoldable pub add_pending : PendingLayer → WrapChainTable → WrapChainTable
unfolding append_to with_chains
add_pending p t = with_chains p t (append_to p t.chains)

-- In order of file and line.
abbrev pub earlier : PendingLayer → PendingLayer → Bool
earlier a b =
    if str_eq a.rel_file b.rel_file
    then ltb a.line_number b.line_number
    else str_lt a.rel_file b.rel_file

unfoldable pub add_all : List PendingLayer → WrapChainTable → WrapChainTable
unfolding add_pending
add_all [] t = t
add_all (p ∷ ps) t = add_all ps (add_pending p t)

-- `CaptureWrapChains` from the pending layers on.
unfoldable pub build_chains : List PendingLayer → WrapChainTable
unfolding add_all
build_chains pending = add_all (sort earlier pending) no_chains

abbrev pub find_key : Bytes → List WrapChainEntry → Option WrapChainEntry
find_key key [] = none
find_key key (c ∷ cs) = if str_eq c.method_key key then some c else find_key key cs

unfoldable pub find_chain : WrapChainTable → CStr → Option WrapChainEntry
find_chain t none = none
find_chain t (some key) = find_key key t.chains
