-- ===== src/Ring/Read.antt =====
-- crates/core/src/store/memory.rs: the readers of the log ring.
use logmon_mcp.Common.{
  ℕ, zero, suc, ◌+◌, ◌-◌, max, min, Bool, true, false, Option, none, some, List, [], ◌∷◌, ◌++◌, ltb,
  leb, if◌then◌else◌, length, take, drop, head?, last?,
}
use mathlib.Core.List.{reverse}
use logmon_mcp.Entry.{LogEntry}
use logmon_mcp.Filter.{ParsedFilter}
use logmon_mcp.Filter.Text.{TextEngine}
use logmon_mcp.Filter.Matcher.{matches_entry, matches_entry_past_cursor}
use logmon_mcp.Ring.{Store, position}
use logmon_mcp.Ring.Write.{partition_point}

-- `RingView`.
pub record RingView : Type 0 where
  pub scanned : ℕ
  pub len : ℕ
  pub oldest_seq : Option ℕ
  pub newest_seq : Option ℕ
  pub lost_below : ℕ

abbrev pub seq_of : Option LogEntry → Option ℕ
seq_of none = none
seq_of (some e) = some e.seq

unfoldable pub view_of : Store → ℕ → RingView
view_of s scanned = record {
  scanned = scanned;
  len = length s.entries;
  oldest_seq = seq_of (head? s.entries);
  newest_seq = seq_of (last? s.entries);
  lost_below = s.lost_below;
}

unfoldable pub range_with_floor : Store → ℕ → ℕ → List LogEntry × ℕ
range_with_floor s from to =
    let start = partition_point (λ e. ltb e.seq from) s.entries in
    let end = partition_point (λ e. leb e.seq to) s.entries in
    (drop start (take (max end start) s.entries), s.lost_below)

-- `inner.entries.get(i)`.
unfoldable pub entry_at : List LogEntry → ℕ → Option LogEntry
entry_at [] i = none
entry_at (e ∷ es) zero = some e
entry_at (e ∷ es) (suc i) = entry_at es i

-- `position(seq).and_then(|i| entries.get(i))`.
unfoldable pub entry_of : List LogEntry → ℕ → Option LogEntry
entry_of es seq = elim (position es seq) [ none ↦ none | some i ↦ entry_at es i ]

unfoldable pub context_by_seq : Store → ℕ → ℕ → ℕ → List LogEntry
context_by_seq s seq before after = elim (position s.entries seq) [
  | none ↦ []
  | some idx ↦ drop (idx - before) (take (min (idx + after + 1) (length s.entries)) s.entries)
]

-- `seqs.iter().filter_map(…)` over a trace's list.
unfoldable pub entries_of : List LogEntry → List ℕ → List LogEntry
entries_of es [] = []
entries_of es (seq ∷ seqs) = elim (entry_of es seq) [
  | none ↦ entries_of es seqs
  | some e ↦ e ∷ entries_of es seqs
]

unfoldable pub logs_by_trace_id : Store → ℕ → List LogEntry
logs_by_trace_id s tid = elim (s.trace_index tid) [
  | none ↦ []
  | some seqs ↦ entries_of s.entries seqs
]

unfoldable pub count_by_trace_id : Store → ℕ → ℕ
count_by_trace_id s tid = elim (s.trace_index tid) [ none ↦ 0 | some seqs ↦ length seqs ]

module _ (engine : TextEngine) where
  abbrev pub passes : Option ParsedFilter → LogEntry → Bool
  passes none e = true
  passes (some f) e = matches_entry engine f e

  abbrev pub passes_late : Option ParsedFilter → LogEntry → Bool
  passes_late none e = true
  passes_late (some f) e = matches_entry_past_cursor engine f e

  -- The walk of `recent_with_view`: a record that passes is taken, and the walk ends once `count`
  -- are taken.
  unfoldable pub walk_recent :
      ℕ → Option ParsedFilter → List LogEntry → List LogEntry × ℕ → List LogEntry × ℕ
  walk_recent count filter [] (result, scanned) = (result, scanned)
  walk_recent count filter (e ∷ es) (result, scanned) = elim (passes filter e) [
    | false ↦ walk_recent count filter es (result, scanned + 1)
    | true ↦ elim (leb count (length (result ++ e ∷ []))) [
      | true ↦ (result ++ e ∷ [], scanned + 1)
      | false ↦ walk_recent count filter es (result ++ e ∷ [], scanned + 1)
    ]
  ]

  unfoldable pub recent_with_view :
      Store → ℕ → Option ParsedFilter → Bool → List LogEntry × RingView
  recent_with_view s count filter oldest_first =
      let order = if oldest_first then s.entries else reverse s.entries in
      let (result, scanned) = walk_recent count filter order ([], 0) in (result, view_of s scanned)
