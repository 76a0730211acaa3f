-- ===== src/Ring/Cursor.antt =====
-- crates/core/src/store/memory.rs: cursor reads, and where a cursor moves after one.
use logmon_mcp.Common.{
  ℕ, ◌+◌, ◌-◌, max, min, Bool, true, false, not, ◌&&◌, ◌||◌, Option, none, some, List, [], ◌∷◌,
  ◌++◌, map, ltb, leb, ◌==◌, if◌then◌else◌, sat_suc, length, take, keep, last?,
}
use logmon_mcp.Entry.{LogEntry}
use logmon_mcp.Filter.{ParsedFilter}
use logmon_mcp.Filter.Text.{TextEngine}
use logmon_mcp.Ring.{Store, sort_by_seq}
use logmon_mcp.Ring.Map.{BTreeMap}
use logmon_mcp.Ring.Read.{RingView, view_of, entry_of, passes, passes_late}

pub record CursorPos : Type 0 where
  pub seq : ℕ
  pub late_mark : ℕ
  pub floor : ℕ

pub record LateTag : Type 0 where
  pub number : ℕ
  pub held_through : ℕ

pub record CursorRead : Type 0 where
  pub entries : List (LogEntry × Option LateTag)
  pub pos : CursorPos
  pub late_exhausted : Bool
  pub late_counter : ℕ
  pub held_total : Option ℕ
  pub view : RingView

pub record CursorAdvance : Type 0 where
  pub seq : ℕ
  pub late_mark : ℕ
  pub late : ℕ
  pub late_lost : Option ℕ

-- The variables of the two loops of `cursor_read`.
pub record Walk : Type 0 where
  pub taken : List (LogEntry × Option LateTag)
  pub held : ℕ
  pub scanned : ℕ
  pub exhausted : Bool

-- `late.range(mark.saturating_add(1)..)`.
unfoldable pub late_above : ℕ → BTreeMap → BTreeMap
late_above mark late = keep (λ (n, seq). leb (sat_suc mark) n) late

-- `late_by_seq.keys().next().is_none_or(|lowest| pos.seq < *lowest)`.
unfoldable pub below_every_late_seq : ℕ → BTreeMap → Bool
below_every_late_seq seq [] = true
below_every_late_seq seq ((lowest, n) ∷ m) = ltb seq lowest

module _ (engine : TextEngine) (count : ℕ) (filter : Option ParsedFilter) (pos : CursorPos) where
  -- Takes a late record; the walk is cut when the budget is used up.
  unfoldable pub take_late : LogEntry → ℕ → Walk → Walk
  take_late e number w =
      let taken = w.taken ++ (e, some (record { number = number; held_through = w.held })) ∷ [] in
      record w { taken = taken; exhausted = not (leb count (length taken)) }

  -- One round of the late loop.
  unfoldable pub late_round : List LogEntry → ℕ → ℕ → Walk → Walk
  late_round entries number seq w =
      let counted = record w { held = w.held + 1 } in
      if ltb pos.seq seq || leb seq pos.floor then counted else elim (entry_of entries seq) [
        | none ↦ record counted { scanned = w.scanned + 1 }
        | some e ↦
            if passes_late engine filter e
            then take_late e number (record counted { scanned = w.scanned + 1 })
            else record counted { scanned = w.scanned + 1 }
      ]

  unfoldable pub walk_late : List LogEntry → BTreeMap → Walk → Walk
  walk_late entries [] w = w
  walk_late entries ((number, seq) ∷ late) w =
      let w' = late_round entries number seq w in
      elim w'.exhausted [ false ↦ w' | true ↦ walk_late entries late w' ]

  -- The late part.
  unfoldable pub late_part : Store → Walk
  late_part s =
      let start : Walk = record { taken = []; held = 0; scanned = 0; exhausted = true } in
      if count == 0
      then record start { exhausted = false }
      else if below_every_late_seq pos.seq s.late_by_seq
      then record start { held = length (late_above pos.late_mark s.late) }
      else walk_late s.entries (late_above pos.late_mark s.late) start

  -- The normal part, oldest first.
  unfoldable pub walk_normal : List LogEntry → Walk → Walk
  walk_normal [] w = w
  walk_normal (e ∷ es) w =
      let seen = record w { scanned = w.scanned + 1 } in
      let took = record seen { taken = w.taken ++ (e, none) ∷ [] } in
      elim (leb e.seq pos.seq || not (passes engine filter e)) [
        | true ↦ walk_normal es seen
        | false ↦ elim (leb count (length took.taken)) [ true ↦ took | false ↦ walk_normal es took ]
      ]

  unfoldable pub cursor_read : Store → CursorRead
  cursor_read s =
      let late = late_part s in
      let w =
        if late.exhausted && ltb (length late.taken) count
        then walk_normal s.entries late
        else late in
      record {
        entries = w.taken;
        pos = pos;
        late_exhausted = late.exhausted;
        late_counter = s.late_counter;
        held_total = if late.exhausted then some late.held else none;
        view = view_of s w.scanned;
      }

-- `into_kept_entries`.
unfoldable pub into_kept_entries : CursorRead → ℕ → List LogEntry
into_kept_entries r kept = sort_by_seq (map (λ (e, t). e) (take kept r.entries))

-- The late tags of some taken records, in order.
unfoldable pub late_tags : List (LogEntry × Option LateTag) → List LateTag
late_tags [] = []
late_tags ((e, none) ∷ es) = late_tags es
late_tags ((e, some t) ∷ es) = t ∷ late_tags es

-- `fold(seq0, u64::max)` over the seqs of the normal records.
unfoldable pub highest_normal : ℕ → List (LogEntry × Option LateTag) → ℕ
highest_normal seq [] = seq
highest_normal seq ((e, none) ∷ es) = highest_normal (max seq e.seq) es
highest_normal seq ((e, some t) ∷ es) = highest_normal seq es

-- The cursor passes the whole late part.
unfoldable pub advance_whole : CursorRead → List (LogEntry × Option LateTag) → CursorAdvance
advance_whole r prefix =
    let late_mark = max r.late_counter r.pos.late_mark in
    record {
      seq = highest_normal r.pos.seq prefix;
      late_mark = late_mark;
      late = length (late_tags prefix);
      late_lost = elim r.held_total [
        | none ↦ none
        | some held ↦ some (late_mark - r.pos.late_mark - held)
      ];
    }

-- It stays, and its mark moves to the last late record kept.
unfoldable pub advance_part : CursorRead → List LateTag → CursorAdvance
advance_part r kept = elim (last? kept) [
  | none ↦ record { seq = r.pos.seq; late_mark = r.pos.late_mark; late = 0; late_lost = some 0 }
  | some t ↦ record {
    seq = r.pos.seq;
    late_mark = t.number;
    late = length kept;
    late_lost = some (t.number - r.pos.late_mark - t.held_through);
  }
]

unfoldable pub advance_for : CursorRead → ℕ → CursorAdvance
advance_for r kept =
    let prefix = take (min kept (length r.entries)) r.entries in
    let late_kept = late_tags prefix in
    if r.late_exhausted && length late_kept == length (late_tags r.entries)
    then advance_whole r prefix
    else advance_part r late_kept
